-- ===== src/Pool/Examples.antt =====
-- A pool of at most two entries.
use jdepends.Common.{ℕ, ◌≡◌, refl, Bool, false, some, [], ◌==◌}
use jdepends.Common.Run.{ok, ◌>>=◌}
use jdepends.LinkList.Defs.{NodeHeap}
use jdepends.Pool.Defs.{Pool, create_pool, get_entry}
use jdepends.Pool.Sharing.{get_entry-again}

abbrev empty_heap : NodeHeap
empty_heap = record { live = λ a. false; next = λ a. a; prev = λ a. a; u = λ a. 0; fresh = 1 }

abbrev equal_words : ℕ → ℕ → Bool
equal_words x y = x == y

get_entry-again_example :
    (h1 : NodeHeap) × (pool1 : Pool) × (h2 : NodeHeap) × (pool2 : Pool) × ((create_pool empty_heap
          (some equal_words)
          2
          []
        >>= λ (h', pool). get_entry 1 h' pool 700)
      ≡ ok (700, h1, pool1))
    × (get_entry 1 h1 pool1 800 ≡ ok (700, h2, pool2))
get_entry-again_example =
    get_entry-again empty_heap (some equal_words) 2 0 700 800 (λ a beyond. refl, refl, refl) refl
