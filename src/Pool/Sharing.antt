-- ===== src/Pool/Sharing.antt =====
-- Two calls of pool_get_data of pool.c on a pool without entries.
use jdepends.Common.{
  ℕ, suc, ◌+◌, ◌%◌, ◌^◌, Bool, false, Option, [], ◌∷◌, ◌==◌, ==_refl, Bool-cases, inl, inr, ◌≡◌,
  refl, arith,
}
use jdepends.Common.Run.{ok, ◌>>=◌}
use jdepends.LinkList.Defs.{
  NodeHeap, LinkList, list_queue, data_type_ptr, create_list, add_data, alloc_node, link_in, update,
  compare_data_with_key, get_next, key_case,
}
use jdepends.LinkList.Cursor.{get_next_data_ex, get_data, start, move_node, move_from}
use jdepends.LinkList.Circle.{IsCircle, HasRoom}
use jdepends.LinkList.Walk.{move_node-last}
use jdepends.Pool.Defs.{Pool, create_pool, create_all, get_entry, take_free, take_new}

-- The move of the only node of a list to an empty list has a result.
move_node-single :
    (h : NodeHeap) (from to : LinkList) (key fuel a : ℕ)
    → IsCircle h from (a ∷ [])
    → h.prev from.head ≡ from.head
    → to.head ≡ 0
    → (h' : NodeHeap) × (from' : LinkList) × (to' : LinkList) × (move_node (suc fuel) h from to key
        ≡ ok (h', from', to'))
unfolding move_node move_from compare_data_with_key get_next
move_node-single h from to key fuel a (at, some_head, alive, next) prev empty =
    elim (Bool-cases (key_case h from from.head key from.compare_link == 0)) [
      | inl missing ↦ (h, from, to, rw (alive, missing, next, ==_refl from.head) refl)
      | inr found ↦ do
        let (h', from', to', moved, _, _) =
            move_node-last h from to key fuel a (at, some_head, alive, next) prev found empty
        (h', from', to', moved)
    ]

-- In a pool that is created without entries and with a maximum above 0, the first call of
-- pool_get_data returns what pfn_create_data returns, and a second call, with no entry returned in
-- between, returns the same again.
pub get_entry-again :
    (h : NodeHeap) (compare : Option (ℕ → ℕ → Bool)) (max fuel first second : ℕ)
    → HasRoom h
    → max == 0 ≡ false
    → (h1 : NodeHeap) × (pool1 : Pool) × (h2 : NodeHeap) × (pool2 : Pool) × ((create_pool h compare
            max []
          >>= λ (h', pool). get_entry (suc fuel) h' pool first)
        ≡ ok (first, h1, pool1))
      × (get_entry (suc fuel) h1 pool1 second ≡ ok (first, h2, pool2))
unfolding create_pool create_all get_entry take_free take_new add_data link_in get_next_data_ex
    start get_data create_list alloc_node update
get_entry-again h compare max fuel first second (room, some_address, no_null) some_max = do
  let h1 = alloc_node h first
  let used : LinkList = create_list list_queue data_type_ptr compare
  let free : LinkList = record used { head = h.fresh; tail = h.fresh; count = (0 + 1) % 2 ^ 32 }
  let circle : IsCircle h1 free (h.fresh ∷ []) =
      (refl, some_address, rw (==_refl h.fresh) refl, rw (==_refl h.fresh) refl)
  let (h2, free', used', moved) =
      move_node-single h1 free used first fuel h.fresh circle (rw (==_refl h.fresh) refl) refl
  let below_max : (0 == max) ≡ false = ground arith
  let count = (0 + 1) % 2 ^ 32
  (
    h1,
    record { used_list = used; free_list = free; count = count; max_count = max },
    h2,
    record { used_list = used'; free_list = free'; count = count; max_count = max },
    rw below_max refl,
    rw (some_address, ==_refl h.fresh, moved) refl,
  )
