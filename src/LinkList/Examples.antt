-- ===== src/LinkList/Examples.antt =====
-- A list of three nodes, a queue, and a list with one node.
use jdepends.Common.{
  ℕ, ◌*◌, ◌≡◌, refl, inr, false, ◌||◌, none, some, [], ◌∷◌, arith, ◌==◌, if◌then◌else◌,
}
use jdepends.Common.Run.{ok}
use jdepends.LinkList.Defs.{
  NodeHeap, LinkList, list_regular, list_queue, data_type_ptr, data_type_variant, create_list,
  update, add_data, key_case, data_address, compare_data, delete_data, get_prev, find_data,
}
use jdepends.LinkList.Cursor.{
  walk, walk_on, get_first_data, get_next_data, get_next_data_ex, step, start, advanced, datum_at,
  get_data, move_node,
}
use jdepends.LinkList.Circle.{
  IsCircle, HasRoom, insert_second, first_answer, find_data-first_answer, add_data-IsCircle,
}
use jdepends.LinkList.Misses.{delete_data-miss}
use jdepends.LinkList.Walk.{walk-regular, move_node-last}

abbrev links : ℕ → ℕ
links a = if a == 1 then 3 else if a == 3 then 2 else if a == 2 then 1 else a

abbrev backs : ℕ → ℕ
backs a = if a == 1 then 2 else if a == 2 then 3 else if a == 3 then 1 else a

abbrev heap : NodeHeap
heap = record {
  live = λ a. (a == 1) || (a == 2) || (a == 3) || (a == 5);
  next = links;
  prev = backs;
  u = λ a. 10 * a;
  fresh = 6;
}

abbrev threads : LinkList
threads = record (create_list list_regular data_type_ptr (some (λ x y. x == y))) {
  head = 1;
  tail = 2;
  count = 3;
}

abbrev queue : LinkList
queue = record threads { list_type = list_queue }

heap-HasRoom : HasRoom heap
heap-HasRoom = (λ a beyond. ground arith, refl, refl)

threads-IsCircle : IsCircle heap threads (1 ∷ 3 ∷ 2 ∷ [])
unfolding create_list
threads-IsCircle = (refl, refl, refl, (refl, refl, refl, (refl, refl, refl, refl)))

find_data-first_answer_example : find_data 4 heap threads 20 ≡ ok 20
unfolding first_answer key_case data_address create_list
find_data-first_answer_example =
    find_data-first_answer heap threads 20 4 1 (3 ∷ 2 ∷ []) (omega arith) threads-IsCircle

add_data-IsCircle_example :
    (h' : NodeHeap) × (l' : LinkList) × (add_data heap threads 60 ≡ ok (h', l'))
    × IsCircle h' l' (insert_second 6 (1 ∷ 3 ∷ 2 ∷ []))
    × HasRoom h'
    × (h'.u ≡ update (λ a. 10 * a) 6 60)
    × (l'.count ≡ 4)
unfolding create_list
add_data-IsCircle_example =
    add_data-IsCircle heap threads 60 (1 ∷ 3 ∷ 2 ∷ []) heap-HasRoom threads-IsCircle

walk-regular_example :
    walk 4 heap (record threads { list_type = list_regular }) ≡ ok (10 ∷ 30 ∷ 20 ∷ [])
walk-regular_example =
    walk-regular heap threads 4 (1 ∷ 3 ∷ 2 ∷ []) heap-HasRoom threads-IsCircle (omega arith)

-- The walk through a queue passes the first datum over.
queue-walk : walk 4 heap queue ≡ ok (20 ∷ 30 ∷ [])
unfolding walk walk_on get_first_data get_next_data step start advanced datum_at get_data get_prev
    create_list
queue-walk = refl

-- The datum that a queue gives first is the second one that was added.
queue_first : get_next_data_ex heap queue ≡ ok (some 20)
unfolding get_next_data_ex start get_data create_list
queue_first = refl

delete_data-miss_example : delete_data 4 heap threads 77 ≡ ok (heap, record threads { count = 2 })
unfolding create_list
delete_data-miss_example =
    delete_data-miss heap threads 77 4 1 (3 ∷ 2 ∷ []) (omega arith) threads-IsCircle (inr refl)
      (λ e. omega (arith, e), (λ e. omega (arith, e), (λ e. omega (arith, e), tt)))

-- Equal variants do not match.
variants : compare_data (create_list list_regular data_type_variant none) 7 7 ≡ false
unfolding compare_data create_list
variants = refl

abbrev single : LinkList
single = record threads { head = 5; tail = 5; count = 1 }

move_node-last_example :
    (h' : NodeHeap) × (from' : LinkList) × (to' : LinkList) × (move_node 1 heap single
        (create_list list_regular data_type_ptr none)
        50
      ≡ ok (h', from', to'))
    × (from'.head ≡ 5)
    × (to'.head ≡ 5)
unfolding create_list key_case data_address
move_node-last_example =
    move_node-last heap single (create_list list_regular data_type_ptr none) 50 0 5
      (refl, refl, refl, refl) refl refl refl
