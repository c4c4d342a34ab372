-- ===== src/LinkList/Cursor.antt =====
-- Walking through a list of linklist.c and moving nodes between lists: link_list_get_first_data,
-- link_list_get_next_data, link_list_get_next_data_ex and link_list_move_node.
use jdepends.Common.{
  ℕ, zero, suc, ◌-◌, ◌+◌, ◌%◌, ◌^◌, true, false, Option, none, some, List, [], ◌∷◌, ◌==◌,
  if◌then◌else◌,
}
use jdepends.Common.Run.{Run, ok, fault, out_of_fuel, ◌>>=◌}
use jdepends.LinkList.Defs.{
  NodeHeap, LinkList, list_regular, list_queue, get_next, set_next, get_prev, set_prev,
  compare_data_with_key, link_in,
}

-- link_list_get_data for a pointer p that is not null
unfoldable pub get_data : NodeHeap → ℕ → Run ℕ
get_data h p = if h.live p then ok (h.u p) else fault

-- The node at which a walk starts; 0 for an empty list
unfoldable pub start : LinkList → ℕ
start l = elim l.list_type [ list_queue ↦ l.tail | list_regular ↦ l.head ]

-- The datum of the node at which the walk stands
unfoldable pub datum_at : NodeHeap → LinkList → Run (Option ℕ × LinkList)
datum_at h l =
    let datum = get_data h l.first >>= λ x. ok (some x, l) in
    if l.first == 0 then ok (none, l) else datum

-- link_list_get_first_data
unfoldable pub get_first_data : NodeHeap → LinkList → Run (Option ℕ × LinkList)
get_first_data h l = datum_at h (record l { first = start l; is_end_reached = false })

unfoldable pub step : NodeHeap → LinkList → Run ℕ
step h l = elim l.list_type [ list_queue ↦ get_prev h l.first | list_regular ↦ get_next h l.first ]

unfoldable pub advanced : LinkList → ℕ → LinkList
advanced l p =
    if p == l.head then record l { first = 0; is_end_reached = true } else record l { first = p }

-- link_list_get_next_data
unfoldable pub get_next_data : NodeHeap → LinkList → Run (Option ℕ × LinkList)
get_next_data h l =
    let stepped = step h l >>= λ p. datum_at h (advanced l p) in
    let started = if l.head == 0 then ok (none, l) else datum_at h (record l { first = start l }) in
    let moved = if l.first == 0 then started else stepped in
    if l.is_end_reached then datum_at h l else moved

-- link_list_get_next_data_ex: always the datum at the start
unfoldable pub get_next_data_ex : NodeHeap → LinkList → Run (Option ℕ)
get_next_data_ex h l =
    let datum = get_data h (start l) >>= λ x. ok (some x) in if start l == 0 then ok none else datum

-- The calls of link_list_get_next_data up to the end of the walk
unfoldable pub walk_on : ℕ → NodeHeap → LinkList → Run (List ℕ)
walk_on zero h l = out_of_fuel
walk_on (suc fuel) h l = do
  (datum, l') ← get_next_data h l
  let rest = walk_on fuel h l'
  elim datum [ none ↦ ok [] | some x ↦ rest >>= λ xs. ok (x ∷ xs) ]

-- link_list_get_first_data and the calls of link_list_get_next_data behind it
unfoldable pub walk : ℕ → NodeHeap → LinkList → Run (List ℕ)
walk fuel h l = do
  (datum, l') ← get_first_data h l
  let rest = walk_on fuel h l'
  elim datum [ none ↦ ok [] | some x ↦ rest >>= λ xs. ok (x ∷ xs) ]

-- The head is taken out: its `next` is the head then, the node itself where it is the only one.
unfoldable pub take_head : NodeHeap → LinkList → ℕ → Run (NodeHeap × LinkList)
take_head h l p = do
  next ← get_next h p
  before ← get_prev h p
  h1 ← set_prev h next before
  back ← get_prev h1 p
  ahead ← get_next h1 p
  h2 ← set_next h1 back ahead
  h3 ← set_prev h2 p p
  h4 ← set_next h3 p p
  ok (h4, record l { head = next; count = (l.count + (2 ^ 32 - 1)) % 2 ^ 32 })

-- A node behind another is taken out.
unfoldable pub take_behind : NodeHeap → LinkList → ℕ → ℕ → Run (NodeHeap × LinkList)
take_behind h l before p = do
  next ← get_next h p
  h1 ← set_next h before next
  ahead ← get_next h1 p
  h2 ← set_prev h1 ahead before
  h3 ← set_next h2 p p
  h4 ← set_prev h3 p p
  ok (h4, record l { count = (l.count + (2 ^ 32 - 1)) % 2 ^ 32 })

unfoldable pub take_out : NodeHeap → LinkList → ℕ → ℕ → Run (NodeHeap × LinkList)
take_out h l before p = if p == l.head then take_head h l p else take_behind h l before p

-- The node is linked into the other list.
unfoldable pub move_over :
    LinkList → LinkList → ℕ → ℕ → NodeHeap → Run (NodeHeap × LinkList × LinkList)
move_over from to before p h = do
  (h', from') ← take_out h from before p
  (h'', to') ← link_in h' to p
  ok (h'', from', to')

unfoldable pub move_from :
    ℕ → NodeHeap → LinkList → LinkList → ℕ → ℕ → ℕ → Run (NodeHeap × LinkList × LinkList)
move_from zero h from to key before p = out_of_fuel
move_from (suc fuel) h from to key before p = do
  found ← compare_data_with_key h from p key
  next ← get_next h p
  let again = move_from fuel h from to key p next
  let rest = if next == from.head then ok (h, from, to) else again
  if found == 0 then rest else move_over from to before p h

-- link_list_move_node of two different lists
unfoldable pub move_node :
    ℕ → NodeHeap → LinkList → LinkList → ℕ → Run (NodeHeap × LinkList × LinkList)
move_node fuel h from to key = move_from fuel h from to key 0 from.head
