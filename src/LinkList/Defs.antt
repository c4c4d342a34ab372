-- ===== src/LinkList/Defs.antt =====
-- The lists of linklist.c: circles of nodes that hold a number or a pointer. The nodes lie on a heap
-- with a map for each field. A variant is one of at most four bytes; lists of doubles and larger
-- variants are left out.
use jdepends.Common.{
  ℕ, zero, suc, ◌+◌, ◌-◌, ◌%◌, ◌^◌, Bool, true, false, Option, none, some, ◌==◌, if◌then◌else◌, not,
}
use jdepends.Common.Run.{Run, ok, fault, out_of_fuel, ◌>>=◌}

-- link_node_t; `fresh` is the address that mem_alloc returns next.
pub record NodeHeap : Type 0 where
  pub live : ℕ → Bool
  pub next : ℕ → ℕ
  pub prev : ℕ → ℕ
  pub u : ℕ → ℕ
  pub fresh : ℕ

pub data DataType : Type 0 where
  data_type_ulong : DataType
  data_type_ptr : DataType
  data_type_variant : DataType

pub data ListType : Type 0 where
  list_regular : ListType
  list_queue : ListType

-- link_list_t; the null pointer is 0.
pub record LinkList : Type 0 where
  pub head : ℕ
  pub tail : ℕ
  pub first : ℕ
  pub list_type : ListType
  pub count : ℕ
  pub data_type : DataType
  pub is_end_reached : Bool
  pub compare_link : Option (ℕ → ℕ → Bool)

-- link_list_create
unfoldable pub create_list : ListType → DataType → Option (ℕ → ℕ → Bool) → LinkList
create_list kind type compare = record {
  head = 0;
  tail = 0;
  first = 0;
  list_type = kind;
  count = 0;
  data_type = type;
  is_end_reached = false;
  compare_link = compare;
}

unfoldable pub update {ℓ} : {A : Type ℓ} → (ℕ → A) → ℕ → A → ℕ → A
update f a x b = if b == a then x else f b

unfoldable pub get_next : NodeHeap → ℕ → Run ℕ
get_next h a = if h.live a then ok (h.next a) else fault

unfoldable pub set_next : NodeHeap → ℕ → ℕ → Run NodeHeap
set_next h a x = if h.live a then ok (record h { next = update h.next a x }) else fault

unfoldable pub get_prev : NodeHeap → ℕ → Run ℕ
get_prev h a = if h.live a then ok (h.prev a) else fault

unfoldable pub set_prev : NodeHeap → ℕ → ℕ → Run NodeHeap
set_prev h a x = if h.live a then ok (record h { prev = update h.prev a x }) else fault

-- mem_alloc of a node, its links to itself and link_list_set_data
unfoldable pub alloc_node : NodeHeap → ℕ → NodeHeap
alloc_node h datum = record {
  live = update h.live h.fresh true;
  next = update h.next h.fresh h.fresh;
  prev = update h.prev h.fresh h.fresh;
  u = update h.u h.fresh datum;
  fresh = h.fresh + 1;
}

unfoldable pub free_node : NodeHeap → ℕ → Run NodeHeap
free_node h a = if h.live a then ok (record h { live = update h.live a false }) else fault

-- The branch for a list of one node
unfoldable pub note_second : NodeHeap → LinkList → ℕ → Run (NodeHeap × LinkList)
note_second h l node = do
  next ← get_next h l.head
  h' ← set_prev h node l.head
  ok (if next == l.head then (h', record l { tail = node }) else (h, l))

-- The node is linked in behind the head.
unfoldable pub link_behind_head : NodeHeap → LinkList → ℕ → Run (NodeHeap × LinkList)
link_behind_head h l node = do
  next ← get_next h l.head
  h1 ← set_next h node next
  h2 ← set_prev h1 next node
  h3 ← set_prev h2 node l.head
  h4 ← set_next h3 l.head node
  ok (h4, l)

-- The part that link_list_add_data and link_list_move_node share
unfoldable pub link_in : NodeHeap → LinkList → ℕ → Run (NodeHeap × LinkList)
link_in h l node =
    let linked = (do
      (h', l') ← note_second h l node
      (h'', l'') ← link_behind_head h' l' node
      ok (h'', record l'' { count = (l''.count + 1) % 2 ^ 32 })) in
    if l.head == 0
    then ok (h, record l { head = node; tail = node; count = (l.count + 1) % 2 ^ 32 })
    else linked

-- link_list_add_data
unfoldable pub add_data : NodeHeap → LinkList → ℕ → Run (NodeHeap × LinkList)
add_data h l datum = link_in (alloc_node h datum) l h.fresh

-- What link_list_compare_data_with_key returns on a match: the pointer, or the address of the datum
unfoldable pub data_address : NodeHeap → LinkList → ℕ → ℕ
data_address h l p = elim l.data_type [ data_type_ptr ↦ h.u p | _ ↦ p + 8 ]

unfoldable pub key_case : NodeHeap → LinkList → ℕ → ℕ → Option (ℕ → ℕ → Bool) → ℕ
key_case h l p key none = 0
key_case h l p key (some compare) = if compare (h.u p) key then data_address h l p else 0

-- link_list_compare_data_with_key, with its assertion
unfoldable pub compare_data_with_key : NodeHeap → LinkList → ℕ → ℕ → Run ℕ
compare_data_with_key h l p key = if h.live p then ok (key_case h l p key l.compare_link) else fault

unfoldable pub find_from : ℕ → NodeHeap → LinkList → ℕ → ℕ → Run ℕ
find_from zero h l key p = out_of_fuel
find_from (suc fuel) h l key p = do
  found ← compare_data_with_key h l p key
  next ← get_next h p
  let again = find_from fuel h l key next
  if found == 0 then if next == l.head then ok 0 else again else ok found

-- link_list_find_data
unfoldable pub find_data : ℕ → NodeHeap → LinkList → ℕ → Run ℕ
find_data fuel h l key = find_from fuel h l key l.head

-- link_list_compare_data; memcmp is 0 where the bytes are equal.
unfoldable pub compare_data : LinkList → ℕ → ℕ → Bool
compare_data l stored datum = elim l.data_type [
  | data_type_ulong ↦ datum == stored
  | data_type_ptr ↦ datum == stored
  | data_type_variant ↦ not (datum == stored)
]

-- The node behind p is freed after its datum has moved to p.
unfoldable pub delete_here : NodeHeap → LinkList → ℕ → Run (NodeHeap × LinkList)
delete_here h l p = do
  q ← get_next h p
  behind ← get_next h q
  h1 ← set_next (record h { u = update h.u p (h.u q) }) p behind
  h2 ← set_prev h1 behind p
  let head = if q == l.head then if p == l.head then 0 else p else l.head
  let tail = if q == l.tail then if p == l.tail then 0 else p else l.tail
  h3 ← free_node h2 q
  ok (h3, record l { head = head; tail = tail })

unfoldable pub delete_from : ℕ → NodeHeap → LinkList → ℕ → ℕ → Run (NodeHeap × LinkList)
delete_from zero h l datum p = out_of_fuel
delete_from (suc fuel) h l datum p = do
  next ← get_next h p
  let again = delete_from fuel h l datum next
  let rest = if next == l.head then ok (h, l) else again
  if compare_data l (h.u p) datum then delete_here h l p else rest

-- link_list_delete_data of a list without a rundown function
unfoldable pub delete_data : ℕ → NodeHeap → LinkList → ℕ → Run (NodeHeap × LinkList)
delete_data fuel h l datum =
    let deleted = (do
      (h', l') ← delete_from fuel h l datum l.head
      ok (h', record l' { count = (l'.count + (2 ^ 32 - 1)) % 2 ^ 32 })) in
    if l.head == 0 then ok (h, l) else deleted

unfoldable pub destroy_from : ℕ → NodeHeap → LinkList → ℕ → Run NodeHeap
destroy_from zero h l node = out_of_fuel
destroy_from (suc fuel) h l node = do
  next ← get_next h node
  h' ← free_node h node
  let again = destroy_from fuel h' l next
  if next == l.head then ok h' else again

-- link_list_destroy of a list without a rundown function
unfoldable pub destroy_list : ℕ → NodeHeap → LinkList → Run NodeHeap
destroy_list fuel h l =
    let freed = destroy_from fuel h l l.head in if l.head == 0 then ok h else freed
