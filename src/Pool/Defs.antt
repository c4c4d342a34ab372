-- ===== src/Pool/Defs.antt =====
-- The pools of pool.c without threads, on the lists of LinkList. A value that pfn_create_data returns
-- is an argument, and so is the address of a local variable.
use jdepends.Common.{
  ℕ, ◌+◌, ◌-◌, ◌%◌, ◌^◌, Bool, Option, none, some, List, [], ◌∷◌, length, ◌==◌, if◌then◌else◌,
}
use jdepends.Common.Run.{Run, ok, ◌>>=◌}
use jdepends.LinkList.Defs.{
  NodeHeap, LinkList, list_queue, data_type_ptr, create_list, add_data, find_data, delete_data,
}
use jdepends.LinkList.Cursor.{get_next_data_ex, move_node}

-- pool_t
pub record Pool : Type 0 where
  pub used_list : LinkList
  pub free_list : LinkList
  pub count : ℕ
  pub max_count : ℕ

unfoldable pub create_all : NodeHeap → LinkList → List ℕ → Run (NodeHeap × LinkList)
create_all h l [] = ok (h, l)
create_all h l (created ∷ rest) = do (h', l') ← add_data h l created; create_all h' l' rest

-- pool_create, with what pfn_create_data returns for each of the initial entries
unfoldable pub create_pool : NodeHeap → Option (ℕ → ℕ → Bool) → ℕ → List ℕ → Run (NodeHeap × Pool)
create_pool h compare max created = do
  (h', free) ← create_all h (create_list list_queue data_type_ptr compare) created
  ok (
    h',
    record {
      used_list = create_list list_queue data_type_ptr compare;
      free_list = free;
      count = length created;
      max_count = max;
    },
  )

abbrev pub Entry : Type 0
Entry = ℕ × NodeHeap × Pool

unfoldable pub take_free : ℕ → NodeHeap → Pool → ℕ → Run Entry
take_free fuel h pool p = do
  (h', free, used) ← move_node fuel h pool.free_list pool.used_list p
  ok (p, h', record pool { free_list = free; used_list = used })

-- Where there is no free entry: null at the maximum, or a new one
unfoldable pub take_new : NodeHeap → Pool → ℕ → Run Entry
take_new h pool created = do
  let added = (do
    (h', free) ← add_data h pool.free_list created
    ok (created, h', record pool { free_list = free; count = (pool.count + 1) % 2 ^ 32 }))
  if pool.count == pool.max_count then ok (0, h, pool) else added

-- pool_get_data
unfoldable pub get_entry : ℕ → NodeHeap → Pool → ℕ → Run Entry
get_entry fuel h pool created = do
  next ← get_next_data_ex h pool.free_list
  elim next [ some p ↦ take_free fuel h pool p | none ↦ take_new h pool created ]

-- pool_return_data
unfoldable pub return_data : ℕ → NodeHeap → Pool → ℕ → Run (NodeHeap × Pool)
return_data fuel h pool p = do
  (h', used, free) ← move_node fuel h pool.used_list pool.free_list p
  ok (h', record pool { free_list = free; used_list = used })

unfoldable pub destroy_found : ℕ → NodeHeap → Pool → ℕ → Run (NodeHeap × Pool)
destroy_found fuel h pool address = do
  (h', free) ← delete_data fuel h pool.free_list address
  ok (h', record pool { free_list = free; count = (pool.count + (2 ^ 32 - 1)) % 2 ^ 32 })

-- pool_destroy_data; `address` is that of its parameter p, which it hands to the list.
unfoldable pub destroy_data : ℕ → NodeHeap → Pool → ℕ → Run (NodeHeap × Pool)
destroy_data fuel h pool address = do
  found ← find_data fuel h pool.free_list address
  let destroyed = destroy_found fuel h pool address
  if found == 0 then ok (h, pool) else destroyed
