-- ===== src/BinTree/Defs.antt =====
-- The binary tree of bintree.c. A pointer to a node is the tree below it, null is `leaf`, and a
-- pointer that is kept after its node was freed is `dangling`: following it is a fault. Where the
-- code compares pointers, a node is named by its place. Memory is never short, and keys and values
-- are plain numbers.
use jdepends.Common.{
  ℕ, Bool, true, false, Option, none, some, List, [], ◌∷◌, ◌++◌, leb, ltb, ◌==◌, if◌then◌else◌,
}
use jdepends.Common.Run.{Run, ok, fault, ◌>>=◌}

-- node_t: left, key, val, right
pub data Tree : Type 0 where
  leaf dangling : Tree
  node : Tree → ℕ → ℕ → Tree → Tree

-- get_new_node
abbrev pub get_new_node : ℕ → ℕ → Tree
get_new_node key val = node leaf key val leaf

-- The key behind a pointer.
abbrev pub key_of : Tree → Run ℕ
key_of (node l k v r) = ok k
key_of _ = fault

-- add_node: *root_node afterwards
unfoldable pub add_node : Tree → Tree → Run Tree
add_node leaf new_node = ok new_node
add_node dangling new_node = fault
add_node (node l k v r) new_node = do
  key ← key_of new_node
  let on_right = add_node r new_node >>= λ r'. ok (node l k v r')
  let on_left = add_node l new_node >>= λ l'. ok (node l' k v r)
  if leb k key then on_right else on_left

pub data Side : Type 0 where
  left right : Side

-- The way from the root to a node.
abbrev pub Place : Type 0
Place = List Side

-- The pointer at a place.
abbrev pub pointer_at : Tree → Place → Tree
pointer_at t [] = t
pointer_at (node l k v r) (left ∷ p) = pointer_at l p
pointer_at (node l k v r) (right ∷ p) = pointer_at r p
pointer_at _ (s ∷ p) = leaf

-- The pointer at a place is set.
abbrev pub set_pointer : Tree → Place → Tree → Tree
set_pointer t [] new = new
set_pointer (node l k v r) (left ∷ p) new = node (set_pointer l p new) k v r
set_pointer (node l k v r) (right ∷ p) new = node l k v (set_pointer r p new)
set_pointer t (s ∷ p) new = t

-- The node that was found, and what *parent is set to.
pub record Found : Type 0 where
  pub found_node : Option Place
  pub parent : Option Place

-- search_node at the node `here`, whose argument parent_node is `above`; on the way back up every
-- call sets *parent to its own parent_node.
unfoldable pub search_node : Tree → ℕ → Place → Place → Run Found
search_node leaf key here above = ok (record { found_node = none; parent = none })
search_node dangling key here above = fault
search_node (node l k v r) key here above =
    let back = λ (f : Found). ok (record f { parent = some above }) in
    let on_right = search_node r key (here ++ right ∷ []) here >>= back in
    let on_left = search_node l key (here ++ left ∷ []) here >>= back in
    if k == key
    then ok (record { found_node = some here; parent = some above })
    else if ltb k key
    then on_right
    else on_left

abbrev pub val_of : Tree → Run ℕ
val_of (node l k v r) = ok v
val_of _ = fault

abbrev pub val_found : Tree → ℕ → Option Place → Run ℕ
val_found t invalid_val none = ok invalid_val
val_found t invalid_val (some p) = val_of (pointer_at t p)

-- bin_tree_search_tree
unfoldable pub search_tree : Tree → ℕ → ℕ → Run ℕ
search_tree t invalid_val key =
    search_node t key [] [] >>= λ f. val_found t invalid_val f.found_node

-- bin_tree_add_node
unfoldable pub add_key : Tree → ℕ → ℕ → Run Tree
add_key t key val = add_node t (get_new_node key val)

-- found_node->right when the subtrees have been joined: the right subtree is also hung into the
-- left one, which is not looked at again.
unfoldable pub joined : Tree → Tree → Run Tree
joined leaf r = ok r
joined l leaf = ok l
joined l r = do _ ← add_node l r; ok r

abbrev pub same_side : Side → Side → Bool
same_side left left = true
same_side right right = true
same_side _ _ = false

abbrev pub same_place : Place → Place → Bool
same_place [] [] = true
same_place (s ∷ p) (s' ∷ q) = if same_side s s' then same_place p q else false
same_place _ _ = false

-- The three tests of delete_node for the link to the found node; without a hit the link stays, and
-- the node is freed.
unfoldable pub unlink : Tree → Place → Place → Tree → Tree
unlink t parent found new =
    if same_place (parent ++ right ∷ []) found
    then set_pointer t found new
    else if same_place (parent ++ left ∷ []) found
    then set_pointer t found new
    else if same_place parent found
    then new
    else set_pointer t found dangling

abbrev pub remove_found : Tree → Place → Place → Tree → Run (Bool × Tree)
remove_found t parent found (node l k v r) = do
  new ← joined l r
  ok (true, unlink t parent found new)
remove_found t parent found _ = fault

abbrev pub delete_at : Tree → Option Place → Option Place → Run (Bool × Tree)
delete_at t none parent = ok (false, t)
delete_at t (some found) none = fault
delete_at t (some found) (some parent) = remove_found t parent found (pointer_at t found)

-- delete_node, and *root_node afterwards
unfoldable pub delete_node : Tree → ℕ → Run (Bool × Tree)
delete_node t key = search_node t key [] [] >>= λ f. delete_at t f.found_node f.parent

-- traverse_pre_order, traverse_in_order and traverse_post_order: the keys that `action` is called
-- with, in order
unfoldable pub traverse_pre_order : Tree → Run (List ℕ)
traverse_pre_order leaf = ok []
traverse_pre_order dangling = fault
traverse_pre_order (node l k v r) = do
  xs ← traverse_pre_order l
  ys ← traverse_pre_order r
  ok (k ∷ (xs ++ ys))

unfoldable pub traverse_in_order : Tree → Run (List ℕ)
traverse_in_order leaf = ok []
traverse_in_order dangling = fault
traverse_in_order (node l k v r) = do
  xs ← traverse_in_order l
  ys ← traverse_in_order r
  ok (xs ++ k ∷ ys)

unfoldable pub traverse_post_order : Tree → Run (List ℕ)
traverse_post_order leaf = ok []
traverse_post_order dangling = fault
traverse_post_order (node l k v r) = do
  xs ← traverse_post_order l
  ys ← traverse_post_order r
  ok (xs ++ ys ++ k ∷ [])
