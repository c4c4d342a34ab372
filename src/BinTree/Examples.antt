-- ===== src/BinTree/Examples.antt =====
-- A small search tree.
use jdepends.Common.{ℕ, ◌+◌, ◌≡◌, refl, true, List, [], arith}
use jdepends.Common.Run.{ok, fault}
use jdepends.BinTree.Defs.{
  Tree, leaf, node, add_key, search_tree, search_node, delete_node, traverse_in_order, left, right,
}
use jdepends.BinTree.Reference.{IsSearchTree}
use jdepends.BinTree.InOrder.{insert_key, add_key-traverse_in_order}
use jdepends.BinTree.Delete.{delete_node-deep}

abbrev leaf_node : ℕ → Tree
leaf_node k = node leaf k (k + k) leaf

-- 10 with 4 (above 2 and 7) and 20
abbrev tree : Tree
tree = node (node (leaf_node 2) 4 8 (leaf_node 7)) 10 20 (leaf_node 20)

tree-IsSearchTree : IsSearchTree tree
tree-IsSearchTree = ground arith

add_key-traverse_in_order_example :
    (t' : Tree) × (xs : List ℕ) × (add_key tree 5 1 ≡ ok t')
    × IsSearchTree t'
    × (traverse_in_order tree ≡ ok xs)
    × (traverse_in_order t' ≡ ok (insert_key 5 xs))
add_key-traverse_in_order_example = add_key-traverse_in_order tree 5 1 tree-IsSearchTree

delete_node-deep_example :
    (t' : Tree) × (delete_node tree 7 ≡ ok (true, t')) × (search_tree t' 0 7 ≡ fault)
delete_node-deep_example =
    delete_node-deep tree 7 0 left right [] (((tt, tt), (tt, tt)), (tt, tt)) refl

finds_no_5 : (invalid : ℕ) → search_tree tree invalid 5 ≡ ok invalid
unfolding search_tree search_node
finds_no_5 invalid = refl
