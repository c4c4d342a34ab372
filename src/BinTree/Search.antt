-- ===== src/BinTree/Search.antt =====
-- Searching a tree, and adding to it, against the reference.
use jdepends.Common.{
  ℕ, ◌≡◌, ◌≢◌, refl, inl, inr, Bool-cases, none, some, Option, [], ◌∷◌, ◌++◌, ltb, ◌==◌,
  if◌then◌else◌, append_assoc, append-nil,
}
use jdepends.Common.Run.{ok}
use jdepends.BinTree.Defs.{
  Tree, leaf, dangling, node, add_key, search_node, search_tree, val_found, Place, left, right,
}
use jdepends.BinTree.Reference.{
  IsWhole, insert, lookup, or_else, add_key-insert, lookup-insert, lookup-insert_other,
  insert-IsWhole,
}

abbrev pub below : Place → Option Place → Option Place
below p none = none
below p (some q) = some (p ++ q)

-- Where a search ends, from the node that it begins at.
abbrev pub place_of : Tree → ℕ → Option Place
place_of (node l k v r) key =
    if k == key
    then some []
    else if ltb k key
    then below (right ∷ []) (place_of r key)
    else below (left ∷ []) (place_of l key)
place_of _ key = none

below-below : (p q : Place) (o : Option Place) → below (p ++ q) o ≡ below p (below q o)
below-below p q none = refl
below-below p q (some r) = rw append_assoc refl

abbrev pub parent_out : Tree → Place → Option Place
parent_out (node l k v r) above = some above
parent_out _ above = none

pub search_node-place_of :
    (t : Tree) (key : ℕ) (here above : Place)
    → IsWhole t
    → search_node t key here above
      ≡ ok (record { found_node = below here (place_of t key); parent = parent_out t above })
unfolding search_node
search_node-place_of leaf key here above w = refl
search_node-place_of dangling key here above w = absurd w
search_node-place_of (node l k v r) key here above w = elim (Bool-cases (k == key)) [
  | inl e ↦ rw (e, append-nil) refl
  | inr e ↦ elim (Bool-cases (ltb k key)) [
    | inl f ↦
        rw
          (
            e,
            f,
            search_node-place_of r key (here ++ right ∷ []) here w.1,
            below-below here (right ∷ []) (place_of r key),
          )
          refl
    | inr f ↦
        rw
          (
            e,
            f,
            search_node-place_of l key (here ++ left ∷ []) here w.0,
            below-below here (left ∷ []) (place_of l key),
          )
          refl
  ]
]

val_found-right :
    (l r : Tree) (k v invalid : ℕ) (o : Option Place)
    → val_found (node l k v r) invalid (below (right ∷ []) o) ≡ val_found r invalid o
val_found-right l r k v invalid none = refl
val_found-right l r k v invalid (some p) = refl

val_found-left :
    (l r : Tree) (k v invalid : ℕ) (o : Option Place)
    → val_found (node l k v r) invalid (below (left ∷ []) o) ≡ val_found l invalid o
val_found-left l r k v invalid none = refl
val_found-left l r k v invalid (some p) = refl

val_found-place_of :
    (t : Tree) (key invalid : ℕ)
    → IsWhole t
    → val_found t invalid (place_of t key) ≡ ok (or_else (lookup t key) invalid)
val_found-place_of leaf key invalid w = refl
val_found-place_of dangling key invalid w = absurd w
val_found-place_of (node l k v r) key invalid w = elim (Bool-cases (k == key)) [
  | inl e ↦ rw e refl
  | inr e ↦ elim (Bool-cases (ltb k key)) [
    | inl f ↦
        rw (e, f, val_found-right l r k v invalid (place_of r key))
          (val_found-place_of r key invalid w.1)
    | inr f ↦
        rw (e, f, val_found-left l r k v invalid (place_of l key))
          (val_found-place_of l key invalid w.0)
  ]
]

pub below-nil : (o : Option Place) → below [] o ≡ o
below-nil none = refl
below-nil (some p) = refl

pub search_tree-lookup :
    (t : Tree) (key invalid : ℕ)
    → IsWhole t
    → search_tree t invalid key ≡ ok (or_else (lookup t key) invalid)
unfolding search_tree
search_tree-lookup t key invalid w =
    rw (search_node-place_of t key [] [] w, below-nil (place_of t key))
      (val_found-place_of t key invalid w)

-- Adding a key to a tree without freed nodes succeeds. A search for the key then finds what it
-- found before, and the new value where it found nothing; every other search is unchanged.
add_key-search :
    (t : Tree) (key val : ℕ)
    → IsWhole t
    → (t' : Tree) × (add_key t key val ≡ ok t')
      × IsWhole t'
      × ((invalid : ℕ) → search_tree t' invalid key ≡ search_tree t val key)
      × ((invalid k : ℕ) → k ≢ key → search_tree t' invalid k ≡ search_tree t invalid k)
add_key-search t key val w =
    let t' = insert t key val in
    let w' = insert-IsWhole t key val w in
    (
      t',
      add_key-insert t key val w,
      w',
      λ invalid.
          rw
            (
              search_tree-lookup t' key invalid w',
              search_tree-lookup t key val w,
              lookup-insert t key val w,
            )
            refl,
      λ invalid k n.
          rw
            (
              search_tree-lookup t' k invalid w',
              search_tree-lookup t k invalid w,
              lookup-insert_other t key val k n w,
            )
            refl,
    )
