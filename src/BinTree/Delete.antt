-- ===== src/BinTree/Delete.antt =====
-- What delete_node makes of a tree.
use jdepends.Common.{
  ℕ, ◌≡◌, refl, ◌∙◌, inl, inr, true, false, Bool-cases, Option-cases, sym, none, some, Option, [],
  ◌∷◌, ◌++◌, leb, ltb, ◌==◌, ==_refl,
}
use jdepends.Common.Run.{Run, ok, fault}
use jdepends.BinTree.Defs.{
  Tree, leaf, dangling, node, add_node, search_node, search_tree, pointer_at, val_of, Place, Side,
  left, right, delete_node, joined, unlink, set_pointer, key_of,
}
use jdepends.BinTree.Reference.{IsWhole}
use jdepends.BinTree.Search.{place_of, below, below-nil, search_node-place_of, parent_out}

add_node-ends :
    (t r : Tree) (key : ℕ) → IsWhole t → key_of r ≡ ok key → (t' : Tree) × (add_node t r ≡ ok t')
unfolding add_node
add_node-ends leaf r key w e = (r, refl)
add_node-ends dangling r key w e = absurd w
add_node-ends (node l k v s) r key w e = elim (Bool-cases (leb k key)) [
  | inl f ↦ let (s', g) = add_node-ends s r key w.1 e in (node l k v s', rw (e, f, g) refl)
  | inr f ↦ let (l', g) = add_node-ends l r key w.0 e in (node l' k v s, rw (e, f, g) refl)
]

-- What replaces a node with these subtrees.
abbrev pub replacement : Tree → Tree → Tree
replacement leaf r = r
replacement l leaf = l
replacement l r = r

joined-replacement : (l r : Tree) → IsWhole l → IsWhole r → joined l r ≡ ok (replacement l r)
unfolding joined
joined-replacement leaf r w w' = refl
joined-replacement dangling r w w' = absurd w
joined-replacement (node l k v s) leaf w w' = refl
joined-replacement (node l k v s) dangling w w' = absurd w'
joined-replacement (node l k v s) (node l' k' v' s') w w' =
    let (t, e) = add_node-ends (node l k v s) (node l' k' v' s') k' w refl in rw e refl

-- Where the root has the key, it is replaced by its right subtree, or by the left one where there is no
-- right one; with both, the left subtree is lost.
delete_node-root :
    (l r : Tree) (k v : ℕ)
    → IsWhole l
    → IsWhole r
    → delete_node (node l k v r) k ≡ ok (true, replacement l r)
unfolding delete_node search_node unlink
delete_node-root l r k v w w' = rw (==_refl k, joined-replacement l r w w') refl

below-some :
    (s : Side) (o : Option Place) (p : Place)
    → below (s ∷ []) o ≡ some p
    → (q : Place) × (o ≡ some q) × (p ≡ s ∷ q)
below-some s none p e = cc
below-some s (some q) p e = (q, refl, cc)

place_of-right :
    (l r : Tree) (k v key : ℕ)
    → (k == key) ≡ false
    → ltb k key ≡ true
    → place_of (node l k v r) key ≡ below (right ∷ []) (place_of r key)
place_of-right l r k v key e f = rw (e, f) refl

place_of-left :
    (l r : Tree) (k v key : ℕ)
    → (k == key) ≡ false
    → ltb k key ≡ false
    → place_of (node l k v r) key ≡ below (left ∷ []) (place_of l key)
place_of-left l r k v key e f = rw (e, f) refl

place_of-root :
    (l r : Tree) (k v key : ℕ) → (k == key) ≡ true → place_of (node l k v r) key ≡ some []
place_of-root l r k v key e = rw e refl

-- A whole node at a place.
abbrev pub HasNode : Tree → Type 0
HasNode t = (l : Tree) × (k : ℕ) × (v : ℕ) × (r : Tree) × (t ≡ node l k v r) × IsWhole l × IsWhole r

-- A search ends at a node; and where it is freed and left in place, a second search follows a
-- dangling pointer.
Freed : Tree → ℕ → Place → Type 0
Freed t key p =
    HasNode (pointer_at t p)
    × ((here above : Place) → search_node (set_pointer t p dangling) key here above ≡ fault)

freed : (t : Tree) (key : ℕ) (p : Place) → IsWhole t → place_of t key ≡ some p → Freed t key p
unfolding Freed search_node
freed leaf key p w e = cc
freed dangling key p w e = absurd w
freed (node l k v r) key p w e = elim (Bool-cases (k == key)) [
  | inl f ↦
      let root : p ≡ [] = cc (place_of-root l r k v key f, e) in
      rw root ((l, k, v, r, refl, w.0, w.1), λ here above. refl)
  | inr f ↦ elim (Bool-cases (ltb k key)) [
    | inl g ↦
        let (q, e', deeper) =
          below-some right (place_of r key) p (sym (place_of-right l r k v key f g) ∙ e) in
        let (n, s) = freed r key q w.1 e' in
        rw deeper (n, λ here above. rw (f, g, s (here ++ right ∷ []) here) refl)
    | inr g ↦
        let (q, e', deeper) =
          below-some left (place_of l key) p (sym (place_of-left l r k v key f g) ∙ e) in
        let (n, s) = freed l key q w.0 e' in
        rw deeper (n, λ here above. rw (f, g, s (here ++ left ∷ []) here) refl)
  ]
]

parent_out-some :
    (t : Tree) (key : ℕ) (p above : Place)
    → place_of t key ≡ some p
    → parent_out t above ≡ some above
parent_out-some leaf key p above e = cc
parent_out-some dangling key p above e = cc
parent_out-some (node l k v r) key p above e = refl

-- What is unlinked is decided by the root alone.
delete_node-place_of :
    (t : Tree) (key : ℕ) (p : Place)
    → IsWhole t
    → place_of t key ≡ some p
    → (new : Tree) × (delete_node t key ≡ ok (true, unlink t [] p new))
unfolding delete_node Freed
delete_node-place_of t key p w e =
    let (l, k, v, r, n, wl, wr) = (freed t key p w e).0 in
    (
      replacement l r,
      rw
          (
            search_node-place_of t key [] [] w,
            below-nil (place_of t key),
            parent_out-some t key p [] e,
            e,
            n,
            joined-replacement l r wl wr,
          )
          refl,
    )

unlink-deep :
    (t : Tree) (s s' : Side) (p : Place) (new : Tree)
    → unlink t [] (s ∷ s' ∷ p) new ≡ set_pointer t (s ∷ s' ∷ p) dangling
unfolding unlink
unlink-deep t left s' p new = refl
unlink-deep t right s' p new = refl

-- Two levels or more below the root, a node that is deleted is freed and stays linked: the next
-- search for its key follows a pointer to freed memory.
pub delete_node-deep :
    (t : Tree) (key invalid : ℕ) (s s' : Side) (p : Place)
    → IsWhole t
    → place_of t key ≡ some (s ∷ s' ∷ p)
    → (t' : Tree) × (delete_node t key ≡ ok (true, t')) × (search_tree t' invalid key ≡ fault)
unfolding Freed search_tree
delete_node-deep t key invalid s s' p w e =
    let (new, deleted) = delete_node-place_of t key (s ∷ s' ∷ p) w e in
    let search = (freed t key (s ∷ s' ∷ p) w e).1 in
    (
      set_pointer t (s ∷ s' ∷ p) dangling,
      rw (deleted, unlink-deep t s s' p new) refl,
      rw (search [] []) refl,
    )

search_tree-value :
    (t : Tree) (key invalid : ℕ) (p : Place)
    → IsWhole t
    → place_of t key ≡ some p
    → search_tree t invalid key ≡ val_of (pointer_at t p)
unfolding search_tree
search_tree-value t key invalid p w e =
    rw (search_node-place_of t key [] [] w, below-nil (place_of t key), e) refl

one_result : (r : Run ℕ) → r ≡ ok 0 → r ≡ ok 1 → ⊥
one_result r e e' = cc

-- A key that no search finds is not deleted, and the tree stays as it is.
delete_node-absent :
    (t : Tree) (key : ℕ)
    → IsWhole t
    → ((invalid : ℕ) → search_tree t invalid key ≡ ok invalid)
    → delete_node t key ≡ ok (false, t)
unfolding delete_node
delete_node-absent t key w h = elim (Option-cases (place_of t key)) [
  | inl e ↦ rw (search_node-place_of t key [] [] w, e) refl
  | inr (p, e) ↦
      let value = λ (invalid : ℕ). sym (search_tree-value t key invalid p w e) ∙ h invalid in
      absurd (one_result (val_of (pointer_at t p)) (value 0) (value 1))
]
