-- ===== src/BinTree/Reference.antt =====
-- Search trees, and adding to them and looking up in them as it is meant to be.
use jdepends.Common.{
  ℕ, ◌≤◌, ◌<◌, ◌≡◌, ◌≢◌, refl, inl, inr, true, false, Bool-cases, none, some, Option, arith, leb,
  ltb, ◌==◌, if◌then◌else◌, ==_refl,
}
use jdepends.Common.Run.{ok}
use jdepends.BinTree.Defs.{Tree, leaf, dangling, node, add_node, add_key}

-- No pointer of the tree leads to a freed node.
abbrev pub IsWhole : Tree → Type 0
IsWhole leaf = Unit {0}
IsWhole dangling = ⊥
IsWhole (node l k v r) = IsWhole l × IsWhole r

-- Every key of the tree is at least `lo`.
abbrev pub AllFrom : ℕ → Tree → Type 0
AllFrom lo leaf = Unit {0}
AllFrom lo dangling = ⊥
AllFrom lo (node l k v r) = (lo ≤ k) × AllFrom lo l × AllFrom lo r

-- Every key of the tree is below `hi`.
abbrev pub AllBelow : ℕ → Tree → Type 0
AllBelow hi leaf = Unit {0}
AllBelow hi dangling = ⊥
AllBelow hi (node l k v r) = (k < hi) × AllBelow hi l × AllBelow hi r

-- Smaller keys stand on the left, and keys that are not smaller on the right.
abbrev pub IsSearchTree : Tree → Type 0
IsSearchTree leaf = Unit {0}
IsSearchTree dangling = ⊥
IsSearchTree (node l k v r) = AllBelow k l × AllFrom k r × IsSearchTree l × IsSearchTree r

-- The reference: what adding a key makes of the tree.
abbrev pub insert : Tree → ℕ → ℕ → Tree
insert (node l k v r) key val =
    if leb k key then node l k v (insert r key val) else node (insert l key val) k v r
insert _ key val = node leaf key val leaf

abbrev pub lookup : Tree → ℕ → Option ℕ
lookup (node l k v r) key =
    if k == key then some v else if ltb k key then lookup r key else lookup l key
lookup _ key = none

pub add_key-insert :
    (t : Tree) (key val : ℕ) → IsWhole t → add_key t key val ≡ ok (insert t key val)
unfolding add_key add_node
add_key-insert leaf key val w = refl
add_key-insert dangling key val w = absurd w
add_key-insert (node l k v r) key val w = elim (Bool-cases (leb k key)) [
  | inl e ↦ rw (e, add_key-insert r key val w.1) refl
  | inr e ↦ rw (e, add_key-insert l key val w.0) refl
]

pub insert-AllFrom :
    (lo : ℕ) (t : Tree) (key val : ℕ) → lo ≤ key → AllFrom lo t → AllFrom lo (insert t key val)
insert-AllFrom lo leaf key val l a = (l, tt, tt)
insert-AllFrom lo dangling key val l a = absurd a
insert-AllFrom lo (node l' k v r) key val l (b, al, ar) = elim (Bool-cases (leb k key)) [
  | inl e ↦ rw e (b, al, insert-AllFrom lo r key val l ar)
  | inr e ↦ rw e (b, insert-AllFrom lo l' key val l al, ar)
]

pub insert-AllBelow :
    (hi : ℕ) (t : Tree) (key val : ℕ) → key < hi → AllBelow hi t → AllBelow hi (insert t key val)
insert-AllBelow hi leaf key val l a = (l, tt, tt)
insert-AllBelow hi dangling key val l a = absurd a
insert-AllBelow hi (node l' k v r) key val l (b, al, ar) = elim (Bool-cases (leb k key)) [
  | inl e ↦ rw e (b, al, insert-AllBelow hi r key val l ar)
  | inr e ↦ rw e (b, insert-AllBelow hi l' key val l al, ar)
]

pub insert-IsSearchTree :
    (t : Tree) (key val : ℕ) → IsSearchTree t → IsSearchTree (insert t key val)
insert-IsSearchTree leaf key val s = (tt, tt, tt, tt)
insert-IsSearchTree dangling key val s = absurd s
insert-IsSearchTree (node l k v r) key val (a, b, sl, sr) = elim (Bool-cases (leb k key)) [
  | inl e ↦
      rw e (a, insert-AllFrom k r key val (ground arith) b, sl, insert-IsSearchTree r key val sr)
  | inr e ↦
      rw e (insert-AllBelow k l key val (ground arith) a, b, insert-IsSearchTree l key val sl, sr)
]

pub IsSearchTree-IsWhole : (t : Tree) → IsSearchTree t → IsWhole t
IsSearchTree-IsWhole leaf s = tt
IsSearchTree-IsWhole dangling s = s
IsSearchTree-IsWhole (node l k v r) (a, b, sl, sr) =
    (IsSearchTree-IsWhole l sl, IsSearchTree-IsWhole r sr)

abbrev pub or_else : Option ℕ → ℕ → ℕ
or_else none d = d
or_else (some v) d = v

pub lookup-insert :
    (t : Tree) (key val : ℕ)
    → IsWhole t
    → lookup (insert t key val) key ≡ some (or_else (lookup t key) val)
lookup-insert leaf key val w = rw (==_refl key) refl
lookup-insert dangling key val w = absurd w
lookup-insert (node l a v r) key val w = elim (Bool-cases (leb a key)) [
  | inl e ↦ elim (Bool-cases (a == key)) [
    | inl f ↦ rw (e, f) refl
    | inr f ↦
        let more : ltb a key ≡ true = ground arith in
        rw (e, f, more, lookup-insert r key val w.1) refl
  ]
  | inr e ↦
      let (f, less) : ((a == key) ≡ false) × (ltb a key ≡ false) = (ground arith, ground arith) in
      rw (e, f, less, lookup-insert l key val w.0) refl
]

pub lookup-insert_other :
    (t : Tree) (key val k : ℕ) → k ≢ key → IsWhole t → lookup (insert t key val) k ≡ lookup t k
lookup-insert_other leaf key val k n w =
    let other : (key == k) ≡ false = ground arith in
    elim (Bool-cases (ltb key k)) [ inl e ↦ rw (other, e) refl | inr e ↦ rw (other, e) refl ]
lookup-insert_other dangling key val k n w = absurd w
lookup-insert_other (node l a v r) key val k n w = elim (Bool-cases (leb a key)) [
  | inl e ↦ rw (e, lookup-insert_other r key val k n w.1) refl
  | inr e ↦ rw (e, lookup-insert_other l key val k n w.0) refl
]

pub insert-IsWhole : (t : Tree) (key val : ℕ) → IsWhole t → IsWhole (insert t key val)
insert-IsWhole leaf key val w = (tt, tt)
insert-IsWhole dangling key val w = absurd w
insert-IsWhole (node l k v r) key val w = elim (Bool-cases (leb k key)) [
  | inl e ↦ rw e (w.0, insert-IsWhole r key val w.1)
  | inr e ↦ rw e (insert-IsWhole l key val w.0, w.1)
]
