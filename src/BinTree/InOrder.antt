-- ===== src/BinTree/InOrder.antt =====
-- The traversal in order lists the keys sorted.
use jdepends.Common.{
  ℕ, ◌≤◌, ◌<◌, ◌≡◌, refl, ap, inl, inr, true, false, Bool-cases, List, [], ◌∷◌, ◌++◌, arith, leb,
  if◌then◌else◌, append_assoc,
}
use jdepends.Common.Run.{ok}
use jdepends.BinTree.Defs.{Tree, leaf, dangling, node, add_key, traverse_in_order}
use jdepends.BinTree.Reference.{
  IsWhole, IsSearchTree, AllBelow, insert, add_key-insert, insert-IsWhole, insert-IsSearchTree,
  IsSearchTree-IsWhole,
}

abbrev pub in_order : Tree → List ℕ
in_order (node l k v r) = in_order l ++ k ∷ in_order r
in_order _ = []

pub traverse-in_order : (t : Tree) → IsWhole t → traverse_in_order t ≡ ok (in_order t)
unfolding traverse_in_order
traverse-in_order leaf w = refl
traverse-in_order dangling w = absurd w
traverse-in_order (node l k v r) w = rw (traverse-in_order l w.0, traverse-in_order r w.1) refl

-- A key is put behind the keys that are not greater, in front of the first that is.
abbrev pub insert_key : ℕ → List ℕ → List ℕ
insert_key key [] = key ∷ []
insert_key key (x ∷ xs) = if leb x key then x ∷ insert_key key xs else key ∷ x ∷ xs

insert_key-behind :
    (t : Tree) (hi key : ℕ) (ys : List ℕ)
    → AllBelow hi t
    → hi ≤ key
    → insert_key key (in_order t ++ ys) ≡ in_order t ++ insert_key key ys
insert_key-behind leaf hi key ys a h = refl
insert_key-behind dangling hi key ys a h = absurd a
insert_key-behind (node l k v r) hi key ys (b, al, ar) h =
    let here : leb k key ≡ true = ground arith in
    rw
      (
        append_assoc,
        insert_key-behind l hi key (k ∷ (in_order r ++ ys)) al h,
        here,
        insert_key-behind r hi key ys ar h,
        append_assoc,
      )
      refl

insert_key-before :
    (xs ys : List ℕ) (key k : ℕ)
    → key < k
    → insert_key key (xs ++ k ∷ ys) ≡ insert_key key xs ++ k ∷ ys
insert_key-before [] ys key k h = let here : leb k key ≡ false = ground arith in rw here refl
insert_key-before (x ∷ xs) ys key k h = elim (Bool-cases (leb x key)) [
  | inl e ↦ rw (e, insert_key-before xs ys key k h) refl
  | inr e ↦ rw e refl
]

in_order-insert :
    (t : Tree) (key val : ℕ)
    → IsSearchTree t
    → in_order (insert t key val) ≡ insert_key key (in_order t)
in_order-insert leaf key val s = refl
in_order-insert dangling key val s = absurd s
in_order-insert (node l k v r) key val (a, b, sl, sr) = elim (Bool-cases (leb k key)) [
  | inl e ↦
      rw
        (
          e,
          in_order-insert r key val sr,
          insert_key-behind l k key (k ∷ in_order r) a (ground arith),
          e,
        )
        refl
  | inr e ↦
      rw
        (
          e,
          in_order-insert l key val sl,
          insert_key-before (in_order l) (in_order r) key k (ground arith),
        )
        refl
]

-- Adding a key to a search tree succeeds and gives a search tree; its traversal in order succeeds,
-- and lists the keys of the old one with the new key put in behind those that are not greater.
pub add_key-traverse_in_order :
    (t : Tree) (key val : ℕ)
    → IsSearchTree t
    → (t' : Tree) × (xs : List ℕ) × (add_key t key val ≡ ok t')
      × IsSearchTree t'
      × (traverse_in_order t ≡ ok xs)
      × (traverse_in_order t' ≡ ok (insert_key key xs))
add_key-traverse_in_order t key val s =
    let w = IsSearchTree-IsWhole t s in
    (
      insert t key val,
      in_order t,
      add_key-insert t key val w,
      insert-IsSearchTree t key val s,
      traverse-in_order t w,
      rw (traverse-in_order (insert t key val) (insert-IsWhole t key val w))
          (ap ok (in_order-insert t key val s)),
    )
