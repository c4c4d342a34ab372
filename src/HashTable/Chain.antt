-- ===== src/HashTable/Chain.antt =====
-- Looking up and unlinking in one chain.
use jdepends.Common.{ℕ, ◌≡◌, refl, inl, inr, Bool, true, false, Bool-cases, none, List, [], ◌∷◌}
use jdepends.HashTable.Defs.{Keying, getval, unlink}

-- What the code relies on of its comparison of keys: it is an equivalence. The one of a dictionary
-- is, and stricmp is documented to order strings that are first turned to lower case.
pub record IsKeying {K : Type 0} (by : Keying K) : Type 0 where
  pub reflexive : (a : K) → by.same a a ≡ true
  pub symmetric : (a b : K) → by.same a b ≡ true → by.same b a ≡ true
  pub transitive : (a b c : K) → by.same a b ≡ true → by.same b c ≡ true → by.same a c ≡ true

module _ {K : Type 0} (by : Keying K) (laws : IsKeying by) where
  -- A node with one key does not have another.
  differs :
      (n key other : K) → by.same n key ≡ true → by.same key other ≡ false → by.same n other ≡ false
  differs n key other e f = elim (Bool-cases (by.same n other)) [
    | inl g ↦ absurd (clash (laws.transitive key n other (laws.symmetric n key e) g) f)
    | inr g ↦ g
  ]
    where
      clash : {b : Bool} → b ≡ true → b ≡ false → ⊥
      clash e f = cc

  pub getval-unlink :
      (ns : List (K × ℕ)) (key other : K) (invalid : ℕ)
      → by.same key other ≡ false
      → getval by (unlink by ns key).1 other invalid ≡ getval by ns other invalid
  unfolding getval unlink
  getval-unlink [] key other invalid f = refl
  getval-unlink (n ∷ ns) key other invalid f = elim (Bool-cases (by.same n.0 key)) [
    | inl e ↦ rw (e, differs n.0 key other e f) refl
    | inr e ↦ rw (e, getval-unlink ns key other invalid f) refl
  ]

-- No node of the chain has the key.
abbrev pub HasNoKey : {K : Type 0} → Keying K → List (K × ℕ) → K → Type 0
HasNoKey by [] key = Unit {0}
HasNoKey by (n ∷ ns) key = (by.same n.0 key ≡ false) × HasNoKey by ns key

pub getval-absent :
    {K : Type 0} (by : Keying K) (ns : List (K × ℕ)) (key : K) (invalid : ℕ)
    → HasNoKey by ns key
    → getval by ns key invalid ≡ invalid
unfolding getval
getval-absent by [] key invalid h = refl
getval-absent by (n ∷ ns) key invalid h = rw (h.0, getval-absent by ns key invalid h.1) refl

pub unlink-absent :
    {K : Type 0} (by : Keying K) (ns : List (K × ℕ)) (key : K)
    → HasNoKey by ns key
    → unlink by ns key ≡ (none, ns)
unfolding unlink
unlink-absent by [] key h = refl
unlink-absent by (n ∷ ns) key h = rw (h.0, unlink-absent by ns key h.1) refl
