-- ===== src/Classes/Springs.antt =====
-- When JvmSpringStrCmp of Jvmsprng.c takes two springs for the same, and the first member of a class
-- with a name and a descriptor.
use jdepends.Common.{
  ℕ, true, false, Bool-cases, ◌≡◌, refl, ap, ◌⊎◌, inl, inr, Option, none, some, List, [], ◌∷◌, ◌++◌,
  ◌==◌, ==→eq, ==_refl,
}
use jdepends.Classes.Defs.{Spring, same_start, spring_equal, Member, find_member}

-- One text is a beginning of the other.
abbrev pub SameStart : List ℕ → List ℕ → Type 0
SameStart xs ys = ((more : List ℕ) × (xs ++ more ≡ ys)) ⊎ ((more : List ℕ) × (ys ++ more ≡ xs))

-- The hashes are equal, and one text is a beginning of the other.
abbrev pub SameSpring : Spring → Spring → Type 0
SameSpring a b = (a.hash ≡ b.hash) × SameStart a.text b.text

-- The member has the name and the descriptor.
abbrev pub IsNamed : Spring → Spring → Member → Type 0
IsNamed name desc m = SameSpring m.member_name name × SameSpring m.member_desc desc

-- The first member of a list with a name and a descriptor, or none
pub data FirstNamed (name desc : Spring) : List Member → Option Member → Type 0 where
  nowhere : FirstNamed name desc [] none
  here :
      {m : Member} {ms : List Member} → IsNamed name desc m → FirstNamed name desc (m ∷ ms) (some m)
  later :
      {m : Member} {ms : List Member} {r : Option Member}
      → ¬ IsNamed name desc m
      → FirstNamed name desc ms r
      → FirstNamed name desc (m ∷ ms) r

cons-SameStart : (x : ℕ) (xs ys : List ℕ) → SameStart xs ys → SameStart (x ∷ xs) (x ∷ ys)
cons-SameStart x xs ys (inl (more, e)) = inl (more, ap (◌∷◌ x) e)
cons-SameStart x xs ys (inr (more, e)) = inr (more, ap (◌∷◌ x) e)

same_start-SameStart : (xs ys : List ℕ) → same_start xs ys ≡ true → SameStart xs ys
unfolding same_start
same_start-SameStart [] ys e = inl (ys, refl)
same_start-SameStart (x ∷ xs) [] e = inr (x ∷ xs, refl)
same_start-SameStart (x ∷ xs) (y ∷ ys) e = elim (Bool-cases (x == y)) [
  | inl same ↦
      let eq : x ≡ y = ==→eq x y same in
      rw⁻¹ eq (cons-SameStart x xs ys (same_start-SameStart xs ys (rw same at e)))
  | inr other ↦ let no : false ≡ true = rw other at e in absurd (cc)
]

same_start-longer : (xs more : List ℕ) → same_start xs (xs ++ more) ≡ true
unfolding same_start
same_start-longer [] more = refl
same_start-longer (x ∷ xs) more = rw (==_refl x) (same_start-longer xs more)

same_start-shorter : (ys more : List ℕ) → same_start (ys ++ more) ys ≡ true
unfolding same_start
same_start-shorter [] [] = refl
same_start-shorter [] (x ∷ more) = refl
same_start-shorter (y ∷ ys) more = rw (==_refl y) (same_start-shorter ys more)

SameStart-same_start : (xs ys : List ℕ) → SameStart xs ys → same_start xs ys ≡ true
SameStart-same_start xs ys (inl (more, e)) = rw⁻¹ e (same_start-longer xs more)
SameStart-same_start xs ys (inr (more, e)) = rw⁻¹ e (same_start-shorter ys more)

pub spring_equal-SameSpring : (a b : Spring) → spring_equal a b ≡ true → SameSpring a b
unfolding spring_equal
spring_equal-SameSpring a b e = elim (Bool-cases (a.hash == b.hash)) [
  | inl same ↦ (==→eq a.hash b.hash same, same_start-SameStart a.text b.text (rw same at e))
  | inr other ↦ let no : false ≡ true = rw other at e in absurd (cc)
]

pub SameSpring-spring_equal : (a b : Spring) → SameSpring a b → spring_equal a b ≡ true
unfolding spring_equal
SameSpring-spring_equal a b (same, start) =
    rw (same, ==_refl b.hash) (SameStart-same_start a.text b.text start)

pub differ : (a b : Spring) → spring_equal a b ≡ false → ¬ SameSpring a b
differ a b e same = let equal = SameSpring-spring_equal a b same in absurd (cc)

pub find_member-FirstNamed :
    (name desc : Spring) (ms : List Member) → FirstNamed name desc ms (find_member ms name desc)
unfolding find_member
find_member-FirstNamed name desc [] = nowhere
find_member-FirstNamed name desc (m ∷ ms) = elim (Bool-cases (spring_equal m.member_name name)) [
  | inl n ↦ elim (Bool-cases (spring_equal m.member_desc desc)) [
    | inl d ↦
        rw (n, d)
          (here (
            spring_equal-SameSpring m.member_name name n,
            spring_equal-SameSpring m.member_desc desc d,
          ))
    | inr d ↦
        rw (n, d)
          (later (λ named. differ m.member_desc desc d named.1)
            (find_member-FirstNamed name desc ms))
  ]
  | inr n ↦
      rw n
        (later (λ named. differ m.member_name name n named.0) (find_member-FirstNamed name desc ms))
]
