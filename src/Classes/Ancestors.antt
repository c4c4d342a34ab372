-- ===== src/Classes/Ancestors.antt =====
-- The searches along the ancestors of a class, JvmGetNearestBaseMethod and IsSubclassOf, against the
-- list of the ancestors.
use jdepends.Common.{
  ℕ, zero, suc, ◌<◌, ◌≡◌, refl, true, false, Bool-cases, ◌⊎◌, Option, none, some, Option-cases,
  List, [], ◌∷◌, length, get_elem?, inl, inr, arith,
}
use jdepends.Common.Run.{ok}
use jdepends.Classes.Defs.{
  Spring, spring_equal, Member, JavaClass, Classes, find_member, is_valid_method_of, Method,
  method_case, base_round, nearest_base_method, super_round, class_loop, is_cp_class_type,
  is_subclass_of,
}
use jdepends.Classes.Springs.{
  SameSpring, FirstNamed, spring_equal-SameSpring, differ, find_member-FirstNamed,
}

-- The ancestors of a class, from its super class on, with their places
pub data Ancestors (cs : Classes) : JavaClass → List (ℕ × JavaClass) → Type 0 where
  root : {c : JavaClass} → c.super_object ≡ none → Ancestors cs c []
  rootless : {c : JavaClass} → c.super_object ≡ some none → Ancestors cs c []
  above :
      {c d : JavaClass} {rest : List (ℕ × JavaClass)} (n : ℕ)
      → c.super_object ≡ some (some n)
      → get_elem? cs n ≡ some d
      → Ancestors cs d rest
      → Ancestors cs c ((n, d) ∷ rest)

-- The first class of a list that has a method with the name and the descriptor, and the method
pub data FirstMethod (name desc : Spring) : List (ℕ × JavaClass) → Option Method → Type 0 where
  in_none : FirstMethod name desc [] none
  in_first :
      {n : ℕ} {d : JavaClass} {rest : List (ℕ × JavaClass)} {m : Member}
      → FirstNamed name desc d.methods (some m)
      → FirstMethod name desc ((n, d) ∷ rest) (some (n, m))
  in_later :
      {n : ℕ} {d : JavaClass} {rest : List (ℕ × JavaClass)} {r : Option Method}
      → FirstNamed name desc d.methods none
      → FirstMethod name desc rest r
      → FirstMethod name desc ((n, d) ∷ rest) r

-- The class or one of a list has the name.
pub data AnyNamed (name : Spring) : JavaClass → List (ℕ × JavaClass) → Type 0 where
  itself :
      {c : JavaClass} {rest : List (ℕ × JavaClass)}
      → SameSpring name c.class_name
      → AnyNamed name c rest
  ancestor :
      {c d : JavaClass} {n : ℕ} {rest : List (ℕ × JavaClass)}
      → AnyNamed name d rest
      → AnyNamed name c ((n, d) ∷ rest)

-- For a class whose ancestors are finitely many, JvmGetNearestBaseMethod ends after as many rounds
-- as there are ancestors and one more, and gives the first method with the name and the descriptor
-- of the nearest ancestor that has one, or none where no ancestor has one. A name or descriptor
-- counts as the same where the hashes are equal and one text is a beginning of the other.
pub nearest_base_method-FirstMethod :
    (cs : Classes) (c : JavaClass) (chain : List (ℕ × JavaClass)) (name desc : Spring) (fuel : ℕ)
    → Ancestors cs c chain
    → length chain < fuel
    → (r : Option Method) × (nearest_base_method fuel cs c name desc ≡ ok r)
      × FirstMethod name desc chain r
unfolding nearest_base_method base_round method_case is_valid_method_of
nearest_base_method-FirstMethod cs c chain name desc zero a h = absurd (omega arith)
nearest_base_method-FirstMethod cs c [] name desc (suc k) (root e) h = (none, rw e refl, in_none)
nearest_base_method-FirstMethod cs c [] name desc (suc k) (rootless e) h =
    (none, rw e refl, in_none)
nearest_base_method-FirstMethod cs c _ name desc (suc k) (above {d = d} {rest = rest} n e at a) h =
    let first = find_member-FirstNamed name desc d.methods in
    elim (Option-cases (find_member d.methods name desc)) [
      | inl f ↦
          let (r, found, later) =
            nearest_base_method-FirstMethod cs d rest name desc k a (omega arith) in
          (r, rw (e, at, f) found, in_later (rw f at first) later)
      | inr (m, f) ↦ (some (n, m), rw (e, at, f) refl, in_first (rw f at first))
    ]

only_itself :
    (name : Spring) (c : JavaClass) → ¬ SameSpring name c.class_name → ¬ AnyNamed name c []
only_itself name c other (itself same) = other same

below :
    (name : Spring) (n : ℕ) (c d : JavaClass) (rest : List (ℕ × JavaClass))
    → ¬ SameSpring name c.class_name
    → ¬ AnyNamed name d rest
    → ¬ AnyNamed name c ((n, d) ∷ rest)
below name n c d rest other none_above (itself same) = other same
below name n c d rest other none_above (ancestor named) = none_above named

class_loop-AnyNamed :
    (cs : Classes) (c : JavaClass) (chain : List (ℕ × JavaClass)) (name : Spring) (fuel : ℕ)
    → Ancestors cs c chain
    → length chain < fuel
    → (class_loop fuel cs name c ≡ ok true) × AnyNamed name c chain
      ⊎ (class_loop fuel cs name c ≡ ok false) × ¬ AnyNamed name c chain
unfolding class_loop super_round
class_loop-AnyNamed cs c chain name zero a h = absurd (omega arith)
class_loop-AnyNamed cs c [] name (suc k) (root e) h =
    elim (Bool-cases (spring_equal name c.class_name)) [
      | inl t ↦ inl (rw t refl, itself (spring_equal-SameSpring name c.class_name t))
      | inr t ↦ inr (rw (t, e) refl, only_itself name c (differ name c.class_name t))
    ]
class_loop-AnyNamed cs c [] name (suc k) (rootless e) h =
    elim (Bool-cases (spring_equal name c.class_name)) [
      | inl t ↦ inl (rw t refl, itself (spring_equal-SameSpring name c.class_name t))
      | inr t ↦ inr (rw (t, e) refl, only_itself name c (differ name c.class_name t))
    ]
class_loop-AnyNamed cs c _ name (suc k) (above {d = d} {rest = rest} n e at a) h =
    elim (Bool-cases (spring_equal name c.class_name)) [
      | inl t ↦ inl (rw t refl, itself (spring_equal-SameSpring name c.class_name t))
      | inr t ↦ elim (class_loop-AnyNamed cs d rest name k a (omega arith)) [
        | inl (found, named) ↦ inl (rw (t, e, at) found, ancestor named)
        | inr (missing, others) ↦
            inr (rw (t, e, at) missing, below name n c d rest (differ name c.class_name t) others)
      ]
    ]

-- For a class whose ancestors are finitely many, IsSubclassOf ends after as many rounds as there are
-- ancestors and one more, and holds exactly if the class or one of its ancestors has the name of the
-- other class: the hashes of the two names are equal, and one text is a beginning of the other.
pub is_subclass_of-AnyNamed :
    (cs : Classes) (s t : JavaClass) (chain : List (ℕ × JavaClass)) (fuel : ℕ)
    → Ancestors cs s chain
    → length chain < fuel
    → (is_subclass_of fuel cs s t ≡ ok true) × AnyNamed t.class_name s chain
      ⊎ (is_subclass_of fuel cs s t ≡ ok false) × ¬ AnyNamed t.class_name s chain
unfolding is_subclass_of is_cp_class_type
is_subclass_of-AnyNamed cs s t chain fuel a h = class_loop-AnyNamed cs s chain t.class_name fuel a h
