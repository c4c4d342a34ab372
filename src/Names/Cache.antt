-- ===== src/Names/Cache.antt =====
-- The dictionary of names does not change what is found.
use jdepends.Common.{
  ℕ, ◌≡◌, refl, inl, inr, Bool-cases, Option-cases, Option, none, some, List, [], ◌∷◌, ltb, ◌==◌,
  ==→eq, if◌then◌else◌, length,
}
use jdepends.Common.Run.{Run, ok, fault, out_of_fuel, ◌>>=◌}
use jdepends.ConstPool.Defs.{Entry}
use jdepends.Utf8.Defs.{Decoded}
use jdepends.Names.Defs.{
  Cache, from_dictionary, load_name, remember, get_string_name, get_names, class_indices,
  get_referred_classes,
}

-- Every name in the dictionary is what its index would be decoded to.
abbrev pub IsCache : List Entry → Cache → Type 0
IsCache pool [] = Unit {0}
IsCache pool (n ∷ ns) = (load_name pool n.0 ≡ ok (some n.1)) × IsCache pool ns

-- The reference: the name at an index, with no dictionary.
abbrev pub name_at : List Entry → ℕ → Run (Option Decoded)
name_at pool index = if ltb index (length pool) then load_name pool index else ok none

from_dictionary-IsCache :
    (pool : List Entry) (cache : Cache) (index : ℕ) (name : Decoded)
    → IsCache pool cache
    → from_dictionary cache index ≡ some name
    → load_name pool index ≡ ok (some name)
unfolding from_dictionary
from_dictionary-IsCache pool [] index name c e = cc
from_dictionary-IsCache pool (n ∷ ns) index name c e = elim (Bool-cases (n.0 == index)) [
  | inl f ↦ let same : n.1 ≡ name = cc (rw f at e) in rw (← ==→eq n.0 index f, ← same) c.0
  | inr f ↦ from_dictionary-IsCache pool ns index name c.1 (rw f at e)
]

-- A run that agrees with a run without a dictionary, and leaves a good dictionary.
abbrev pub Agrees : {A : Type 0} → List Entry → Run A → Run (A × Cache) → Type 0
Agrees pool r (ok p) = (r ≡ ok p.0) × IsCache pool p.1
Agrees pool r fault = r ≡ fault
Agrees pool r out_of_fuel = r ≡ out_of_fuel

loaded-Agrees :
    (pool : List Entry) (cache : Cache) (index : ℕ) (r : Run (Option Decoded))
    → IsCache pool cache
    → load_name pool index ≡ r
    → Agrees pool r (r >>= λ name. ok (name, remember cache index name))
loaded-Agrees pool cache index (ok none) c e = (refl, c)
loaded-Agrees pool cache index (ok (some name)) c e = (refl, (e, c))
loaded-Agrees pool cache index fault c e = refl
loaded-Agrees pool cache index out_of_fuel c e = refl

-- Whatever a good dictionary has kept, JvmLdrGetStringName gives what it would give without one,
-- and leaves a good dictionary.
pub get_string_name-Agrees :
    (pool : List Entry) (cache : Cache) (index : ℕ)
    → IsCache pool cache
    → Agrees pool (name_at pool index) (get_string_name pool cache index)
unfolding get_string_name
get_string_name-Agrees pool cache index c = elim (Bool-cases (ltb index (length pool))) [
  | inl e ↦ rw e (elim (Option-cases (from_dictionary cache index)) [
    | inl f ↦ rw f (loaded-Agrees pool cache index (load_name pool index) c refl)
    | inr (name, f) ↦ rw f (from_dictionary-IsCache pool cache index name c f, c)
  ])
  | inr e ↦ rw e (refl, c)
]

-- One call after another
pub >>=-Agrees :
    {A B : Type 0} (pool : List Entry) (r : Run A) (m : Run (A × Cache)) (f : A → Run B)
    (g : A × Cache → Run (B × Cache))
    → Agrees pool r m
    → ((a : A) (cache : Cache) → IsCache pool cache → Agrees pool (f a) (g (a, cache)))
    → Agrees pool (r >>= f) (m >>= g)
>>=-Agrees pool r (ok (a, cache)) f g h k = rw h.0 (k a cache h.1)
>>=-Agrees pool r fault f g h k = rw h refl
>>=-Agrees pool r out_of_fuel f g h k = rw h refl

-- The reference for a list of indices
abbrev pub names_at : List Entry → List ℕ → Run (List (Option Decoded))
names_at pool [] = ok []
names_at pool (i ∷ is) = name_at pool i >>= λ name. names_at pool is >>= λ names. ok (name ∷ names)

get_names-Agrees :
    (pool : List Entry) (cache : Cache) (is : List ℕ)
    → IsCache pool cache
    → Agrees pool (names_at pool is) (get_names pool cache is)
unfolding get_names
get_names-Agrees pool cache [] c = (refl, c)
get_names-Agrees pool cache (i ∷ is) c =
    >>=-Agrees pool (name_at pool i) (get_string_name pool cache i) _ _
      (get_string_name-Agrees pool cache i c)
      λ name cache_1 c_1.
        >>=-Agrees pool (names_at pool is) (get_names pool cache_1 is) _ _
          (get_names-Agrees pool cache_1 is c_1) λ names cache_2 c_2. (refl, c_2)

-- Whatever a good dictionary has kept, JvmDGetReferredClasses lists, in the order of the pool, the
-- names that the entries with the tag of a class would be given without one, and leaves a good
-- dictionary.
get_referred_classes-Agrees :
    (pool : List Entry) (cache : Cache)
    → IsCache pool cache
    → Agrees pool (names_at pool (class_indices pool 0)) (get_referred_classes pool cache)
unfolding get_referred_classes
get_referred_classes-Agrees pool cache c = get_names-Agrees pool cache (class_indices pool 0) c
