-- ===== src/HashTable/Examples.antt =====
-- A string table with a comparison like stricmp, and two keys.
use jdepends.Common.{
  ℕ, ◌+◌, ◌<◌, ◌≡◌, ◌≢◌, refl, Bool, true, false, ◌&&◌, leb, if◌then◌else◌, List, [], ◌∷◌, map,
  arith, ==→eq, ==_refl, ◌==◌,
}
use jdepends.HashTable.Defs.{
  Keying, Table, bucket_size, hash, hash_loop, hash_step, string_keying, create, add, get,
}
use jdepends.HashTable.Chain.{IsKeying}
use jdepends.HashTable.Laws.{IsTable, get-add}

abbrev lower : ℕ → ℕ
lower c = if leb 65 c && leb c 90 then c + 32 else c

abbrev equal : List ℕ → List ℕ → Bool
equal [] [] = true
equal (a ∷ s) (b ∷ t) = (a == b) && equal s t
equal _ _ = false

abbrev folded : Keying (List ℕ)
folded = string_keying λ a b. equal (map lower a) (map lower b)

equal_refl : (s : List ℕ) → equal s s ≡ true
equal_refl [] = refl
equal_refl (a ∷ s) = rw (==_refl a, equal_refl s) refl

both : (x y : Bool) → (x && y) ≡ true → (x ≡ true) × (y ≡ true)
both true y e = (refl, e)
both false y e = cc

equal→eq : (s t : List ℕ) → equal s t ≡ true → s ≡ t
equal→eq [] [] e = refl
equal→eq [] (b ∷ t) e = cc
equal→eq (a ∷ s) [] e = cc
equal→eq (a ∷ s) (b ∷ t) e =
    let (f, g) = both (a == b) (equal s t) e in rw (==→eq a b f, equal→eq s t g) refl

folded-IsKeying : IsKeying folded
folded-IsKeying = record {
  reflexive = λ a. equal_refl (map lower a);
  symmetric = λ a b e. rw (equal→eq (map lower a) (map lower b) e) (equal_refl (map lower b));
  transitive = λ a b c e f. rw (equal→eq (map lower a) (map lower b) e) f;
}

hash-lt : (s : List ℕ) → hash s < bucket_size
unfolding hash
hash-lt s = omega arith

create-IsTable : (invalid : ℕ) → IsTable folded (create invalid)
create-IsTable invalid key = hash-lt key

abbrev table : Table (List ℕ)
table = create 0

abbrev upper_key : List ℕ
upper_key = b'A' ∷ []

abbrev lower_key : List ℕ
lower_key = b'a' ∷ []

abbrev other_key : List ℕ
other_key = b'B' ∷ []

get-add_example :
    (get folded (add folded table upper_key 7) upper_key ≡ 7)
    × ((other : List ℕ)
        → folded.same upper_key other ≡ false
        → get folded (add folded table upper_key 7) other ≡ get folded table other)
get-add_example = get-add folded table upper_key 7 folded-IsKeying (create-IsTable 0)

buckets_differ : hash upper_key ≢ hash lower_key
unfolding hash hash_loop hash_step
buckets_differ = omega arith

abbrev dict : Table ℕ
dict = record { buckets = ((3, 9) ∷ []) ∷ []; invalid_ret = 77 }
