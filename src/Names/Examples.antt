-- ===== src/Names/Examples.antt =====
-- A pool with one class and one of its methods.
use jdepends.Common.{ℕ, ◌≡◌, refl, some, List, [], ◌∷◌, arith}
use jdepends.Common.Run.{ok}
use jdepends.ConstPool.Defs.{Entry}
use jdepends.ConstPool.Format.{Bytes2, utf8, class_ref, name_and_type, method_ref, entry_of, dummy}
use jdepends.Names.Defs.{Cache, get_string_name, resolve_method_ref}
use jdepends.Names.Cache.{IsCache, Agrees, name_at, get_string_name-Agrees}
use jdepends.Names.Resolve.{
  c_string_of, HasText, HasMethodRef, load_name-class, resolve_method_ref-names,
}

abbrev index : ℕ → Bytes2
index n = record { hi = 0; lo = n }

abbrev class_name : List ℕ
class_name = b'A' ∷ []

abbrev name : List ℕ
name = b'r' ∷ b'u' ∷ b'n' ∷ []

abbrev desc : List ℕ
desc = b'(' ∷ b')' ∷ b'V' ∷ []

abbrev pool : List Entry
pool =
    dummy
    ∷ entry_of (utf8 class_name)
    ∷ entry_of (class_ref (index 1))
    ∷ entry_of (utf8 name)
    ∷ entry_of (utf8 desc)
    ∷ entry_of (name_and_type (index 3) (index 4))
    ∷ entry_of (method_ref (index 2) (index 5))
    ∷ []

has_class : HasText pool 1 class_name
has_class = record { entry = refl; ascii = ground arith; short = omega arith }

has_method : HasMethodRef pool 6 class_name name desc
has_method = record {
  class_index = index 2;
  class_text = index 1;
  type_index = index 5;
  name_text = index 3;
  desc_text = index 4;
  ref = refl;
  class_entry = refl;
  type_entry = refl;
  has_class = has_class;
  has_name = record { entry = refl; ascii = ground arith; short = omega arith };
  has_desc = record { entry = refl; ascii = ground arith; short = omega arith };
}

-- The class was named before.
abbrev cache : Cache
cache = (2, c_string_of class_name) ∷ []

cache-IsCache : IsCache pool cache
cache-IsCache = (load_name-class pool 2 (index 1) class_name refl has_class, tt)

get_string_name-Agrees_example : Agrees pool (name_at pool 2) (get_string_name pool cache 2)
get_string_name-Agrees_example = get_string_name-Agrees pool cache 2 cache-IsCache

resolve_method_ref-names_example :
    (cache' : Cache) × (resolve_method_ref pool cache 6
      ≡ ok (
        (some (c_string_of class_name), some (c_string_of name), some (c_string_of desc)),
        cache',
      ))
    × IsCache pool cache'
resolve_method_ref-names_example =
    resolve_method_ref-names pool cache 6 class_name name desc cache-IsCache has_method
