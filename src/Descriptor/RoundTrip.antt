-- ===== src/Descriptor/RoundTrip.antt =====
-- The field parser reads back what the grammar writes.
use jdepends.Common.{
  ℕ, zero, suc, ◌+◌, ◌%◌, ◌^◌, ◌<◌, ◌≡◌, refl, ap, ◌∙◌, Bool, true, false, ◌||◌, some, List, [],
  ◌∷◌, ◌++◌, append_assoc, arith, length, length-append,
}
use jdepends.Common.Run.{ok}
use jdepends.Descriptor.Defs.{
  Stream, Status, FieldInfo, empty_field, at_semicolon, scan_name, c_string, set_base, set_object,
  add_dimension, parse_array, base_case, object_case, parse_field, field_fuel, word_len_ref,
  max_name, is_object_type, is_base_type, base_type_loop,
}
use jdepends.Descriptor.Grammar.{
  Base, byte, FieldType, base, object, array, letter, base_width, print, IsNameBytes, IsValidType,
  dimensions, describe, is_array_type,
}

-- What the parser makes of a field record on the way through a descriptor.
fill : FieldType → FieldInfo → FieldInfo
fill (base b) f = set_base f (letter b) (base_width b)
fill (object name) f = record f {
  is_object = true;
  base_type = b'L';
  object_text = some name;
  object_name_len = length name + 1;
  width_in_words = word_len_ref;
}
fill (array t) f = record (fill t (add_dimension f)) { width_in_words = word_len_ref }

scan_name-print :
    (k b : ℕ) (name rest : List ℕ)
    → IsNameBytes name
    → length name < k
    → scan_name k (b ∷ (name ++ b';' ∷ rest)) ≡ ok (at_semicolon name (b';' ∷ rest))
unfolding scan_name
scan_name-print zero b name rest v h = absurd (omega arith)
scan_name-print (suc k) b [] rest v h = refl
scan_name-print (suc k) b (c ∷ name) rest v h =
    rw (scan_name-print k c name rest v.2 (omega arith)) (ground arith)

c_string_lem : (name : List ℕ) → IsNameBytes name → c_string name ≡ name
unfolding c_string
c_string_lem [] v = refl
c_string_lem (c ∷ name) v = ground (arith, c_string_lem name v.2)

parse_base :
    (k : ℕ) (b : Base) (rest : Stream) (f : FieldInfo)
    → parse_field (suc k) (letter b ∷ rest) f ≡ ok (true, fill (base b) f, rest)
unfolding parse_field fill is_base_type base_type_loop base_case
parse_base k byte rest f = refl
parse_base k _ rest f = refl

is_object_type-print :
    (name rest : List ℕ)
    → IsValidType (object name)
    → is_object_type (b'L' ∷ (name ++ b';' ∷ rest))
      ≡ ok (record { found = true; name = name; name_len = length name + 1 }, rest)
unfolding is_object_type
is_object_type-print name rest v = rw (scan_name-print max_name b'L' name rest v.0 v.1)

parse_object :
    (k : ℕ) (name rest : List ℕ) (f : FieldInfo)
    → IsValidType (object name)
    → parse_field (suc k) (b'L' ∷ (name ++ b';' ∷ rest)) f ≡ ok (true, fill (object name) f, rest)
unfolding parse_field base_case object_case is_base_type base_type_loop fill set_object
parse_object k name rest f v =
    rw (is_object_type-print name rest v, c_string_lem name v.0) (ground arith)

parse_nested :
    (k : ℕ) (t : FieldType) (rest : Stream) (f : FieldInfo)
    → parse_field k (print t ++ rest) (add_dimension f) ≡ ok (true, fill t (add_dimension f), rest)
    → parse_field (suc k) (print (array t) ++ rest) f ≡ ok (true, fill (array t) f, rest)
unfolding parse_field is_base_type base_type_loop base_case object_case is_object_type parse_array
    fill
parse_nested k t rest f e = rw e

parse_fill :
    (k : ℕ) (t : FieldType) (rest : Stream) (f : FieldInfo)
    → IsValidType t
    → dimensions t < k
    → parse_field k (print t ++ rest) f ≡ ok (true, fill t f, rest)
parse_fill zero t rest f v h = absurd (omega arith)
parse_fill (suc k) (base b) rest f v h = parse_base k b rest f
parse_fill (suc k) (object name) rest f v h = rw (append_assoc) (parse_object k name rest f v)
parse_fill (suc k) (array t) rest f v h =
    parse_nested k t rest f (parse_fill k t rest (add_dimension f) v (omega arith))

-- The record after `d` opening brackets.
abbrev nested : Status → Bool → ℕ → FieldInfo
nested st a d = record empty_field { is_array = a; array_dimension = d; status = st }

fill-nested :
    (t : FieldType) (st : Status) (a : Bool) (d : ℕ)
    → d < 2 ^ 16
    → fill t (nested st a d) ≡ record (describe t) {
      is_array = is_array_type t || a;
      array_dimension = (d + dimensions t) % 2 ^ 16;
      status = st;
    }
unfolding fill set_base add_dimension
fill-nested (base b) st a d h = ground arith
fill-nested (object name) st a d h = ground arith
fill-nested (array t) st a d h =
    rw (fill-nested t st true ((d + 1) % 2 ^ 16) (omega arith)) (ground arith)

pub dimensions-le-length : (t : FieldType) → dimensions t < length (print t)
dimensions-le-length (base b) = omega arith
dimensions-le-length (object name) = omega arith
dimensions-le-length (array t) = omega (arith, dimensions-le-length t)

-- The same on any fuel above the number of dimensions.
pub parse_field-print_fuel :
    (k : ℕ) (t : FieldType) (st : Status) (rest : Stream)
    → IsValidType t
    → dimensions t < k
    → parse_field k (print t ++ rest) (record empty_field { status = st })
      ≡ ok (true, record (describe t) { status = st }, rest)
parse_field-print_fuel k t st rest v h =
    rw (parse_fill k t rest (nested st false 0) v h)
      (ap (λ f. ok (true, f, rest)) (fill-nested t st false 0 (omega arith) ∙ ground arith))

-- A descriptor that is written by the grammar, with a class name of at most 509 bytes, none of them
-- NUL or a semicolon, is read back: the call succeeds on the fuel that it is given, consumes the
-- descriptor and no more, and fills the record with the element's kind and letter, the text that
-- JVM_SPRING_CREATE is called with for a class name, the number of dimensions modulo 2^16, and the
-- width in words.
pub parse_field-print :
    (t : FieldType) (st : Status) (rest : Stream)
    → IsValidType t
    → parse_field
        (field_fuel (print t ++ rest))
        (print t ++ rest)
        (record empty_field { status = st })
      ≡ ok (true, record (describe t) { status = st }, rest)
parse_field-print t st rest v =
    parse_field-print_fuel (field_fuel (print t ++ rest)) t st rest v
      (omega (arith, length-append (print t) rest, dimensions-le-length t))
