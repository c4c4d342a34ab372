-- ===== src/Descriptor/Method.antt =====
-- Method descriptors are read back, parameters, return type and width.
use jdepends.Common.{
  ℕ, zero, suc, ◌+◌, ◌-◌, ◌≤◌, ◌<◌, ◌≡◌, ◌≢◌, refl, ◌∙◌, Bool, true, false, none, some, Option,
  List, [], ◌∷◌, ◌++◌, map, append_assoc, append-nil, arith, ◌==◌, length, length-append,
}
use native.Mathlib.Nat.{zero-add}
use jdepends.Common.Run.{ok, ◌>>=◌}
use jdepends.Descriptor.Defs.{
  Stream, unset, status_ok, FieldInfo, MethodInfo, empty_field, field_fuel, parse_parameters,
  parse_return, params_width, parameters_case, close_parameters, return_case, parse_method, peek,
}
use jdepends.Descriptor.Grammar.{
  byte, FieldType, base, object, array, letter, print, IsValidType, describe, width,
}
use jdepends.Descriptor.RoundTrip.{parse_field-print}

-- A cleared record, as JvmLdrReadMethods allocates it.
abbrev pub new_method : MethodInfo
new_method = record {
  parameter_fields = [];
  return_field = record empty_field { status = unset };
  returns = false;
  parameter_count = 0;
  params_width_in_words = 0;
  method_status = unset;
}

abbrev pub print_all : List FieldType → List ℕ
print_all [] = []
print_all (t ∷ ts) = print t ++ print_all ts

abbrev pub AreValid : List FieldType → Type 0
AreValid [] = Unit {0}
AreValid (t ∷ ts) = IsValidType t × AreValid ts

abbrev pub total_width : List FieldType → ℕ
total_width [] = 0
total_width (t ∷ ts) = width t + total_width ts

-- `none` is `void`.
abbrev pub print_return : Option FieldType → List ℕ
print_return none = b'V' ∷ []
print_return (some t) = print t

abbrev pub IsValidReturn : Option FieldType → Type 0
IsValidReturn none = Unit {0}
IsValidReturn (some t) = IsValidType t

abbrev pub print_method : List FieldType → Option FieldType → List ℕ
print_method ts r = b'(' ∷ (print_all ts ++ b')' ∷ print_return r)

-- The letter of `void` is looked at and not consumed.
abbrev pub left_over : Option FieldType → Stream → Stream
left_over none rest = b'V' ∷ rest
left_over (some t) rest = rest

abbrev pub return_info : Option FieldType → FieldInfo
return_info none = record empty_field { status = unset }
return_info (some t) = record (describe t) { status = unset }

abbrev pub is_value : Option FieldType → Bool
is_value none = false
is_value (some t) = true

abbrev pub describe_method : List FieldType → Option FieldType → MethodInfo
describe_method ts r = record {
  parameter_fields = map describe ts;
  return_field = return_info r;
  returns = is_value r;
  parameter_count = length ts;
  params_width_in_words = total_width ts;
  method_status = status_ok;
}

-- No type begins with a bracket, and none with the letter of `void`.
first_byte :
    (t : FieldType) (s : Stream) → (c : ℕ) × (peek (print t ++ s) ≡ ok c) × (c ≢ b')') × (c ≢ b'V')
first_byte (base byte) s = (b'B', refl, omega arith, omega arith)
first_byte (base b) s = (letter b, refl, omega arith, omega arith)
first_byte (object name) s = (b'L', refl, omega arith, omega arith)
first_byte (array t) s = (b'[', refl, omega arith, omega arith)

parse_parameters-step :
    (k : ℕ) (t : FieldType) (s : Stream) (fs : List FieldInfo) (n : ℕ)
    → IsValidType t
    → parse_parameters (suc k) (print t ++ s) fs n
      ≡ parse_parameters k s (fs ++ describe t ∷ []) (n + 1)
unfolding parse_parameters
parse_parameters-step k t s fs n v =
    let (c, e, p, q) = first_byte t s in
    let closing : (c == b')') ≡ false = ground arith in
    rw (e, closing, parse_field-print t status_ok s v)

-- The parameters in front of `s` are read before anything else is.
pub parse_parameters-print :
    (k : ℕ) (ts : List FieldType) (s : Stream) (fs : List FieldInfo) (n : ℕ)
    → AreValid ts
    → length ts ≤ k
    → parse_parameters k (print_all ts ++ s) fs n
      ≡ parse_parameters (k - length ts) s (fs ++ map describe ts) (n + length ts)
parse_parameters-print k [] s fs n v h = rw (append-nil, sub_none, add_none)
  where
    sub_none : k - 0 ≡ k
    sub_none = omega arith

    add_none : n + 0 ≡ n
    add_none = omega arith
parse_parameters-print zero (t ∷ ts) s fs n v h = absurd (omega arith)
parse_parameters-print (suc k) (t ∷ ts) s fs n v h = rw append_assoc (
    parse_parameters-step k t (print_all ts ++ s) fs n v.0
    ∙ parse_parameters-print k ts s (fs ++ describe t ∷ []) (n + 1) v.1 (omega arith)
    ∙ rw (append_assoc, sub_suc, add_suc))
  where
    sub_suc : k - length ts ≡ suc k - suc (length ts)
    sub_suc = omega arith

    add_suc : n + 1 + length ts ≡ n + suc (length ts)
    add_suc = omega arith

parse_parameters-end :
    (k : ℕ) (s : Stream) (fs : List FieldInfo) (n : ℕ)
    → 0 < k
    → parse_parameters k (b')' ∷ s) fs n ≡ ok (status_ok, fs, n, b')' ∷ s)
unfolding parse_parameters
parse_parameters-end zero s fs n h = absurd (omega arith)
parse_parameters-end (suc k) s fs n h = refl

-- The width loop, seen from the first parameter.
params_width-cons :
    (n : ℕ) (f : FieldInfo) (fs : List FieldInfo)
    → params_width (suc n) (f ∷ fs) ≡ (params_width n fs >>= λ w. ok (f.width_in_words + w))
unfolding params_width
params_width-cons zero f fs = refl
params_width-cons (suc n) f fs = ground (arith, params_width-cons n f fs)

params_width-describe :
    (ts : List FieldType) → params_width (length ts) (map describe ts) ≡ ok (total_width ts)
params_width-describe [] = unfold params_width in refl
params_width-describe (t ∷ ts) =
    params_width-cons (length ts) (describe t) (map describe ts) ∙ rw (params_width-describe ts)

pub length-print_all : (ts : List FieldType) → AreValid ts → length ts ≤ length (print_all ts)
length-print_all [] v = omega arith
length-print_all (t ∷ ts) v =
    omega (arith, length-print_all ts v.1, length-append (print t) (print_all ts), length-print t)
  where
    length-print : (t : FieldType) → 0 < length (print t)
    length-print (base b) = omega arith
    length-print (object name) = omega arith
    length-print (array t) = omega arith

parse_return-print :
    (r : Option FieldType) (rest : Stream)
    → IsValidReturn r
    → parse_return (print_return r ++ rest) (record empty_field { status = unset })
      ≡ ok (status_ok, is_value r, return_info r, left_over r rest)
unfolding parse_return
parse_return-print none rest v = refl
parse_return-print (some t) rest v =
    let (c, e, p, q) = first_byte t rest in
    let not_void : (c == b'V') ≡ false = ground arith in
    rw (e, not_void, parse_field-print t unset rest v)

-- The fuel that is given covers the parameters.
parse_parameters-all :
    (ts : List FieldType) (s : Stream)
    → AreValid ts
    → parse_parameters (field_fuel (print_all ts ++ b')' ∷ s)) (print_all ts ++ b')' ∷ s) [] 0
      ≡ ok (status_ok, map describe ts, length ts, b')' ∷ s)
parse_parameters-all ts s v =
    let r : Stream = b')' ∷ s in
    let enough : length ts < field_fuel (print_all ts ++ r) =
      omega (arith, length-append (print_all ts) r, length-print_all ts v) in
    parse_parameters-print (field_fuel (print_all ts ++ r)) ts r [] 0 v (omega arith)
    ∙ parse_parameters-end _ s (map describe ts) (0 + length ts) (omega arith)
    ∙ rw zero-add

-- A method descriptor that is written by the grammar, with class names of at most 509 bytes, none of
-- them NUL or a semicolon, is accepted: each parameter is recorded in order with its count, the return
-- type is recorded, and the width is the sum of the parameters' widths. Of a class name the text is
-- recorded that JVM_SPRING_CREATE is called with. The stream is left behind the return type, but in
-- front of the letter of `void`.
pub parse_method-print :
    (ts : List FieldType) (r : Option FieldType) (rest : Stream)
    → AreValid ts
    → IsValidReturn r
    → parse_method (print_method ts r ++ rest) new_method
      ≡ ok (true, describe_method ts r, left_over r rest)
unfolding parse_method parameters_case close_parameters return_case
parse_method-print ts r rest v w = rw (
  append_assoc,
  parse_parameters-all ts (print_return r ++ rest) v,
  parse_return-print r rest w,
  params_width-describe ts,
)
