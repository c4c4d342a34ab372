-- ===== src/Descriptor/Faults.antt =====
-- Malformed descriptors: what is reported, and where the code reads outside its buffers.
use jdepends.Common.{
  ℕ, zero, suc, ◌+◌, ◌<◌, ◌≡◌, ◌≢◌, refl, Bool, true, false, inl, inr, Bool-cases, none, List, [],
  ◌∷◌, ◌++◌, map, arith, ◌==◌, length, length-append, get_elem?, append_assoc, ◌∙◌, ap,
}
use native.Mathlib.Nat.{zero-add}
use native.Mathlib.Numerals.{add-one}
use jdepends.Common.Run.{Run, ok, fault}
use jdepends.Descriptor.Defs.{
  Stream, status_ok, error_in_parameter, incorrect_field_descriptor, FieldInfo, MethodInfo,
  empty_field, scan_name, too_long, is_object_type, is_array_type, is_base_type, base_type_loop,
  base_types, parse_array, base_case, object_case, parse_field, field_fuel, max_name,
  parse_parameters, parameters_case, parse_method, cleanup_loop, cleanup_fields,
}
use jdepends.Descriptor.Grammar.{FieldType, array, print, IsValidType, describe, dimensions}
use jdepends.Descriptor.RoundTrip.{parse_field-print_fuel, dimensions-le-length}
use jdepends.Descriptor.Method.{
  new_method, print_all, AreValid, length-print_all, parse_parameters-print,
}

-- No type begins with this byte, nor do the parameters end at it.
pub record StartsNoType (c : ℕ) : Type 0 where
  pub not_base : base_type_loop (length base_types) c ≡ none
  pub not_object : c ≢ b'L'
  pub not_array : c ≢ b'['
  pub not_closing : c ≢ b')'

is_base_type-none : (c : ℕ) (s : Stream) → StartsNoType c → is_base_type (c ∷ s) ≡ ok (none, c ∷ s)
unfolding is_base_type
is_base_type-none c s bad = rw (bad.not_base, is_base_type)

parse_field-bad :
    (k c : ℕ) (s : Stream)
    → StartsNoType c
    → 0 < k
    → (g : FieldInfo) × (parse_field k (c ∷ s) empty_field ≡ ok (false, g, c ∷ s))
unfolding parse_field base_case object_case is_object_type parse_array is_array_type
parse_field-bad zero c s bad h = absurd (omega arith)
parse_field-bad (suc k) c s bad h = elim (Bool-cases (c == 0)) [
  | inl e ↦ (empty_field, rw e)
  | inr e ↦
      let l : (c == b'L') ≡ false = ground (arith, bad.not_object) in
      let a : (c == b'[') ≡ false = ground (arith, bad.not_array) in
      (
        record empty_field { status = incorrect_field_descriptor },
        rw (e, is_base_type-none c s bad, l, a),
      )
]

parse_parameters-bad :
    (k c : ℕ) (s : Stream) (fs : List FieldInfo) (n : ℕ)
    → StartsNoType c
    → 0 < k
    → parse_parameters k (c ∷ s) fs n ≡ ok (error_in_parameter, fs, n + 1, c ∷ s)
unfolding parse_parameters
parse_parameters-bad zero c s fs n bad h = absurd (omega arith)
parse_parameters-bad (suc k) c s fs n bad h =
    let (g, e) = parse_field-bad (field_fuel (c ∷ s)) c s bad (omega arith) in
    let open_end : (c == b')') ≡ false = ground (arith, bad.not_closing) in rw (open_end, e)

parse_parameters-print_bad :
    (ts : List FieldType) (c : ℕ) (s : Stream)
    → AreValid ts
    → StartsNoType c
    → parse_parameters (field_fuel (print_all ts ++ c ∷ s)) (print_all ts ++ c ∷ s) [] 0
      ≡ ok (error_in_parameter, map describe ts, length ts + 1, c ∷ s)
parse_parameters-print_bad ts c s v bad =
    let r : Stream = c ∷ s in
    let enough : length ts < field_fuel (print_all ts ++ r) =
      omega (arith, length-append (print_all ts) r, length-print_all ts v) in
    parse_parameters-print (field_fuel (print_all ts ++ r)) ts r [] 0 v (omega arith)
    ∙ parse_parameters-bad _ c s (map describe ts) (0 + length ts) bad (omega arith)
    ∙ rw zero-add

get_elem?-length : {A : Type 0} (xs : List A) → get_elem? xs (length xs) ≡ none
get_elem?-length [] = refl
get_elem?-length (x ∷ xs) = get_elem?-length xs

length-map : {A B : Type 0} (f : A → B) (xs : List A) → length (map f xs) ≡ length xs
length-map f [] = refl
length-map f (x ∷ xs) = ap suc (length-map f xs)

cleanup_loop-overrun : (fs : List FieldInfo) → cleanup_loop (suc (length fs)) fs ≡ fault
unfolding cleanup_loop
cleanup_loop-overrun fs = rw (get_elem?-length fs, cleanup_loop)

-- The clean-up is told of one parameter more than there are.
cleanup_fields-overrun :
    (f : FieldInfo) (fs : List FieldInfo) → cleanup_fields (f ∷ fs) (length (f ∷ fs) + 1) ≡ fault
unfolding cleanup_fields
cleanup_fields-overrun f fs = rw (add-one, cleanup_loop-overrun (f ∷ fs))

-- The outcome of a bad byte behind these parameters.
abbrev pub bad_parameter : List FieldType → Stream → Run (Bool × MethodInfo × Stream)
bad_parameter [] s =
    ok (false, record new_method { parameter_count = 1; method_status = error_in_parameter }, s)
bad_parameter (t ∷ ts) s = fault

-- A method descriptor that has, behind one well-formed parameter or more, a byte with which no type
-- begins makes the clean-up read behind the vector of parameters. Without such a parameter the
-- vector is null, and the error is reported with a count of one.
pub parse_method-bad :
    (ts : List FieldType) (c : ℕ) (s : Stream)
    → AreValid ts
    → StartsNoType c
    → parse_method (b'(' ∷ (print_all ts ++ c ∷ s)) new_method ≡ bad_parameter ts (c ∷ s)
unfolding parse_method parameters_case
parse_method-bad [] c s v bad =
    rw (parse_parameters-print_bad [] c s v bad) (unfold cleanup_fields in refl)
parse_method-bad (t ∷ ts) c s v bad = rw (
  parse_parameters-print_bad (t ∷ ts) c s v bad,
  ← length-map describe ts,
  cleanup_fields-overrun (describe t) (map describe ts),
)

abbrev pub HasNo : ℕ → List ℕ → Type 0
HasNo c [] = Unit {0}
HasNo c (d ∷ s) = (d ≢ c) × HasNo c s

abbrev last_from : ℕ → List ℕ → ℕ
last_from b [] = b
last_from b (c ∷ s) = last_from c s

scan_name-overrun :
    (k b : ℕ) (s : Stream) → HasNo b';' s → length s < k → scan_name k (b ∷ s) ≡ fault
unfolding scan_name
scan_name-overrun zero b s h l = absurd (omega arith)
scan_name-overrun (suc k) b [] h l = refl
scan_name-overrun (suc k) b (c ∷ s) h l =
    rw (scan_name-overrun k c s h.1 (omega arith)) (ground (arith, h.0))

-- A class name without its semicolon is scanned past the end of the descriptor's buffer, the NUL
-- included, where the buffer is shorter than the longest name.
unterminated_name :
    (s : Stream) (f : FieldInfo)
    → HasNo b';' s
    → length s < max_name
    → parse_field (field_fuel (b'L' ∷ s)) (b'L' ∷ s) f ≡ fault
unfolding parse_field base_case is_object_type is_base_type base_type_loop
unterminated_name s f h l = rw add-one (rw (scan_name-overrun max_name b'L' s h l))

scan_name-too_long :
    (name : List ℕ) (b : ℕ) (s : Stream)
    → HasNo b';' name
    → scan_name (length name) (b ∷ (name ++ s)) ≡ ok (too_long (last_from b name ∷ s))
unfolding scan_name
scan_name-too_long [] b s h = refl
scan_name-too_long (c ∷ name) b s h = rw (scan_name-too_long name c s h.1) (ground (arith, h.0))

last_from-append : (b c : ℕ) (name : List ℕ) → last_from b (name ++ c ∷ []) ≡ c
last_from-append b c [] = refl
last_from-append b c (d ∷ name) = last_from-append d c name

HasNo-append : (c d : ℕ) (name : List ℕ) → HasNo c name → d ≢ c → HasNo c (name ++ d ∷ [])
HasNo-append c d [] h e = (e, tt)
HasNo-append c d (b ∷ name) h e = (h.0, HasNo-append c d name h.1 e)

is_object_type-too_long :
    (name : List ℕ) (c : ℕ) (s : Stream)
    → HasNo b';' name
    → c ≢ b';'
    → length name + 1 ≡ max_name
    → is_object_type (b'L' ∷ (name ++ c ∷ s))
      ≡ ok (record { found = false; name = []; name_len = max_name + 1 }, c ∷ s)
unfolding is_object_type
is_object_type-too_long name c s h e l =
    let whole = name ++ c ∷ [] in
    let full : length whole ≡ max_name = omega (arith, length-append name (c ∷ [])) in
    rw (
      ← append_assoc name (c ∷ []) s,
      ← full,
      scan_name-too_long whole b'L' s (HasNo-append b';' c name h e),
      last_from-append b'L' c name,
    )

skip_name :
    (k : ℕ) (name : List ℕ) (s : Stream) (f : FieldInfo)
    → HasNo b';' name
    → length name + 1 ≡ max_name
    → parse_field (suc k) (b'L' ∷ (name ++ b'[' ∷ s)) f ≡ parse_field (suc k) (b'[' ∷ s) f
unfolding parse_field base_case object_case is_base_type base_type_loop
skip_name k name s f h l =
    rw (is_object_type-too_long name b'[' s h (omega arith) l) (unfold is_object_type in refl)

-- The bytes of a name that is too long are skipped: where the scan gives up at an opening bracket,
-- the parser goes on as if the descriptor were that of an array, and succeeds.
long_name_is_skipped :
    (name : List ℕ) (t : FieldType) (rest : Stream)
    → HasNo b';' name
    → length name + 1 ≡ max_name
    → IsValidType t
    → let s = b'L' ∷ (name ++ b'[' ∷ (print t ++ rest)) in
      parse_field (field_fuel s) s empty_field ≡ ok (true, describe (array t), rest)
long_name_is_skipped name t rest h l v =
    let s = b'L' ∷ (name ++ b'[' ∷ (print t ++ rest)) in
    let deep : dimensions t < length s = omega (
      arith,
      length-append name (b'[' ∷ (print t ++ rest)),
      length-append (print t) rest,
      dimensions-le-length t,
    ) in
    rw add-one (
      skip_name (length s) name (print t ++ rest) empty_field h l
      ∙ parse_field-print_fuel (suc (length s)) (array t) status_ok rest v (omega arith))
