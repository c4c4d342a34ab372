-- ===== src/Descriptor/Termination.antt =====
-- The recursive descent ends: the fuel that each call is given is never used up.
use jdepends.Common.{
  ℕ, zero, suc, ◌+◌, ◌≤◌, ◌<◌, ◌≡◌, ◌≢◌, refl, Bool, true, false, inl, inr, Bool-cases,
  Option-cases, none, some, List, [], ◌∷◌, ◌++◌, arith, ◌==◌, length, get_elem?, Option,
  length-append, ◌⊎◌, if◌then◌else◌, ltb,
}
use jdepends.Common.Run.{Run, ok, fault, out_of_fuel, ◌>>=◌, Ends, >>=-Ends}
use jdepends.Descriptor.Defs.{
  Stream, Status, status_ok, error_in_parameter, incorrect_method_descriptor, FieldInfo, MethodInfo,
  empty_field, Scan, at_semicolon, too_long, scan_name, scan_cons, ObjectType, is_object_type,
  is_array_type, is_base_type, base_type_loop, base_types, Parsed, add_dimension, parse_array,
  base_case, object_case, parse_field, field_fuel, Parameters, object_result, max_name,
  parse_parameters, parse_return, params_width, parameters_case, close_parameters, return_case,
  parse_method, cleanup_loop, cleanup_fields, peek,
}

-- The call does not run out of fuel, and what it leaves is no longer than `n`; less, if it succeeds.
abbrev Within : ℕ → Run Parsed → Type 0
Within n (ok p) = (length p.2 ≤ n) × (p.0 ≡ true → length p.2 < n)
Within n fault = Unit {0}
Within n out_of_fuel = ⊥

abbrev ScanWithin : ℕ → Run Scan → Type 0
ScanWithin n (ok (at_semicolon name s)) = length s ≤ n
ScanWithin n (ok (too_long s)) = length s ≤ n
ScanWithin n fault = Unit {0}
ScanWithin n out_of_fuel = ⊥

ScanWithin-cons : (n c : ℕ) (r : Run Scan) → ScanWithin n r → ScanWithin (suc n) (r >>= scan_cons c)
ScanWithin-cons n c (ok (at_semicolon name s)) h = omega arith
ScanWithin-cons n c (ok (too_long s)) h = omega arith
ScanWithin-cons n c fault h = tt
ScanWithin-cons n c out_of_fuel h = h

scan_name-Within : (k : ℕ) (s : Stream) → ScanWithin (length s) (scan_name k s)
unfolding scan_name
scan_name-Within zero s = omega arith
scan_name-Within (suc k) [] = tt
scan_name-Within (suc k) (b ∷ []) = tt
scan_name-Within (suc k) (b ∷ c ∷ s) = elim (Bool-cases (c == b';')) [
  | inl e ↦ rw e (omega arith)
  | inr e ↦ rw e (ScanWithin-cons (length (c ∷ s)) c _ (scan_name-Within k (c ∷ s)))
]

abbrev ObjectWithin : ℕ → Run (ObjectType × Stream) → Type 0
ObjectWithin n (ok p) = (length p.1 ≤ n) × (p.0.found ≡ true → length p.1 < n)
ObjectWithin n fault = Unit {0}
ObjectWithin n out_of_fuel = ⊥

object_result-Within :
    (n : ℕ) (r : Run Scan)
    → ScanWithin (suc n) r
    → ObjectWithin (suc n) (r >>= λ x. ok (object_result x))
object_result-Within n (ok (at_semicolon name [])) h = (omega arith, λ e. omega arith)
object_result-Within n (ok (at_semicolon name (c ∷ s))) h = (omega arith, λ e. omega arith)
object_result-Within n (ok (too_long s)) h = (omega arith, λ e. cc)
object_result-Within n fault h = tt
object_result-Within n out_of_fuel h = h

is_object_type-Within : (s : Stream) → ObjectWithin (length s) (is_object_type s)
unfolding is_object_type
is_object_type-Within [] = tt
is_object_type-Within (c ∷ s) = elim (Bool-cases (c == b'L')) [
  | inl e ↦ rw e (object_result-Within (length s) _ (scan_name-Within max_name (c ∷ s)))
  | inr e ↦ rw e (omega arith, λ e. cc)
]

nested-Within :
    (n : ℕ) (r : Run Parsed)
    → Within n r
    → Within (suc n) (
        r >>= λ p.
        ok (if p.0 then (true, record p.1 { width_in_words = 1 }, p.2) else (false, p.1, p.2)))
nested-Within n (ok (true, f, s)) h = (omega arith, λ e. omega (arith, h.1 refl))
nested-Within n (ok (false, f, s)) h = (omega arith, λ e. cc)
nested-Within n fault h = tt
nested-Within n out_of_fuel h = h

is_base_type-cases :
    (c : ℕ) (s : Stream)
    → ((hit : ℕ × ℕ) × (is_base_type (c ∷ s) ≡ ok (some hit, s)))
      ⊎ (is_base_type (c ∷ s) ≡ ok (none, c ∷ s))
unfolding is_base_type
is_base_type-cases c s = elim (Option-cases (base_type_loop (length base_types) c)) [
  | inl e ↦ inr (rw (e, is_base_type))
  | inr (hit, e) ↦ inl (hit, rw (e, is_base_type))
]

module _ (again : Stream → FieldInfo → Run Parsed) (k : ℕ)
    (ih : (s : Stream) (f : FieldInfo) → length s < k → Within (length s) (again s f)) where
  parse_array-Within :
      (s : Stream) (f : FieldInfo) → length s < suc k → Within (length s) (parse_array again s f)
  unfolding parse_array is_array_type
  parse_array-Within [] f h = tt
  parse_array-Within (c ∷ s) f h = elim (Bool-cases (c == b'[')) [
    | inl e ↦ rw e (nested-Within (length s) _ (ih s (add_dimension f) (omega arith)))
    | inr e ↦ rw e (omega arith, λ e. cc)
  ]

  weaken : (n m : ℕ) (r : Run Parsed) → n ≤ m → Within n r → Within m r
  weaken n m (ok p) l h = (omega (arith, h.0), λ e. omega (arith, h.1 e))
  weaken n m fault l h = tt
  weaken n m out_of_fuel l h = h

  object_case-Within :
      (n : ℕ) (f : FieldInfo) (r : Run (ObjectType × Stream))
      → n < suc k
      → ObjectWithin n r
      → Within n (r >>= object_case again f)
  unfolding object_case
  object_case-Within n f (ok (o, s)) l h = elim (Bool-cases o.found) [
    | inl e ↦ rw e (elim (Bool-cases (ltb max_name o.name_len)) [
      | inl t ↦ rw t (h.0, λ e. cc)
      | inr t ↦ rw t (h.0, λ _. h.1 e)
    ])
    | inr e ↦ rw e (weaken (length s) n _ h.0 (parse_array-Within s f (omega (arith, h.0))))
  ]
  object_case-Within n f fault l h = tt
  object_case-Within n f out_of_fuel l h = h

  base_case-Within :
      (c : ℕ) (s : Stream) (f : FieldInfo)
      → length (c ∷ s) < suc k
      → Within (length (c ∷ s)) (is_base_type (c ∷ s) >>= base_case again f)
  unfolding base_case
  base_case-Within c s f h = elim (is_base_type-cases c s) [
    | inl (hit, e) ↦ rw e (omega arith, λ e. omega arith)
    | inr e ↦ rw e (object_case-Within (length (c ∷ s)) f _ h (is_object_type-Within (c ∷ s)))
  ]

parse_field-Within :
    (k : ℕ) (s : Stream) (f : FieldInfo) → length s < k → Within (length s) (parse_field k s f)
unfolding parse_field
parse_field-Within zero s f h = absurd (omega arith)
parse_field-Within (suc k) [] f h = tt
parse_field-Within (suc k) (c ∷ s) f h = elim (Bool-cases (c == 0)) [
  | inl e ↦ rw e (omega arith, λ e. cc)
  | inr e ↦ rw e (base_case-Within (parse_field k) k (parse_field-Within k) c s f h)
]

abbrev ParametersEnd : Run Parameters → Type 0
ParametersEnd (ok p) = (p.0 ≡ status_ok → peek p.3 ≡ ok b')') × (length p.1 ≤ p.2)
ParametersEnd fault = Unit {0}
ParametersEnd out_of_fuel = ⊥

-- One round of the parameters; `rec` is the rest of them.
parameter-End :
    (rec : Stream → List FieldInfo → ℕ → Run Parameters) (m n : ℕ) (fs : List FieldInfo)
    (r : Run Parsed)
    → ((s : Stream) (gs : List FieldInfo) (i : ℕ)
        → length s < m
        → length gs ≤ i
        → ParametersEnd (rec s gs i))
    → length fs ≤ n
    → Within m r
    → ParametersEnd (
        r >>= λ p.
        if p.0 then rec p.2 (fs ++ p.1 ∷ []) (n + 1) else ok (error_in_parameter, fs, n + 1, p.2))
parameter-End rec m n fs (ok (true, f, s)) ih l w =
    ih s (fs ++ f ∷ []) (n + 1) (w.1 refl) (omega (arith, length-append fs (f ∷ [])))
parameter-End rec m n fs (ok (false, f, s)) ih l w = ((λ e. cc), omega arith)
parameter-End rec m n fs fault ih l w = tt
parameter-End rec m n fs out_of_fuel ih l w = w

parse_parameters-End :
    (k : ℕ) (s : Stream) (fs : List FieldInfo) (n : ℕ)
    → length s < k
    → length fs ≤ n
    → ParametersEnd (parse_parameters k s fs n)
unfolding parse_parameters
parse_parameters-End zero s fs n h l = absurd (omega arith)
parse_parameters-End (suc k) [] fs n h l = tt
parse_parameters-End (suc k) (c ∷ s) fs n h l = elim (Bool-cases (c == b')')) [
  | inl e ↦ rw e ((λ _. ground arith), l)
  | inr e ↦ rw e (
      parameter-End (parse_parameters k) (length (c ∷ s)) n fs _
        (λ s' gs i short le. parse_parameters-End k s' gs i (omega arith) le) l
        (parse_field-Within (field_fuel (c ∷ s)) (c ∷ s) empty_field (omega arith)))
]

-- The parser of a field descriptor ends on the fuel that it is given, whatever the stream; what it
-- leaves is no longer than the stream, and shorter where it succeeds.
parse_field-ends :
    (s : Stream) (f : FieldInfo)
    → (parse_field (field_fuel s) s f ≢ out_of_fuel)
      × ((d : Bool) (g : FieldInfo) (r : Stream)
          → parse_field (field_fuel s) s f ≡ ok (d, g, r)
          → (length r ≤ length s) × (d ≡ true → length r < length s))
parse_field-ends s f =
    let w = parse_field-Within (field_fuel s) s f (omega arith) in
    (λ e. rw e at w, λ d g r e. rw e at w)

option-Ends :
    {A B : Type 0} (o : Option A) (f : A → Run B)
    → ((a : A) → Ends (f a))
    → Ends (elim o [ none ↦ fault | some a ↦ f a ])
option-Ends none f h = tt
option-Ends (some a) f h = h a

cleanup_loop-Ends : (n : ℕ) (fs : List FieldInfo) → Ends (cleanup_loop n fs)
unfolding cleanup_loop
cleanup_loop-Ends zero fs = tt
cleanup_loop-Ends (suc n) fs =
    option-Ends (get_elem? fs n) (λ _. cleanup_loop n fs) (λ _. cleanup_loop-Ends n fs)

params_width-Ends : (n : ℕ) (fs : List FieldInfo) → Ends (params_width n fs)
unfolding params_width
params_width-Ends zero fs = tt
params_width-Ends (suc n) fs =
    option-Ends (get_elem? fs n) _ (λ f. >>=-Ends _ _ (params_width-Ends n fs) (λ w. tt))

cleanup_fields-Ends : (fs : List FieldInfo) (n : ℕ) → Ends (cleanup_fields fs n)
unfolding cleanup_fields
cleanup_fields-Ends [] n = tt
cleanup_fields-Ends (f ∷ fs) n = >>=-Ends _ _ (cleanup_loop-Ends n (f ∷ fs)) (λ _. tt)

parse_return-Ends : (s : Stream) (f : FieldInfo) → Ends (parse_return s f)
unfolding parse_return
parse_return-Ends [] f = tt
parse_return-Ends (c ∷ s) f = elim (Bool-cases (c == b'V')) [
  | inl e ↦ rw e tt
  | inr e ↦ rw e (
      >>=-Ends _ _
        (Within-Ends _ _ (parse_field-Within (field_fuel (c ∷ s)) (c ∷ s) f (omega arith)))
        (λ _. tt))
]
  where
    Within-Ends : (n : ℕ) (r : Run Parsed) → Within n r → Ends r
    Within-Ends n (ok p) w = tt
    Within-Ends n fault w = tt
    Within-Ends n out_of_fuel w = w

End-Ends : (r : Run Parameters) → ParametersEnd r → Ends r
End-Ends (ok p) w = tt
End-Ends fault w = tt
End-Ends out_of_fuel w = w

return_case-Ends :
    (m : MethodInfo) (p : Status × Bool × FieldInfo × Stream) → Ends (return_case m p)
unfolding return_case
return_case-Ends m (status_ok, returns, f, s) =
    >>=-Ends _ _ (params_width-Ends m.parameter_count m.parameter_fields) (λ _. tt)
return_case-Ends m (_, returns, f, s) =
    >>=-Ends _ _ (cleanup_fields-Ends m.parameter_fields m.parameter_count) (λ _. tt)

close_parameters-Ends : (m : MethodInfo) (s : Stream) → Ends (close_parameters m s)
unfolding close_parameters
close_parameters-Ends m [] = tt
close_parameters-Ends m (c ∷ s) = elim (Bool-cases (c == b')')) [
  | inl e ↦ rw e (>>=-Ends _ _ (parse_return-Ends s m.return_field) (return_case-Ends m))
  | inr e ↦ rw e (>>=-Ends _ _ (cleanup_fields-Ends m.parameter_fields m.parameter_count) (λ _. tt))
]

parameters_case-Ends : (m : MethodInfo) (p : Parameters) → Ends (parameters_case m p)
unfolding parameters_case
parameters_case-Ends m (status_ok, fields, count, s) = close_parameters-Ends _ s
parameters_case-Ends m (_, fields, count, s) =
    >>=-Ends _ _ (cleanup_fields-Ends fields count) (λ _. tt)

-- The parser of a method descriptor ends on the fuel that it is given, whatever the stream, for a
-- record that holds no more parameters than it counts.
pub parse_method-ends :
    (s : Stream) (m : MethodInfo)
    → length m.parameter_fields ≤ m.parameter_count
    → parse_method s m ≢ out_of_fuel
unfolding parse_method
parse_method-ends [] m l e = cc
parse_method-ends (c ∷ s) m l e = rw e at ends
  where
    started : MethodInfo
    started = record m { method_status = incorrect_method_descriptor }

    parameters : Ends (parse_parameters (field_fuel s) s m.parameter_fields m.parameter_count)
    parameters =
        End-Ends _ (
          parse_parameters-End (field_fuel s) s m.parameter_fields m.parameter_count (omega arith)
            l)

    ends : Ends (parse_method (c ∷ s) m)
    ends = elim (Bool-cases (c == b'(')) [
      | inl t ↦
          rw t (>>=-Ends _ (parameters_case started) parameters (parameters_case-Ends started))
      | inr t ↦ rw t tt
    ]
