-- ===== src/Descriptor/Defs.antt =====
-- The parser of Jvmparse.c. A stream is the rest of the descriptor's buffer, its NUL included:
-- reading behind it is a fault. The flag bits of jwFieldType are three Booleans. What the code
-- reports to the error log (JvmErrSetErrorCode, JvmErrSetErrorMessage) is left out.
use jdepends.Common.{
  ℕ, zero, suc, ◌+◌, ◌%◌, ◌^◌, Bool, true, false, Option, none, some, List, [], ◌∷◌, ◌++◌, ltb,
  ◌==◌, if◌then◌else◌, length, get_elem?, get_or,
}
use jdepends.Common.Run.{Run, ok, fault, out_of_fuel, ◌>>=◌}

abbrev pub Stream : Type 0
Stream = List ℕ

-- JVM_MAX_NAME
abbrev pub max_name : ℕ
max_name = 510

-- The codes of JVMERR.H that the parser uses; `unset` is the zero of a cleared record.
pub data Status : Type 0 where
  unset status_ok incorrect_method_descriptor error_in_return_type error_in_parameter : Status
  object_type_name_too_long incorrect_field_descriptor : Status

-- _JVM_Field_Info. For jsObjectName, `object_text` is the text that JVM_SPRING_CREATE is called with;
-- which spring the table of springs has for it is left out.
pub record FieldInfo : Type 0 where
  pub is_base : Bool
  pub is_object : Bool
  pub is_array : Bool
  pub base_type : ℕ
  pub width_in_words : ℕ
  pub array_dimension : ℕ
  pub object_text : Option (List ℕ)
  pub object_name_len : ℕ
  pub status : Status

pub record MethodInfo : Type 0 where
  pub parameter_fields : List FieldInfo
  pub return_field : FieldInfo
  pub returns : Bool
  pub parameter_count : ℕ
  pub params_width_in_words : ℕ
  pub method_status : Status

-- `{0,0,0,0,JVM_NULL,0,JVM_STATUS_OK}`
abbrev pub empty_field : FieldInfo
empty_field = record {
  is_base = false;
  is_object = false;
  is_array = false;
  base_type = 0;
  width_in_words = 0;
  array_dimension = 0;
  object_text = none;
  object_name_len = 0;
  status = status_ok;
}

-- `**ppjbByteStream`
abbrev pub peek : Stream → Run ℕ
peek [] = fault
peek (c ∷ s) = ok c

abbrev pub word_len_ref : ℕ
word_len_ref = 1

-- ajiBaseTypes with ajiBaseSizes
abbrev pub base_types : List (ℕ × ℕ)
base_types =
    (b'B', 1)
    ∷ (b'C', 1)
    ∷ (b'D', 2)
    ∷ (b'F', 1)
    ∷ (b'I', 1)
    ∷ (b'J', 2)
    ∷ (b'S', 1)
    ∷ (b'Z', 1)
    ∷ []

-- The loop of IsJvmBaseType over the entries below `n`, from the last one down.
unfoldable pub base_type_loop : ℕ → ℕ → Option (ℕ × ℕ)
base_type_loop zero c = none
base_type_loop (suc n) c =
    let entry = get_or base_types n (0, 0) in
    if entry.0 == c then some (c, entry.1) else base_type_loop n c

-- The type and its width, and the stream behind it.
unfoldable pub is_base_type : Stream → Run (Option (ℕ × ℕ) × Stream)
is_base_type [] = fault
is_base_type (c ∷ s) = elim (base_type_loop (length base_types) c) [
  | some hit ↦ ok (some hit, s)
  | none ↦ ok (none, c ∷ s)
]

-- Where the loop of IsJvmObjectType stops: at a semicolon behind the bytes of a name, or after
-- its last round, with the stream where the pointer stands then.
pub data Scan : Type 0 where
  at_semicolon : List ℕ → Stream → Scan
  too_long : Stream → Scan

abbrev pub scan_cons : ℕ → Scan → Run Scan
scan_cons c (at_semicolon name s) = ok (at_semicolon (c ∷ name) s)
scan_cons c (too_long s) = ok (too_long s)

-- `while ((++jiLen <= JVM_MAX_NAME) && (*(++(*ppjbStream)) != ';'))` with `k` rounds left
unfoldable pub scan_name : ℕ → Stream → Run Scan
scan_name zero s = ok (too_long s)
scan_name (suc k) [] = fault
scan_name (suc k) (b ∷ []) = fault
scan_name (suc k) (b ∷ c ∷ s) =
    let rest = scan_name k (c ∷ s) >>= scan_cons c in
    if c == b';' then ok (at_semicolon [] (c ∷ s)) else rest

-- The bytes of a buffer up to its first NUL: what a C function sees of it.
unfoldable pub c_string : List ℕ → List ℕ
c_string [] = []
c_string (c ∷ s) = if c == 0 then [] else c ∷ c_string s

-- The outcome of IsJvmObjectType: its result, *pjsObjectTypeName and *pjiObjectTypeNameLen.
pub record ObjectType : Type 0 where
  pub found : Bool
  pub name : List ℕ
  pub name_len : ℕ

-- A failed scan leaves the stream behind the bytes that it went over.
abbrev pub object_result : Scan → ObjectType × Stream
object_result (too_long s) = (record { found = false; name = []; name_len = max_name + 1 }, s)
object_result (at_semicolon name []) =
    (record { found = true; name = name; name_len = length name + 1 }, [])
object_result (at_semicolon name (c ∷ s)) =
    (record { found = true; name = name; name_len = length name + 1 }, s)

unfoldable pub is_object_type : Stream → Run (ObjectType × Stream)
is_object_type [] = fault
is_object_type (c ∷ s) =
    let scan = scan_name max_name (c ∷ s) >>= λ r. ok (object_result r) in
    if c == b'L' then scan else ok (record { found = false; name = []; name_len = 0 }, c ∷ s)

unfoldable pub is_array_type : Stream → Run (Bool × Stream)
is_array_type [] = fault
is_array_type (c ∷ s) = ok (if c == b'[' then (true, s) else (false, c ∷ s))

-- JVM_SPRING_CREATE is called with the bytes up to the first NUL. The spring that it returns is in
-- another spelling where its table already holds the name in one, but has the same length; the length
-- counts the terminator.
unfoldable pub set_object : FieldInfo → ObjectType → FieldInfo
unfolding c_string
set_object f o = record f {
  is_object = true;
  base_type = b'L';
  object_text = some (c_string o.name);
  object_name_len = length (c_string o.name) + 1;
}

unfoldable pub set_base : FieldInfo → ℕ → ℕ → FieldInfo
set_base f c width = record f { is_base = true; base_type = c; width_in_words = width }

unfoldable pub add_dimension : FieldInfo → FieldInfo
add_dimension f = record f { is_array = true; array_dimension = (f.array_dimension + 1) % 2 ^ 16 }

abbrev pub Parsed : Type 0
Parsed = Bool × FieldInfo × Stream

-- The tail of JvmParseFieldDescriptor, at its `IsJvmArrayType` test; `again` is the recursive call.
unfoldable pub parse_array : (Stream → FieldInfo → Run Parsed) → Stream → FieldInfo → Run Parsed
unfolding add_dimension is_array_type
parse_array again s f = do
  (is_array, s') ← is_array_type s
  if is_array
      then (do
        (done, g, r) ← again s' (add_dimension f)
        ok (if done then (true, record g { width_in_words = word_len_ref }, r) else (false, g, r)))
      else ok (false, record f { status = incorrect_field_descriptor }, s')

-- What follows the `IsJvmObjectType` test.
unfoldable pub object_case :
    (Stream → FieldInfo → Run Parsed) → FieldInfo → ObjectType × Stream → Run Parsed
unfolding set_object
object_case again f (o, s) =
    if o.found
    then ok (
        let g = set_object f o in
        if ltb max_name o.name_len
        then (false, record g { status = object_type_name_too_long }, s)
        else (true, record g { width_in_words = word_len_ref }, s))
    else parse_array again s f

-- What follows the `IsJvmBaseType` test.
unfoldable pub base_case :
    (Stream → FieldInfo → Run Parsed) → FieldInfo → Option (ℕ × ℕ) × Stream → Run Parsed
unfolding set_base
base_case again f (some (t, width), s) = ok (true, set_base f t width, s)
base_case again f (none, s) = is_object_type s >>= object_case again f

-- JvmParseFieldDescriptor; the fuel bounds the depth of its recursion.
unfoldable pub parse_field : ℕ → Stream → FieldInfo → Run Parsed
parse_field zero s f = out_of_fuel
parse_field (suc k) s f = do
  c ← peek s
  if c == 0 then ok (false, f, s) else (is_base_type s >>= base_case (parse_field k) f)

-- Enough for every stream: each level of the recursion takes a byte.
abbrev pub field_fuel : Stream → ℕ
field_fuel s = length s + 1

-- JvmParseParameterDescriptor: the status, the parameters, their count, and the stream.
abbrev pub Parameters : Type 0
Parameters = Status × List FieldInfo × ℕ × Stream

unfoldable pub parse_parameters : ℕ → Stream → List FieldInfo → ℕ → Run Parameters
parse_parameters zero s fields count = out_of_fuel
parse_parameters (suc k) s fields count = do
  c ← peek s
  if c == b')' then ok (status_ok, fields, count, s) else (do
    (done, f, s') ← parse_field (field_fuel s) s empty_field
    let next = parse_parameters k s' (fields ++ f ∷ []) (count + 1)
    if done then next else ok (error_in_parameter, fields, count + 1, s'))

-- JvmParseReturnDescriptor: the status, *pjbReturnExistFlag, the field and the stream.
unfoldable pub parse_return : Stream → FieldInfo → Run (Status × Bool × FieldInfo × Stream)
parse_return s f = do
  c ← peek s
  if c == b'V' then ok (status_ok, false, f, s) else (do
    (done, g, s') ← parse_field (field_fuel s) s f
    ok (if done then status_ok else error_in_return_type, true, g, s'))

-- The loop of JvmParseCleanupFields reads each element below the count before it frees it.
unfoldable pub cleanup_loop : ℕ → List FieldInfo → Run (Unit {0})
cleanup_loop zero fields = ok tt
cleanup_loop (suc n) fields = elim (get_elem? fields n) [
  | none ↦ fault
  | some f ↦ cleanup_loop n fields
]

-- JvmParseCleanupFields: nothing for a null vector; afterwards the vector is null.
unfoldable pub cleanup_fields : List FieldInfo → ℕ → Run (List FieldInfo)
unfolding cleanup_loop
cleanup_fields [] count = ok []
cleanup_fields (f ∷ fs) count = do _ ← cleanup_loop count (f ∷ fs); ok []

-- JvmStoreParametersSize, from the last parameter down.
unfoldable pub params_width : ℕ → List FieldInfo → Run ℕ
params_width zero fields = ok 0
params_width (suc n) fields = elim (get_elem? fields n) [
  | none ↦ fault
  | some f ↦ params_width n fields >>= λ w. ok (f.width_in_words + w)
]

-- JvmParseMethodDescriptor, what follows the call of JvmParseReturnDescriptor.
unfoldable pub return_case :
    MethodInfo → Status × Bool × FieldInfo × Stream → Run (Bool × MethodInfo × Stream)
return_case m (status_ok, returns, f, s) = do
  w ← params_width m.parameter_count m.parameter_fields
  ok (
    true,
    record m {
      returns = returns;
      return_field = f;
      method_status = status_ok;
      params_width_in_words = w;
    },
    s,
  )
return_case m (_, returns, f, s) = do
  cleaned ← cleanup_fields m.parameter_fields m.parameter_count
  ok (false, record m { parameter_fields = cleaned; returns = returns; return_field = f }, s)

-- From the test of the closing bracket on.
unfoldable pub close_parameters : MethodInfo → Stream → Run (Bool × MethodInfo × Stream)
close_parameters m [] = fault
close_parameters m (c ∷ s) =
    if c == b')' then parse_return s m.return_field >>= return_case m else do
      cleaned ← cleanup_fields m.parameter_fields m.parameter_count
      ok (false, record m { parameter_fields = cleaned }, c ∷ s)

-- What follows the call of JvmParseParameterDescriptor.
unfoldable pub parameters_case : MethodInfo → Parameters → Run (Bool × MethodInfo × Stream)
parameters_case m (status_ok, fields, count, s) =
    close_parameters (record m { parameter_fields = fields; parameter_count = count }) s
parameters_case m (status, fields, count, s) = do
  cleaned ← cleanup_fields fields count
  ok (
    false,
    record m { parameter_fields = cleaned; parameter_count = count; method_status = status },
    s,
  )

-- JvmParseMethodDescriptor
unfoldable pub parse_method : Stream → MethodInfo → Run (Bool × MethodInfo × Stream)
parse_method [] m = fault
parse_method (c ∷ s) m =
    let started = record m { method_status = incorrect_method_descriptor } in
    if c == b'('
    then parse_parameters (field_fuel s) s m.parameter_fields m.parameter_count
      >>= parameters_case started
    else ok (false, started, c ∷ s)
