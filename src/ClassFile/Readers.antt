-- ===== src/ClassFile/Readers.antt =====
-- JvmLdrReadFields, JvmLdrReadMethods and the part of JvmLdrLoadNewClass that reads a class file, up
-- to the end of its streams. The fields and methods of a class that is refused are freed.
use jdepends.Common.{
  ℕ, zero, suc, Bool, true, false, Option, none, some, List, [], ◌∷◌, ◌++◌, ◌==◌, if◌then◌else◌,
  bit_or,
}
use jdepends.Common.Run.{Run, ok, fault, ◌>>=◌}
use jdepends.ConstPool.Defs.{Stream, load_word, tag_utf8}
use jdepends.Descriptor.Defs.{MethodInfo, parse_field, field_fuel, parse_method, unset}
use jdepends.Utf8.Defs.{Decoded, get_utf8_bytes}
use jdepends.Names.Defs.{entry_at}
use jdepends.ClassFile.Defs.{
  LoadedMethod, LoadedField, unset_value, LoadedClass, method_host, field_host, Handled, acc_static,
}
use jdepends.ClassFile.Variables.{zero_field}
use jdepends.ClassFile.Code.{generic_attrib_handler, attribute_depth}

-- The bytes from a spring on: two NULs stand behind it. What could not be decoded is null.
unfoldable pub spring_bytes : Option Decoded → Run Stream
spring_bytes none = fault
spring_bytes (some d) = ok (d.chars ++ 0 ∷ 0 ∷ [])

-- The name and the descriptor of a field or a method; `none` where the descriptor's entry is no text
unfoldable pub read_name : LoadedClass → ℕ → Run (Option Decoded)
read_name c index = entry_at c.pool index >>= get_utf8_bytes

unfoldable pub read_descriptor : LoadedClass → ℕ → Run (Option (Option Decoded))
read_descriptor c index = do
  e ← entry_at c.pool index
  let decoded = (do desc ← get_utf8_bytes e; ok (some desc))
  if e.tag == tag_utf8 then decoded else ok none

-- A member that is read, or a refusal
abbrev pub Member : Type 0 → Type 0
Member A = Option A × Stream × LoadedClass

-- The attributes of a field, and what JvmLdrReadFieldAttributes returns
unfoldable pub field_done : Handled → Run (Member LoadedField)
field_done (good, s, field_host f, c) = ok (if good then some f else none, s, c)
field_done _ = fault

unfoldable pub field_attributes : Stream → LoadedField → LoadedClass → Run (Member LoadedField)
field_attributes s f c = do
  (count, s') ← load_word s
  let static = record f { field_access_flags = bit_or f.field_access_flags acc_static }
  let attributes =
      (generic_attrib_handler attribute_depth count s' (field_host static) c >>= field_done)
  if count == 0 then ok (some f, s', c) else attributes

unfoldable pub field_of :
    Stream
    → LoadedClass
    → ℕ
    → ℕ
    → Option Decoded
    → Option (Option Decoded)
    → Run (Member LoadedField)
field_of s c flags index name none = ok (none, s, c)
field_of s c flags index name (some desc) = do
  bytes ← spring_bytes desc
  (good, type, _) ← parse_field (field_fuel bytes) bytes zero_field
  let rest =
      field_attributes s
        (record {
          field_access_flags = flags;
          field_cp_index = index;
          field_name = name;
          field_desc = desc;
          field_type = type;
          value = unset_value;
        })
        c
  if good then rest else ok (none, s, c)

-- A round of the loop of JvmLdrReadFields
unfoldable pub read_field : Stream → LoadedClass → Run (Member LoadedField)
read_field s c = do
  (flags, s1) ← load_word s
  (index, s2) ← load_word s1
  name ← read_name c index
  (desc_index, s3) ← load_word s2
  desc ← read_descriptor c desc_index
  field_of s3 c flags index name desc

-- What a loop over members does behind one of them: `none` where one was refused.
unfoldable pub next_member :
    {A : Type 0}
    → (Stream → LoadedClass → List A → Run (Option (List A) × Stream × LoadedClass))
    → List A
    → Member A
    → Run (Option (List A) × Stream × LoadedClass)
next_member again found (none, s, c) = ok (none, s, c)
next_member again found (some a, s, c) = again s c (found ++ a ∷ [])

-- The loop over `left` members
unfoldable pub read_members :
    {A : Type 0}
    → (Stream → LoadedClass → Run (Member A))
    → ℕ
    → Stream
    → LoadedClass
    → List A
    → Run (Option (List A) × Stream × LoadedClass)
read_members read zero s c found = ok (some found, s, c)
read_members read (suc left) s c found = do
  m ← read s c
  next_member (read_members read left) found m

abbrev pub Result : Type 0
Result = Bool × Stream × LoadedClass

unfoldable pub fields_case : Option (List LoadedField) × Stream × LoadedClass → Result
fields_case (none, s, c) = (false, s, c)
fields_case (some fields, s, c) = (true, s, record c { loaded_fields = fields })

-- JvmLdrReadFields; its count is not 0.
unfoldable pub read_fields : ℕ → Stream → LoadedClass → Run Result
read_fields count s c = do r ← read_members read_field count s c []; ok (fields_case r)

-- pjmMethod->pjmiMethodInfo after JvmMemCalloc
abbrev pub zero_method : MethodInfo
zero_method = record {
  parameter_fields = [];
  return_field = zero_field;
  returns = false;
  parameter_count = 0;
  params_width_in_words = 0;
  method_status = unset;
}

unfoldable pub method_done : Handled → Run (Member LoadedMethod)
method_done (good, s, method_host m, c) = ok (if good then some m else none, s, c)
method_done _ = fault

-- The attributes of a method, and JvmLdrReadMethodAttributes
unfoldable pub method_attributes : Stream → LoadedMethod → LoadedClass → Run (Member LoadedMethod)
method_attributes s m c = do
  (count, s') ← load_word s
  let attributes =
      (generic_attrib_handler attribute_depth count s' (method_host m) c >>= method_done)
  if count == 0 then ok (some m, s', c) else attributes

unfoldable pub method_of :
    Stream
    → LoadedClass
    → ℕ
    → ℕ
    → Option Decoded
    → Option (Option Decoded)
    → Run (Member LoadedMethod)
method_of s c flags index name none = ok (none, s, c)
method_of s c flags index name (some desc) = do
  bytes ← spring_bytes desc
  (good, info, _) ← parse_method bytes zero_method
  let rest =
      method_attributes s
        (record {
          method_access_flags = flags;
          method_cp_index = index;
          method_name = name;
          method_desc = desc;
          method_info = info;
          code_info = none;
          exc_table_count = 0;
          exc_table = [];
        })
        c
  if good then rest else ok (none, s, c)

-- A round of the loop of JvmLdrReadMethods
unfoldable pub read_method : Stream → LoadedClass → Run (Member LoadedMethod)
read_method s c = do
  (flags, s1) ← load_word s
  (index, s2) ← load_word s1
  name ← read_name c index
  (desc_index, s3) ← load_word s2
  desc ← read_descriptor c desc_index
  method_of s3 c flags index name desc

unfoldable pub methods_case : Option (List LoadedMethod) × Stream × LoadedClass → Result
methods_case (none, s, c) = (false, s, c)
methods_case (some methods, s, c) = (true, s, record c { loaded_methods = methods })

-- JvmLdrReadMethods; its count is not 0.
unfoldable pub read_methods : ℕ → Stream → LoadedClass → Run Result
read_methods count s c = do r ← read_members read_method count s c []; ok (methods_case r)
