-- ===== src/ClassFile/Code.antt =====
-- JvmHdlAttrCode and JvmGenericAttribHandler of jvmloadr.c, which call one another: `depth` bounds
-- how deep. The class that a catch type names is loaded by the code too, which only logs whether
-- that fails; that load is left out.
use jdepends.Common.{
  ℕ, zero, suc, ◌^◌, Bool, true, false, Option, none, some, List, [], ◌∷◌, ◌++◌, leb, ◌==◌,
  if◌then◌else◌, get_elem?,
}
use jdepends.Common.Run.{Run, ok, fault, out_of_fuel, ◌>>=◌}
use jdepends.ConstPool.Defs.{Stream, load_word, load_doubleword, copy_bytes}
use jdepends.ClassFile.Defs.{
  ExceptionRange, ByteCodeInfo, LoadedMethod, LoadedClass, Host, code_host, method_host, field_host,
  class_host, Handled, class_string_name, new_code,
}
use jdepends.ClassFile.Tables.{
  handle_default, handle_deprecated, handle_synthetic, handle_source_file, handle_inner_classes,
  handle_exceptions, handle_line_number_table,
}
use jdepends.ClassFile.Variables.{handle_local_var_table}
use jdepends.ClassFile.Constants.{handle_constant_value}
use jdepends.ClassFile.Attributes.{
  Handler, default_attr, code_attr, constant_value_attr, exceptions_attr, line_number_table_attr,
  local_var_table_attr, source_file_attr, inner_classes_attr, synthetic_attr, deprecated_attr,
  get_attrib_handler,
}

-- IsJvmOpcode
unfoldable pub is_jvm_opcode : ℕ → Bool
is_jvm_opcode b = leb b 201

-- A place of the exception table: below jdwCodeLength, and at a byte that may be an opcode
unfoldable pub is_code_place : List ℕ → ℕ → Bool
is_code_place code pc = elim (get_elem? code pc) [ none ↦ false | some b ↦ is_jvm_opcode b ]

-- JvmGetClassName for the catch type, which then is loaded: a class without a name would be read
-- through a null pointer.
unfoldable pub catch_name : LoadedClass → ℕ → Run LoadedClass
catch_name c catch_type =
    let named = (do
      (name, c') ← class_string_name c catch_type
      elim name [ none ↦ fault | some n ↦ ok c' ]) in
    if catch_type == 0 then ok c else named

abbrev pub Ranges : Type 0
Ranges = Option (List ExceptionRange) × Stream × LoadedClass

-- The read of a place and its test; where it fails, `goto _abnormalexit`.
unfoldable pub with_place : List ℕ → Stream → LoadedClass → (ℕ → Stream → Run Ranges) → Run Ranges
with_place code s c next = do
  (pc, s') ← load_word s
  let rest = next pc s'
  if is_code_place code pc then rest else ok (none, s', c)

-- The loop over the exception table; `none` is `goto _abnormalexit`.
unfoldable pub read_ranges : ℕ → List ℕ → Stream → LoadedClass → List ExceptionRange → Run Ranges
read_ranges zero code s c found = ok (some found, s, c)
read_ranges (suc left) code s c found = with_place code s c (λ start s1.
    with_place code s1 c (λ end s2. with_place code s2 c (λ handler s3. do
      (catch, s4) ← load_word s3
      c' ← catch_name c catch
      read_ranges left code s4 c' (
          found
          ++ record { start_pc = start; end_pc = end; handler_pc = handler; catch_type = catch }
            ∷ []))))

-- `_abnormalexit`: JvmCleanUpCode frees what pjbiBCInfo points to, a second time if the handler of
-- an attribute in the code has freed it.
unfoldable pub abnormal_exit : Stream → LoadedMethod → LoadedClass → Run Handled
abnormal_exit s m c = elim m.code_info [
  | none ↦ fault
  | some info ↦ ok (false, s, method_host (record m { code_info = none }), c)
]

-- The end of JvmHdlAttrCode, behind the attributes of the code
unfoldable pub code_done : Handled → Run Handled
code_done (good, s, code_host m, c) =
    if good then ok (true, s, method_host m, c) else abnormal_exit s m c
code_done _ = fault

abbrev pub Generic : Type 0
Generic = ℕ → Stream → Host → LoadedClass → Run Handled

unfoldable pub code_attributes : Generic → LoadedMethod → ByteCodeInfo → Ranges → Run Handled
code_attributes generic m info (none, s, c) = abnormal_exit s (record m { code_info = some info }) c
code_attributes generic m info (some table, s, c) = do
  let with_table = record m { code_info = some (record info { exception_table = table }) }
  (count, s') ← load_word s
  let attributes = (generic count s' (code_host with_table) c >>= code_done)
  if count == 0 then ok (true, s', method_host with_table, c) else attributes

unfoldable pub code_of : Generic → Stream → LoadedMethod → LoadedClass → Run Handled
code_of generic s m c = do
  (_, s1) ← load_doubleword s
  (max_stack, s2) ← load_word s1
  (max_locals, s3) ← load_word s2
  (len, s4) ← load_doubleword s3
  (code, s5) ← copy_bytes len s4
  (count, s6) ← load_word s5
  ranges ← read_ranges count code s6 c []
  let info : ByteCodeInfo = record new_code {
    max_stack = max_stack;
    max_locals = max_locals;
    code = code;
  }
  code_attributes generic m info ranges

-- JvmHdlAttrCode: for a class the assertion on pjmMethod fails.
unfoldable pub handle_code : Generic → Stream → Host → LoadedClass → Run Handled
handle_code generic s (method_host m) c = code_of generic s m c
handle_code generic s (code_host m) c = ok (false, s, code_host m, c)
handle_code generic s (field_host f) c = ok (false, s, field_host f, c)
handle_code generic s class_host c = fault

-- The call of the handler that was found
unfoldable pub call_handler : Generic → Handler → Stream → Host → LoadedClass → Run Handled
call_handler generic default_attr s h c = handle_default s h c
call_handler generic code_attr s h c = handle_code generic s h c
call_handler generic constant_value_attr s h c = handle_constant_value s h c
call_handler generic exceptions_attr s h c = handle_exceptions s h c
call_handler generic line_number_table_attr s h c = handle_line_number_table s h c
call_handler generic local_var_table_attr s h c = handle_local_var_table s h c
call_handler generic source_file_attr s h c = handle_source_file s h c
call_handler generic inner_classes_attr s h c = handle_inner_classes s h c
call_handler generic synthetic_attr s h c = handle_synthetic s h c
call_handler generic deprecated_attr s h c = handle_deprecated s h c

unfoldable pub attribute_case :
    Generic → Option Handler → Stream → Stream → Host → LoadedClass → Run Handled
attribute_case generic none before s h c = ok (false, before, h, c)
attribute_case generic (some handler) before s h c = call_handler generic handler s h c

-- What the loop does behind a handler
unfoldable pub next_attribute : (Stream → Host → LoadedClass → Run Handled) → Handled → Run Handled
next_attribute again (good, s, h, c) =
    let rest = again s h c in if good then rest else ok (false, s, h, c)

-- The loop of JvmGenericAttribHandler, for the attributes that are left
unfoldable pub attribute_rounds : Generic → ℕ → Stream → Host → LoadedClass → Run Handled
attribute_rounds generic zero s h c = ok (true, s, h, c)
attribute_rounds generic (suc left) s h c = do
  (index, s') ← load_word s
  handler ← get_attrib_handler c index
  handled ← attribute_case generic handler s s' h c
  next_attribute (attribute_rounds generic left) handled

-- JvmGenericAttribHandler: the count is taken down before it is tested.
unfoldable pub generic_attrib_handler : ℕ → Generic
generic_attrib_handler zero count s h c = out_of_fuel
generic_attrib_handler (suc depth) count s h c =
    attribute_rounds (generic_attrib_handler depth) (if count == 0 then 2 ^ 16 else count) s h c

-- The attributes of a method or a class hold a code, whose attributes hold no other code.
abbrev pub attribute_depth : ℕ
attribute_depth = 2
