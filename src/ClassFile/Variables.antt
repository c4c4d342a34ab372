-- ===== src/ClassFile/Variables.antt =====
-- JvmHdlAttrLocalVarTable of jvmloadr.c, which reads the table of the local variables of a code.
use jdepends.Common.{
  ℕ, zero, suc, ◌+◌, true, false, Option, none, some, List, [], ◌∷◌, ◌++◌, ◌==◌, if◌then◌else◌,
}
use jdepends.Common.Run.{Run, ok, fault, ◌>>=◌}
use jdepends.ConstPool.Defs.{Stream, Entry, load_word, load_doubleword, copy_bytes, tag_utf8}
use jdepends.Descriptor.Defs.{FieldInfo, empty_field, parse_field, field_fuel, unset}
use jdepends.Names.Defs.{entry_at, first_word, bytes_behind}
use jdepends.ClassFile.Defs.{
  LocalVariable, ByteCodeInfo, LoadedMethod, LoadedClass, Host, code_host, method_host, field_host,
  class_host, Handled,
}
use jdepends.ClassFile.Tables.{asserted}

-- The copy jsFieldDesc: its length is read high byte first from the word in front of the text.
unfoldable pub copy_desc : Entry → Run (List ℕ)
copy_desc e = do
  len ← first_word (bytes_behind e)
  (copied, _) ← copy_bytes len (e.info ++ 0 ∷ [])
  ok (copied ++ 0 ∷ [])

-- jfiFieldType after JvmMemSet
abbrev pub zero_field : FieldInfo
zero_field = record empty_field { status = unset }

-- A round of the loop of JvmHdlAttrLocalVarTable up to the parse of the descriptor; `none` where the
-- code is freed.
unfoldable pub variable_type : LoadedClass → ℕ → Run (Option FieldInfo)
variable_type c index = do
  e ← entry_at c.pool index
  let parsed = (do
    desc ← copy_desc e
    (good, f, _) ← parse_field (field_fuel desc) desc zero_field
    ok (if good then some f else none))
  if e.tag == tag_utf8 then parsed else ok none

abbrev pub Variables : Type 0
Variables = Option (List LocalVariable) × Stream

unfoldable pub variable_case :
    (Stream → List LocalVariable → Run Variables)
    → Stream
    → List LocalVariable
    → (ℕ × ℕ × ℕ × ℕ)
    → Option FieldInfo
    → Run Variables
variable_case again s found (start, len, name, desc) none = ok (none, s)
variable_case again s found (start, len, name, desc) (some f) = do
  (index, s') ← load_word s
  again s' (
      found
      ++ record {
        var_start_pc = start;
        var_length = len;
        name_index = name;
        desc_index = desc;
        var_index = index;
        var_type = f;
      }
        ∷ [])

unfoldable pub read_variables : ℕ → LoadedClass → Stream → List LocalVariable → Run Variables
read_variables zero c s found = ok (some found, s)
read_variables (suc left) c s found = do
  (start, s1) ← load_word s
  (len, s2) ← load_word s1
  (name, s3) ← load_word s2
  (desc, s4) ← load_word s3
  type ← variable_type c desc
  variable_case (read_variables left c) s4 found (start, len, name, desc) type

-- jiWordWidth
unfoldable pub width_of : List LocalVariable → ℕ
width_of [] = 0
width_of (v ∷ vs) = v.var_type.width_in_words + width_of vs

unfoldable pub variables_case : LoadedMethod → LoadedClass → ByteCodeInfo → Variables → Handled
variables_case m c info (none, s) = (false, s, code_host (record m { code_info = none }), c)
variables_case m c info (some table, s) = (
  true,
  s,
  code_host (record m {
    code_info = some (record info { local_var_table = table; local_vars_width = width_of table });
  }),
  c,
)

unfoldable pub variables_of :
    Stream → LoadedMethod → LoadedClass → Option ByteCodeInfo → Run Handled
variables_of s m c none = fault
variables_of s m c (some info) = do
  (_, s1) ← load_doubleword s
  (count, s2) ← load_word s1
  let table = (do r ← read_variables count c s2 []; ok (variables_case m c info r))
  let emptied = record m { code_info = some (record info { local_var_table = [] }) }
  if count == 0 then ok (true, s2, code_host emptied, c) else table

-- JvmHdlAttrLocalVarTable
unfoldable pub handle_local_var_table : Stream → Host → LoadedClass → Run Handled
handle_local_var_table s (code_host m) c = variables_of s m c m.code_info
handle_local_var_table s (method_host m) c = asserted m (false, s, method_host m, c)
handle_local_var_table s (field_host f) c = fault
handle_local_var_table s class_host c = fault
