-- ===== src/ClassFile/Defs.antt =====
-- What jvmloadr.c keeps of a class file: classes, fields, methods and their code, as Jvmrt.h and
-- Jvmldr.h declare them. A table and its count are one list. Memory is never short.
use jdepends.Common.{ℕ, zero, suc, Bool, Option, List, [], ◌∷◌, take}
use jdepends.Common.Run.{Run, ok, fault, ◌>>=◌}
use jdepends.ConstPool.Defs.{Stream, Entry}
use jdepends.Descriptor.Defs.{FieldInfo, MethodInfo}
use jdepends.Utf8.Defs.{Decoded}
use jdepends.Names.Defs.{Cache, get_string_name}

-- _JVM_EXC_Table_Info
pub record ExceptionRange : Type 0 where
  pub start_pc : ℕ
  pub end_pc : ℕ
  pub handler_pc : ℕ
  pub catch_type : ℕ

-- _JVM_LN_Table_Info
pub record LineNumber : Type 0 where
  pub line_start_pc : ℕ
  pub line_number : ℕ

-- _JVM_LV_Table_Info, with the type of its pjfField
pub record LocalVariable : Type 0 where
  pub var_start_pc : ℕ
  pub var_length : ℕ
  pub name_index : ℕ
  pub desc_index : ℕ
  pub var_index : ℕ
  pub var_type : FieldInfo

-- _JVM_ByteCode_Info: jdwCodeLength is the length of `code`, behind which pjbyCode has one NUL.
pub record ByteCodeInfo : Type 0 where
  pub max_stack : ℕ
  pub max_locals : ℕ
  pub code : List ℕ
  pub exception_table : List ExceptionRange
  pub line_num_table : List LineNumber
  pub local_var_table : List LocalVariable
  pub local_vars_width : ℕ

-- _JVM_Method
pub record LoadedMethod : Type 0 where
  pub method_access_flags : ℕ
  pub method_cp_index : ℕ
  pub method_name : Option Decoded
  pub method_desc : Option Decoded
  pub method_info : MethodInfo
  pub code_info : Option ByteCodeInfo
  pub exc_table_count : ℕ
  pub exc_table : List ℕ

-- The union `u` of _JVM_Field, by the member that is stored: a floating-point number is the word of
-- the pool that it is converted from, and a double is the Boolean that the code stores.
pub data Value : Type 0 where
  unset_value : Value
  jai jas jac jaby jab : ℕ → Value
  jal : ℕ → Value
  jaf : ℕ → Value
  jad : ℕ → Value
  js : Option Decoded → Value

-- _JVM_Field
pub record LoadedField : Type 0 where
  pub field_access_flags : ℕ
  pub field_cp_index : ℕ
  pub field_name : Option Decoded
  pub field_desc : Option Decoded
  pub field_type : FieldInfo
  pub value : Value

-- _JVM_NestedClass_Info
pub record NestedClass : Type 0 where
  pub inner_class_info_index : ℕ
  pub outer_class_info_index : ℕ
  pub inner_name_index : ℕ
  pub inner_class_access_flags : ℕ

-- _JVM_Class_Class, as far as its class file fills it. The pool may hold one entry more than
-- jwCPEntryCount, where a long or a double takes the last index.
pub record LoadedClass : Type 0 where
  pub pool : List Entry
  pub cp_entry_count : ℕ
  pub cache : Cache
  pub class_flags : ℕ
  pub class_name : Option Decoded
  pub super_class_name : Option Decoded
  pub interfaces_cp_index : List ℕ
  pub loaded_fields : List LoadedField
  pub loaded_methods : List LoadedMethod
  pub source_file_name : Option Decoded
  pub inner_classes : List NestedClass

-- jwAttrHost together with pjvGeneric, which is null for a class: every call pairs them so.
pub data Host : Type 0 where
  code_host method_host : LoadedMethod → Host
  field_host : LoadedField → Host
  class_host : Host

-- What a handler of an attribute returns and leaves behind
abbrev pub Handled : Type 0
Handled = Bool × Stream × Host × LoadedClass

-- JvmLdrGetStringName on the pool of a class
unfoldable pub class_string_name : LoadedClass → ℕ → Run (Option Decoded × LoadedClass)
class_string_name c index = do
  (name, cache) ← get_string_name (take c.cp_entry_count c.pool) c.cache index
  ok (name, record c { cache = cache })

-- `*ppjbStream += n`
unfoldable pub advance : ℕ → Stream → Run Stream
advance zero s = ok s
advance (suc n) [] = fault
advance (suc n) (b ∷ s) = advance n s

-- FLAG_SYNTHETIC, FLAG_DEPRECATED and ACC_STATIC
abbrev pub flag_synthetic : ℕ
flag_synthetic = 0x1000

abbrev pub flag_deprecated : ℕ
flag_deprecated = 0x2000

abbrev pub acc_static : ℕ
acc_static = 0x0008

abbrev pub new_code : ByteCodeInfo
new_code = record {
  max_stack = 0;
  max_locals = 0;
  code = [];
  exception_table = [];
  line_num_table = [];
  local_var_table = [];
  local_vars_width = 0;
}
