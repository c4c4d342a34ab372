-- ===== src/ClassFile/Examples.antt =====
-- A class file with a field and a method, and files that are refused or crash.
use jdepends.Common.{ℕ, ◌≡◌, inl, refl, true, false, none, some, List, [], ◌∷◌, arith}
use jdepends.Common.Run.{ok, fault, ◌>>=◌}
use jdepends.ConstPool.Defs.{Entry, loaded}
use jdepends.ConstPool.Format.{
  Bytes2, Constant, utf8, class_ref, all_entries, dummy, write_head, write_pool,
}
use jdepends.Descriptor.Defs.{empty_field}
use jdepends.Descriptor.Grammar.{base, int}
use jdepends.ClassFile.Defs.{
  LoadedMethod, LoadedField, LoadedClass, code_host, method_host, class_host, new_code,
}
use jdepends.ClassFile.Variables.{handle_local_var_table}
use jdepends.ClassFile.Constants.{same_text}
use jdepends.ClassFile.Attributes.{
  default_attr, code_attr, line_number_table_attr, constant_value_attr, search_tab, has_name,
}
use jdepends.ClassFile.Code.{
  is_code_place, is_jvm_opcode, code_done, handle_code, generic_attrib_handler, attribute_depth,
}
use jdepends.ClassFile.Loader.{load_class}
use jdepends.ClassFile.Format.{word, dword, FieldDecl, CodeDecl, MethodDecl, Selects, write_methods}
use jdepends.ClassFile.Fields.{IsField, describe_field}
use jdepends.ClassFile.Codes.{IsCode}
use jdepends.ClassFile.Methods.{IsMethod, read_methods-write, loaded_method}
use jdepends.ClassFile.Written.{ClassDecl, HasClass, IsClass, write_class, described_class}
use jdepends.ClassFile.RoundTrip.{load_class-write}
use jdepends.ClassFile.Accepted.{AreSound, read_methods-AreSound}
use jdepends.ClassFile.Depth.{generic_attrib_handler-deep}
use jdepends.ClassFile.Faults.{handle_local_var_table-crashes, handle_code-refuses_end}

abbrev at_index : ℕ → Bytes2
at_index n = record { hi = 0; lo = n }

abbrev lines_text : List ℕ
lines_text =
    b'L' ∷ b'i' ∷ b'n' ∷ b'e' ∷ b'N' ∷ b'u' ∷ b'm' ∷ b'b' ∷ b'e' ∷ b'r' ∷ b'T' ∷ b'a' ∷ b'b' ∷ b'l'
    ∷ b'e' ∷ []

abbrev constant_text : List ℕ
constant_text =
    b'C' ∷ b'o' ∷ b'n' ∷ b's' ∷ b't' ∷ b'a' ∷ b'n' ∷ b't' ∷ b'V' ∷ b'a' ∷ b'l' ∷ b'u' ∷ b'e' ∷ []

abbrev constants : List Constant
constants =
    utf8 (b'A' ∷ [])
    ∷ class_ref (at_index 1)
    ∷ utf8 (b'B' ∷ [])
    ∷ class_ref (at_index 3)
    ∷ utf8 (b'x' ∷ [])
    ∷ utf8 (b'I' ∷ [])
    ∷ utf8 (b'm' ∷ [])
    ∷ utf8 (b'(' ∷ b')' ∷ b'V' ∷ [])
    ∷ utf8 (b'C' ∷ b'o' ∷ b'd' ∷ b'e' ∷ [])
    ∷ utf8 lines_text
    ∷ utf8 (b'F' ∷ b'o' ∷ b'o' ∷ [])
    ∷ utf8 constant_text
    ∷ []

abbrev pool : List Entry
pool = dummy ∷ all_entries constants

abbrev x_field : FieldDecl
x_field = record {
  field_flags = 1;
  field_name_index = 5;
  field_name_text = b'x' ∷ [];
  field_desc_index = 6;
  field_type = base int;
  field_attributes = record { attribute_name = 11; contents = 9 ∷ 9 ∷ [] } ∷ [];
}

-- `nop; return`, with a handler and a line
abbrev m_code : CodeDecl
m_code = record {
  code_name_index = 9;
  stack = 1;
  locals = 1;
  instructions = 0 ∷ 177 ∷ [];
  ranges = record { start_pc = 0; end_pc = 1; handler_pc = 1; catch_type = 0 } ∷ [];
  lines_name_index = 10;
  lines = record { line_start_pc = 0; line_number = 7 } ∷ [];
  code_attributes = [];
}

abbrev m_method : MethodDecl
m_method = record {
  method_flags = 1;
  method_name_index = 7;
  method_name_text = b'm' ∷ [];
  method_desc_index = 8;
  parameters = [];
  result = none;
  body = some m_code;
  method_attributes = [];
}

abbrev a_class : ClassDecl
a_class = record {
  flags = 1;
  this_class = (2, b'A' ∷ []);
  super_class = some (4, b'B' ∷ []);
  interfaces = 4 ∷ [];
  fields = x_field ∷ [];
  methods = m_method ∷ [];
  attributes = [];
}

foo-Selects : Selects pool 11 default_attr
unfolding search_tab has_name same_text
foo-Selects = record {
  text = b'F' ∷ b'o' ∷ b'o' ∷ [];
  has_text = record { entry = refl; ascii = omega arith; short = omega arith };
  selected = refl;
}

code-Selects : Selects pool 9 code_attr
unfolding search_tab has_name same_text
code-Selects = record {
  text = b'C' ∷ b'o' ∷ b'd' ∷ b'e' ∷ [];
  has_text = record { entry = refl; ascii = omega arith; short = omega arith };
  selected = refl;
}

lines-Selects : Selects pool 10 line_number_table_attr
unfolding search_tab has_name same_text
lines-Selects = record {
  text = lines_text;
  has_text = record { entry = refl; ascii = omega arith; short = omega arith };
  selected = refl;
}

constant-Selects : Selects pool 12 constant_value_attr
unfolding search_tab has_name same_text
constant-Selects = record {
  text = constant_text;
  has_text = record { entry = refl; ascii = omega arith; short = omega arith };
  selected = refl;
}

x-IsField : IsField pool x_field
x-IsField = record {
  has_name = record { entry = refl; ascii = omega arith; short = omega arith };
  has_desc = record { entry = refl; ascii = omega arith; short = omega arith };
  valid = tt;
  others = (record { unknown = foo-Selects; fits = omega arith }, tt);
  few = omega arith;
}

m_code-IsCode : IsCode pool m_code
unfolding is_code_place is_jvm_opcode
m_code-IsCode = record {
  named_code = code-Selects;
  named_lines = lines-Selects;
  in_code = (record { start = refl; end = refl; handler = refl; any = refl }, tt);
  unknown = tt;
  few = omega arith;
}

m-IsMethod : IsMethod pool m_method
m-IsMethod = record {
  has_name = record { entry = refl; ascii = omega arith; short = omega arith };
  has_desc = record { entry = refl; ascii = omega arith; short = omega arith };
  valid = tt;
  valid_result = tt;
  is_body = m_code-IsCode;
  others = tt;
}

a-HasClass : HasClass pool (2, b'A' ∷ [])
a-HasClass = record {
  text_index = at_index 1;
  entry = refl;
  has_text = record { entry = refl; ascii = omega arith; short = omega arith };
}

b-HasClass : HasClass pool (4, b'B' ∷ [])
b-HasClass = record {
  text_index = at_index 3;
  entry = refl;
  has_text = record { entry = refl; ascii = omega arith; short = omega arith };
}

a-IsClass : IsClass pool a_class
a-IsClass = record {
  has_this = a-HasClass;
  has_super = (b-HasClass, omega arith, omega arith);
  are_fields = (x-IsField, tt);
  are_methods = (m-IsMethod, tt);
  others = tt;
}

load_class-write_example :
    load_class
      (write_head (at_index 0) (at_index 46) (write_pool constants (write_class a_class [])))
    ≡ ok (loaded (described_class pool a_class))
load_class-write_example =
    load_class-write (at_index 0) (at_index 46) constants a_class [] (omega arith) (omega arith)
      a-IsClass

abbrev before_members : LoadedClass
before_members = record {
  pool = pool;
  cp_entry_count = 13;
  cache = [];
  class_flags = 0;
  class_name = none;
  super_class_name = none;
  interfaces_cp_index = [];
  loaded_fields = [];
  loaded_methods = [];
  source_file_name = none;
  inner_classes = [];
}

abbrev bare_method : LoadedMethod
bare_method = record (loaded_method m_method) { code_info = none }

abbrev coded_method : LoadedMethod
coded_method = record bare_method { code_info = some new_code }

-- A field of type long and one of type `[I`
abbrev long_field : LoadedField
long_field = record (describe_field x_field) {
  field_type = record empty_field { is_base = true; base_type = b'J'; width_in_words = 2 };
}

abbrev array_field : LoadedField
array_field = record (describe_field x_field) {
  field_type = record empty_field { is_array = true };
}

read_methods-AreSound_example : AreSound (loaded_method m_method ∷ [])
read_methods-AreSound_example =
    read_methods-AreSound 1 (write_methods (m_method ∷ []) []) [] before_members
      (record before_members { loaded_methods = loaded_method m_method ∷ [] })
      (read_methods-write (m_method ∷ []) [] before_members (m-IsMethod, tt))

generic_attrib_handler-deep_example :
    generic_attrib_handler 4 1 (word 11 (dword 2 (9 ∷ 9 ∷ []))) class_host before_members
    ≡ generic_attrib_handler attribute_depth 1
        (word 11 (dword 2 (9 ∷ 9 ∷ [])))
        class_host
        before_members
generic_attrib_handler-deep_example =
    generic_attrib_handler-deep 2 1 (word 11 (dword 2 (9 ∷ 9 ∷ []))) class_host before_members

handle_local_var_table-crashes_example :
    (handle_local_var_table
        (dword 12 (word 1 (word 0 (word 2 (word 5 (word 6 (word 0 [])))))))
        (code_host coded_method)
        before_members
      >>= code_done)
    ≡ fault
handle_local_var_table-crashes_example =
    handle_local_var_table-crashes coded_method before_members new_code 12 0 0 2 5 6 (word 0 [])
      refl
      (inl (
        b'I' ∷ [],
        record { entry = refl; ascii = omega arith; short = omega arith },
        omega arith,
        omega arith,
      ))

handle_code-refuses_end_example :
    handle_code
      (generic_attrib_handler 1)
      (dword 22
        (word 1 (word 1 (dword 2 (0 ∷ 177 ∷ word 1 (word 0 (word 2 (word 1 (word 0 [])))))))))
      (method_host bare_method)
      before_members
    ≡ ok (false, word 1 (word 0 []), method_host bare_method, before_members)
unfolding is_code_place is_jvm_opcode
handle_code-refuses_end_example =
    handle_code-refuses_end (generic_attrib_handler 1) bare_method before_members (0 ∷ 177 ∷ []) 22
      1 1 0 0 (word 1 (word 0 [])) refl
