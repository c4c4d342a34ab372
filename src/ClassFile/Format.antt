-- ===== src/ClassFile/Format.antt =====
-- Class files as the class file format defines them, behind the constant pool, and what they are
-- written as. The names of the attributes are indices of the pool.
use jdepends.Common.{
  ℕ, suc, ◌+◌, ◌*◌, ◌/◌, ◌%◌, ◌^◌, ◌<◌, ◌≡◌, Option, none, some, List, [], ◌∷◌, ◌++◌, length,
}
use jdepends.ConstPool.Defs.{Entry}
use jdepends.Descriptor.Grammar.{FieldType}
use jdepends.Names.Resolve.{HasText}
use jdepends.ClassFile.Attributes.{Handler, default_attr, search_tab, attr_info_tab}
use jdepends.ClassFile.Defs.{ExceptionRange, LineNumber}

abbrev pub word : ℕ → List ℕ → List ℕ
word n s = (n / 256) ∷ (n % 256) ∷ s

abbrev pub dword : ℕ → List ℕ → List ℕ
dword n s = (n / 2 ^ 24) ∷ (n / 2 ^ 16 % 256) ∷ (n / 2 ^ 8 % 256) ∷ (n % 256) ∷ s

-- An attribute that the loader does not know
pub record OtherAttribute : Type 0 where
  pub attribute_name : ℕ
  pub contents : List ℕ

abbrev pub write_other : OtherAttribute → List ℕ → List ℕ
write_other a s = word a.attribute_name (dword (length a.contents) (a.contents ++ s))

abbrev pub write_others : List OtherAttribute → List ℕ → List ℕ
write_others [] s = s
write_others (a ∷ more) s = write_other a (write_others more s)

-- The name at an index is a text that selects a handler.
pub record Selects (pool : List Entry) (index : ℕ) (handler : Handler) : Type 0 where
  pub text : List ℕ
  pub has_text : HasText pool index text
  pub selected : search_tab attr_info_tab (text ++ 0 ∷ []) ≡ handler

-- The length has 32 bits, and room for its own four bytes.
pub record IsOther (pool : List Entry) (a : OtherAttribute) : Type 0 where
  pub unknown : Selects pool a.attribute_name default_attr
  pub fits : length a.contents + 4 < 2 ^ 32

abbrev pub AreOthers : List Entry → List OtherAttribute → Type 0
AreOthers pool [] = Unit {0}
AreOthers pool (a ∷ more) = IsOther pool a × AreOthers pool more

pub record FieldDecl : Type 0 where
  pub field_flags : ℕ
  pub field_name_index : ℕ
  pub field_name_text : List ℕ
  pub field_desc_index : ℕ
  pub field_type : FieldType
  pub field_attributes : List OtherAttribute

abbrev pub write_field : FieldDecl → List ℕ → List ℕ
write_field f s = word f.field_flags (
    word f.field_name_index (
      word f.field_desc_index
        (word (length f.field_attributes) (write_others f.field_attributes s))))

abbrev pub write_fields : List FieldDecl → List ℕ → List ℕ
write_fields [] s = s
write_fields (f ∷ fs) s = write_field f (write_fields fs s)

-- The exception table, whose ranges hold for every exception
abbrev pub write_ranges : List ExceptionRange → List ℕ → List ℕ
write_ranges [] s = s
write_ranges (r ∷ rs) s =
    word r.start_pc (word r.end_pc (word r.handler_pc (word r.catch_type (write_ranges rs s))))

abbrev pub write_lines : List LineNumber → List ℕ → List ℕ
write_lines [] s = s
write_lines (l ∷ ls) s = word l.line_start_pc (word l.line_number (write_lines ls s))

-- A code, with a LineNumberTable and other attributes
pub record CodeDecl : Type 0 where
  pub code_name_index : ℕ
  pub stack : ℕ
  pub locals : ℕ
  pub instructions : List ℕ
  pub ranges : List ExceptionRange
  pub lines_name_index : ℕ
  pub lines : List LineNumber
  pub code_attributes : List OtherAttribute

abbrev pub write_line_table : CodeDecl → List ℕ → List ℕ
write_line_table k s =
    word k.lines_name_index
      (dword (2 + 4 * length k.lines) (word (length k.lines) (write_lines k.lines s)))

abbrev pub code_length : CodeDecl → ℕ
code_length k = length (
    word k.stack (
      word k.locals (
        dword (length k.instructions) (
          k.instructions
          ++ word (length k.ranges) (
              write_ranges k.ranges (
                word (suc (length k.code_attributes))
                  (write_line_table k (write_others k.code_attributes []))))))))

abbrev pub write_code : CodeDecl → List ℕ → List ℕ
write_code k s = word k.code_name_index (
    dword (code_length k) (
      word k.stack (
        word k.locals (
          dword (length k.instructions) (
            k.instructions
            ++ word (length k.ranges) (
                write_ranges k.ranges (
                  word (suc (length k.code_attributes))
                    (write_line_table k (write_others k.code_attributes s)))))))))

-- A method, with the types of its parameters and of its result
pub record MethodDecl : Type 0 where
  pub method_flags : ℕ
  pub method_name_index : ℕ
  pub method_name_text : List ℕ
  pub method_desc_index : ℕ
  pub parameters : List FieldType
  pub result : Option FieldType
  pub body : Option CodeDecl
  pub method_attributes : List OtherAttribute

abbrev pub write_attributes : Option CodeDecl → List OtherAttribute → List ℕ → List ℕ
write_attributes none more s = word (length more) (write_others more s)
write_attributes (some k) more s = word (suc (length more)) (write_code k (write_others more s))

abbrev pub write_method : MethodDecl → List ℕ → List ℕ
write_method m s = word m.method_flags (
    word m.method_name_index
      (word m.method_desc_index (write_attributes m.body m.method_attributes s)))

abbrev pub write_methods : List MethodDecl → List ℕ → List ℕ
write_methods [] s = s
write_methods (m ∷ ms) s = write_method m (write_methods ms s)
