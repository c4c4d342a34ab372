-- ===== src/ClassFile/Attributes.antt =====
-- JvmGetAttribHandler of jvmloadr.c, and the table that it searches.
use jdepends.Common.{
  ℕ, ◌+◌, ◌%◌, ◌^◌, Bool, ◌&&◌, Option, none, some, List, [], ◌∷◌, ◌++◌, ◌==◌, if◌then◌else◌,
  length, take,
}
use jdepends.Common.Run.{Run, ok, ◌>>=◌}
use jdepends.Utf8.Defs.{Decoded, get_utf8_bytes}
use jdepends.Names.Defs.{entry_at}
use jdepends.ClassFile.Defs.{LoadedClass}
use jdepends.ClassFile.Constants.{same_text}

-- The functions of _ajaiAttrInfoTab
pub data Handler : Type 0 where
  default_attr code_attr constant_value_attr exceptions_attr line_number_table_attr : Handler
  local_var_table_attr source_file_attr inner_classes_attr synthetic_attr deprecated_attr : Handler

abbrev pub code_name : List ℕ
code_name = b'C' ∷ b'o' ∷ b'd' ∷ b'e' ∷ []

abbrev pub constant_value_name : List ℕ
constant_value_name =
    b'C' ∷ b'o' ∷ b'n' ∷ b's' ∷ b't' ∷ b'a' ∷ b'n' ∷ b't' ∷ b'V' ∷ b'a' ∷ b'l' ∷ b'u' ∷ b'e' ∷ []

abbrev pub exceptions_name : List ℕ
exceptions_name = b'E' ∷ b'x' ∷ b'c' ∷ b'e' ∷ b'p' ∷ b't' ∷ b'i' ∷ b'o' ∷ b'n' ∷ b's' ∷ []

abbrev pub line_number_table_name : List ℕ
line_number_table_name =
    b'L' ∷ b'i' ∷ b'n' ∷ b'e' ∷ b'N' ∷ b'u' ∷ b'm' ∷ b'b' ∷ b'e' ∷ b'r' ∷ b'T' ∷ b'a' ∷ b'b' ∷ b'l'
    ∷ b'e' ∷ []

abbrev pub local_variable_table_name : List ℕ
local_variable_table_name =
    b'L' ∷ b'o' ∷ b'c' ∷ b'a' ∷ b'l' ∷ b'V' ∷ b'a' ∷ b'r' ∷ b'i' ∷ b'a' ∷ b'b' ∷ b'l' ∷ b'e' ∷ b'T'
    ∷ b'a' ∷ b'b' ∷ b'l' ∷ b'e' ∷ []

abbrev pub local_variables_name : List ℕ
local_variables_name =
    b'L' ∷ b'o' ∷ b'c' ∷ b'a' ∷ b'l' ∷ b'V' ∷ b'a' ∷ b'r' ∷ b'i' ∷ b'a' ∷ b'b' ∷ b'l' ∷ b'e' ∷ b's'
    ∷ []

abbrev pub source_file_name_text : List ℕ
source_file_name_text = b'S' ∷ b'o' ∷ b'u' ∷ b'r' ∷ b'c' ∷ b'e' ∷ b'F' ∷ b'i' ∷ b'l' ∷ b'e' ∷ []

abbrev pub inner_classes_name : List ℕ
inner_classes_name =
    b'I' ∷ b'n' ∷ b'n' ∷ b'e' ∷ b'r' ∷ b'C' ∷ b'l' ∷ b'a' ∷ b's' ∷ b's' ∷ b'e' ∷ b's' ∷ []

abbrev pub synthetic_name : List ℕ
synthetic_name = b'S' ∷ b'y' ∷ b'n' ∷ b't' ∷ b'h' ∷ b'e' ∷ b't' ∷ b'i' ∷ b'c' ∷ []

abbrev pub deprecated_name : List ℕ
deprecated_name = b'D' ∷ b'e' ∷ b'p' ∷ b'r' ∷ b'e' ∷ b'c' ∷ b'a' ∷ b't' ∷ b'e' ∷ b'd' ∷ []

-- _ajaiAttrInfoTab from its last entry down to its second one
abbrev pub attr_info_tab : List (List ℕ × Handler)
attr_info_tab =
    (deprecated_name, deprecated_attr)
    ∷ (synthetic_name, synthetic_attr)
    ∷ (inner_classes_name, inner_classes_attr)
    ∷ (source_file_name_text, source_file_attr)
    ∷ (local_variables_name, local_var_table_attr)
    ∷ (local_variable_table_name, local_var_table_attr)
    ∷ (line_number_table_name, line_number_table_attr)
    ∷ (exceptions_name, exceptions_attr)
    ∷ (constant_value_name, constant_value_attr)
    ∷ (code_name, code_attr)
    ∷ []

-- The comparison with an entry: both springs count their terminator, and jwLen has 16 bits.
unfoldable pub has_name : List ℕ → List ℕ → Bool
has_name chars name =
    let len = length name + 1 in
    (length chars % 2 ^ 16 == len) && same_text (take len chars) (name ++ 0 ∷ [])

-- The loop of JvmGetAttribHandler
unfoldable pub search_tab : List (List ℕ × Handler) → List ℕ → Handler
search_tab [] chars = default_attr
search_tab ((name, handler) ∷ tab) chars =
    let rest = search_tab tab chars in if has_name chars name then handler else rest

unfoldable pub handler_of : Option Decoded → Option Handler
handler_of none = none
handler_of (some d) = some (search_tab attr_info_tab d.chars)

-- JvmGetAttribHandler
unfoldable pub get_attrib_handler : LoadedClass → ℕ → Run (Option Handler)
get_attrib_handler c index = do
  e ← entry_at c.pool index
  text ← get_utf8_bytes e
  ok (handler_of text)
