-- ===== src/Descriptor/Grammar.antt =====
-- Descriptors as the class file format defines them, how they are written, and what the parser is
-- to record of them.
use jdepends.Common.{
  ℕ, suc, ◌+◌, ◌%◌, ◌^◌, ◌<◌, ◌≢◌, Bool, true, false, Option, none, some, List, [], ◌∷◌, ◌++◌,
  length,
}
use jdepends.Descriptor.Defs.{FieldInfo, status_ok, max_name}

pub data Base : Type 0 where
  byte char double float int long short boolean : Base

pub data FieldType : Type 0 where
  base : Base → FieldType
  object : List ℕ → FieldType
  array : FieldType → FieldType

abbrev pub letter : Base → ℕ
letter byte = b'B'
letter char = b'C'
letter double = b'D'
letter float = b'F'
letter int = b'I'
letter long = b'J'
letter short = b'S'
letter boolean = b'Z'

-- in words of 32 bits
abbrev pub base_width : Base → ℕ
base_width double = 2
base_width long = 2
base_width _ = 1

abbrev pub print : FieldType → List ℕ
print (base b) = letter b ∷ []
print (object name) = b'L' ∷ (name ++ b';' ∷ [])
print (array t) = b'[' ∷ print t

abbrev pub IsNameBytes : List ℕ → Type 0
IsNameBytes [] = Unit {0}
IsNameBytes (c ∷ s) = (c ≢ 0) × (c ≢ b';') × IsNameBytes s

-- A name must leave room for the rounds of the scan; there is no bound on the dimensions here.
abbrev pub IsValidType : FieldType → Type 0
IsValidType (base b) = Unit {0}
IsValidType (object name) = IsNameBytes name × (length name < max_name)
IsValidType (array t) = IsValidType t

abbrev pub dimensions : FieldType → ℕ
dimensions (array t) = suc (dimensions t)
dimensions _ = 0

abbrev pub width : FieldType → ℕ
width (base b) = base_width b
width _ = 1

abbrev pub is_array_type : FieldType → Bool
is_array_type (array t) = true
is_array_type _ = false

abbrev pub is_base_element : FieldType → Bool
is_base_element (base b) = true
is_base_element (object name) = false
is_base_element (array t) = is_base_element t

abbrev pub is_object_element : FieldType → Bool
is_object_element (base b) = false
is_object_element (object name) = true
is_object_element (array t) = is_object_element t

abbrev pub element_letter : FieldType → ℕ
element_letter (base b) = letter b
element_letter (object name) = b'L'
element_letter (array t) = element_letter t

abbrev pub element_name : FieldType → Option (List ℕ)
element_name (base b) = none
element_name (object name) = some name
element_name (array t) = element_name t

abbrev pub element_name_len : FieldType → ℕ
element_name_len (base b) = 0
element_name_len (object name) = length name + 1
element_name_len (array t) = element_name_len t

-- The dimension is kept in 16 bits.
abbrev pub describe : FieldType → FieldInfo
describe t = record {
  is_base = is_base_element t;
  is_object = is_object_element t;
  is_array = is_array_type t;
  base_type = element_letter t;
  width_in_words = width t;
  array_dimension = dimensions t % 2 ^ 16;
  object_text = element_name t;
  object_name_len = element_name_len t;
  status = status_ok;
}
