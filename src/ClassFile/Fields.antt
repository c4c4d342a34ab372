-- ===== src/ClassFile/Fields.antt =====
-- Reading the fields of a class file (JvmLdrReadFields of jvmloadr.c) as the format writes them.
use jdepends.Common.{
  ℕ, suc, ◌^◌, ◌<◌, ◌≡◌, refl, true, false, some, List, [], ◌∷◌, ◌++◌, append_assoc, append-nil,
  map, length, ◌==◌, bit_or, arith,
}
use jdepends.Common.Run.{ok}
use jdepends.ConstPool.Defs.{Stream, Entry}
use jdepends.Descriptor.Defs.{unset}
use jdepends.Descriptor.Grammar.{print, describe, IsValidType}
use jdepends.Descriptor.RoundTrip.{parse_field-print}
use jdepends.Utf8.Ascii.{get_utf8_bytes-ascii}
use jdepends.Names.Resolve.{HasText, c_string_of}
use jdepends.ClassFile.Defs.{LoadedField, unset_value, LoadedClass, Host, field_host, acc_static}
use jdepends.ClassFile.Code.{generic_attrib_handler}
use jdepends.ClassFile.Readers.{
  spring_bytes, read_name, read_descriptor, field_done, field_attributes, field_of, read_field,
  next_member, read_members, fields_case, read_fields,
}
use jdepends.ClassFile.Format.{
  word, OtherAttribute, write_others, AreOthers, FieldDecl, write_field, write_fields,
}
use jdepends.ClassFile.Skip.{load_word-word, read_text, entry_at-text, attribute_rounds-others}

-- The texts of a field stand in the pool, and its attributes are unknown to the loader.
pub record IsField (pool : List Entry) (f : FieldDecl) : Type 0 where
  pub has_name : HasText pool f.field_name_index f.field_name_text
  pub has_desc : HasText pool f.field_desc_index (print f.field_type)
  pub valid : IsValidType f.field_type
  pub others : AreOthers pool f.field_attributes
  pub few : length f.field_attributes < 2 ^ 16

abbrev pub AreFields : List Entry → List FieldDecl → Type 0
AreFields pool [] = Unit {0}
AreFields pool (f ∷ fs) = IsField pool f × AreFields pool fs

-- A field with an attribute becomes static.
abbrev pub flags_with : List OtherAttribute → ℕ → ℕ
flags_with [] flags = flags
flags_with (a ∷ more) flags = bit_or flags acc_static

abbrev pub describe_field : FieldDecl → LoadedField
describe_field f = record {
  field_access_flags = flags_with f.field_attributes f.field_flags;
  field_cp_index = f.field_name_index;
  field_name = some (c_string_of f.field_name_text);
  field_desc = some (c_string_of (print f.field_type));
  field_type = record (describe f.field_type) { status = unset };
  value = unset_value;
}

pub read_name-text :
    (c : LoadedClass) (i : ℕ) (text : List ℕ)
    → HasText c.pool i text
    → read_name c i ≡ ok (some (c_string_of text))
unfolding read_name
read_name-text c i text h = read_text c.pool i text h

pub read_descriptor-text :
    (c : LoadedClass) (i : ℕ) (text : List ℕ)
    → HasText c.pool i text
    → read_descriptor c i ≡ ok (some (some (c_string_of text)))
unfolding read_descriptor
read_descriptor-text c i text h =
    rw (entry_at-text c.pool i text h, get_utf8_bytes-ascii text h.ascii h.short) refl

pub spring_bytes-text :
    (text : List ℕ) → spring_bytes (some (c_string_of text)) ≡ ok (text ++ (0 ∷ 0 ∷ 0 ∷ []))
unfolding spring_bytes
spring_bytes-text text = rw (append_assoc text (0 ∷ []) (0 ∷ 0 ∷ [])) refl

-- The attributes that are left when the count is read
pub generic-others :
    (depth : ℕ) (more : List OtherAttribute) (s : Stream) (h : Host) (c : LoadedClass)
    → AreOthers c.pool more
    → 0 < length more
    → generic_attrib_handler (suc depth) (length more) (write_others more s) h c
      ≡ ok (true, s, h, c)
unfolding generic_attrib_handler
generic-others depth more s h c v some_left =
    let present : (length more == 0) ≡ false = ground arith in
    rw present (attribute_rounds-others (generic_attrib_handler depth) more s h c v)

field_attributes-others :
    (more : List OtherAttribute) (s : Stream) (f : LoadedField) (c : LoadedClass)
    → AreOthers c.pool more
    → field_attributes (word (length more) (write_others more s)) f c
      ≡ ok (some (record f { field_access_flags = flags_with more f.field_access_flags }), s, c)
unfolding field_attributes field_done
field_attributes-others [] s f c v = rw (load_word-word 0 s) refl
field_attributes-others (a ∷ more) s f c v =
    let n = length (a ∷ more) in
    let present : (n == 0) ≡ false = ground arith in
    let static = record f { field_access_flags = bit_or f.field_access_flags acc_static } in
    rw
      (
        load_word-word n (write_others (a ∷ more) s),
        present,
        generic-others 1 (a ∷ more) s (field_host static) c v (omega arith),
      )
      refl

read_field-write :
    (f : FieldDecl) (s : Stream) (c : LoadedClass)
    → IsField c.pool f
    → read_field (write_field f s) c ≡ ok (some (describe_field f), s, c)
unfolding read_field field_of
read_field-write f s c h =
    let text = print f.field_type in
    rw
      (
        load_word-word f.field_flags _,
        load_word-word f.field_name_index _,
        read_name-text c f.field_name_index f.field_name_text h.has_name,
        load_word-word f.field_desc_index _,
        read_descriptor-text c f.field_desc_index text h.has_desc,
        spring_bytes-text text,
        parse_field-print f.field_type unset (0 ∷ 0 ∷ 0 ∷ []) h.valid,
        field_attributes-others f.field_attributes s _ c h.others,
      )
      refl

read_members-fields :
    (fs : List FieldDecl) (s : Stream) (c : LoadedClass) (found : List LoadedField)
    → AreFields c.pool fs
    → read_members read_field (length fs) (write_fields fs s) c found
      ≡ ok (some (found ++ map describe_field fs), s, c)
unfolding read_members next_member
read_members-fields [] s c found v = rw append-nil refl
read_members-fields (f ∷ fs) s c found v =
    rw
      (
        read_field-write f (write_fields fs s) c v.0,
        read_members-fields fs s c (found ++ (describe_field f ∷ [])) v.1,
        append_assoc found (describe_field f ∷ []) (map describe_field fs),
      )
      refl

-- The fields of a class file as the format writes them, each with its texts in the pool and only
-- attributes that the loader does not know, are read in their order with their flags, names,
-- descriptors and types, and the stream is left behind them. A field that has an attribute becomes
-- static, whatever its flags say.
pub read_fields-write :
    (fs : List FieldDecl) (s : Stream) (c : LoadedClass)
    → AreFields c.pool fs
    → read_fields (length fs) (write_fields fs s) c
      ≡ ok (true, s, record c { loaded_fields = map describe_field fs })
unfolding read_fields fields_case
read_fields-write fs s c v = rw (read_members-fields fs s c [] v) refl
