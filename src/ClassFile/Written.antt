-- ===== src/ClassFile/Written.antt =====
-- A whole class file as the class file format defines it, what it is written as, and what is to be
-- loaded from it.
use jdepends.Common.{ℕ, ◌≡◌, ◌≢◌, Option, none, some, List, [], ◌∷◌, map, length, get_elem?, bit_or}
use jdepends.ConstPool.Defs.{Entry}
use jdepends.ConstPool.Format.{Bytes2, entry_of, class_ref}
use jdepends.Names.Defs.{Cache}
use jdepends.Names.Resolve.{HasText, c_string_of, number}
use jdepends.Utf8.Defs.{Decoded}
use jdepends.ClassFile.Defs.{LoadedClass}
use jdepends.ClassFile.Loader.{acc_super}
use jdepends.ClassFile.Format.{
  word, OtherAttribute, write_others, AreOthers, FieldDecl, write_fields, MethodDecl, write_methods,
}
use jdepends.ClassFile.Fields.{AreFields, describe_field}
use jdepends.ClassFile.Methods.{AreMethods, loaded_method}

-- A class that is referred to: its index and its name
abbrev pub Reference : Type 0
Reference = ℕ × List ℕ

pub record ClassDecl : Type 0 where
  pub flags : ℕ
  pub this_class : Reference
  pub super_class : Option Reference
  pub interfaces : List ℕ
  pub fields : List FieldDecl
  pub methods : List MethodDecl
  pub attributes : List OtherAttribute

abbrev pub super_index : Option Reference → ℕ
super_index none = 0
super_index (some r) = r.0

abbrev pub write_indices : List ℕ → List ℕ → List ℕ
write_indices [] s = s
write_indices (i ∷ is) s = word i (write_indices is s)

abbrev pub write_members : ClassDecl → List ℕ → List ℕ
write_members d s = word (length d.fields) (
    write_fields d.fields (
      word (length d.methods)
        (write_methods d.methods (word (length d.attributes) (write_others d.attributes s)))))

abbrev pub write_class : ClassDecl → List ℕ → List ℕ
write_class d s = word d.flags (
    word d.this_class.0 (
      word (super_index d.super_class)
        (word (length d.interfaces) (write_indices d.interfaces (write_members d s)))))

-- The entry at an index is a class with the name.
pub record HasClass (pool : List Entry) (r : Reference) : Type 0 where
  pub text_index : Bytes2
  pub entry : get_elem? pool r.0 ≡ some (entry_of (class_ref text_index))
  pub has_text : HasText pool (number text_index) r.1

abbrev pub HasSuper : List Entry → Reference → Option Reference → Type 0
HasSuper pool this none = Unit {0}
HasSuper pool this (some r) = HasClass pool r × (r.0 ≢ 0) × (this.0 ≢ r.0)

pub record IsClass (pool : List Entry) (d : ClassDecl) : Type 0 where
  pub has_this : HasClass pool d.this_class
  pub has_super : HasSuper pool d.this_class d.super_class
  pub are_fields : AreFields pool d.fields
  pub are_methods : AreMethods pool d.methods
  pub others : AreOthers pool d.attributes

abbrev pub super_text : Option Reference → Option Decoded
super_text none = none
super_text (some r) = some (c_string_of r.1)

-- The names that are kept while the class is read, the latest in front
abbrev pub names_kept : Reference → Option Reference → Cache
names_kept this none = (this.0, c_string_of this.1) ∷ []
names_kept this (some r) = (r.0, c_string_of r.1) ∷ (this.0, c_string_of this.1) ∷ []

abbrev pub described_class : List Entry → ClassDecl → LoadedClass
described_class pool d = record {
  pool = pool;
  cp_entry_count = length pool;
  cache = names_kept d.this_class d.super_class;
  class_flags = bit_or (bit_or 0 d.flags) acc_super;
  class_name = some (c_string_of d.this_class.1);
  super_class_name = super_text d.super_class;
  interfaces_cp_index = d.interfaces;
  loaded_fields = map describe_field d.fields;
  loaded_methods = map loaded_method d.methods;
  source_file_name = none;
  inner_classes = [];
}
