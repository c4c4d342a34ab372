-- ===== src/Names/Resolve.antt =====
-- A reference to a method is resolved to its names.
use jdepends.Common.{
  ℕ, ◌+◌, ◌*◌, ◌≤◌, ◌≡◌, refl, true, Option, some, List, [], ◌∷◌, ◌++◌, ltb, length, get_elem?,
  get_elem?-lt, arith,
}
use jdepends.Common.Run.{Run, ok, fault, out_of_fuel}
use jdepends.ConstPool.Defs.{Entry}
use jdepends.ConstPool.Format.{Bytes2, entry_of, utf8, class_ref, method_ref, name_and_type}
use jdepends.Utf8.Defs.{Decoded}
use jdepends.Utf8.Loop.{AreAscii}
use jdepends.Utf8.Ascii.{get_utf8_bytes-ascii}
use jdepends.Names.Defs.{
  Cache, entry_at, name_index, decode_name, load_name, get_string_name, checked_name,
  resolve_method_ref,
}
use jdepends.Names.Cache.{IsCache, Agrees, name_at, get_string_name-Agrees}

abbrev pub c_string_of : List ℕ → Decoded
c_string_of text = record { chars = text ++ 0 ∷ []; is_c_string = true }

abbrev pub number : Bytes2 → ℕ
number w = w.hi * 256 + w.lo

-- The entry at an index is an ASCII text of at most 256 characters.
pub record HasText (pool : List Entry) (index : ℕ) (text : List ℕ) : Type 0 where
  pub entry : get_elem? pool index ≡ some (entry_of (utf8 text))
  pub ascii : AreAscii text
  pub short : length text ≤ 256

-- The entry at an index is a CONSTANT_Methodref that is laid out as the format asks for: a class, and
-- a name and type, each with its texts.
pub record HasMethodRef (pool : List Entry) (index : ℕ) (class_name name desc : List ℕ)
    : Type 0 where
  pub class_index : Bytes2
  pub class_text : Bytes2
  pub type_index : Bytes2
  pub name_text : Bytes2
  pub desc_text : Bytes2
  pub ref : get_elem? pool index ≡ some (entry_of (method_ref class_index type_index))
  pub class_entry : get_elem? pool (number class_index) ≡ some (entry_of (class_ref class_text))
  pub type_entry :
      get_elem? pool (number type_index) ≡ some (entry_of (name_and_type name_text desc_text))
  pub has_class : HasText pool (number class_text) class_name
  pub has_name : HasText pool (number name_text) name
  pub has_desc : HasText pool (number desc_text) desc

pub inside :
    (pool : List Entry) (i : ℕ) {e : Entry} → get_elem? pool i ≡ some e → ltb i (length pool) ≡ true
inside pool i e = ground (arith, get_elem?-lt pool i e)

entry_at-lem :
    (pool : List Entry) (i : ℕ) {e : Entry} → get_elem? pool i ≡ some e → entry_at pool i ≡ ok e
entry_at-lem pool i e = rw (e, entry_at) refl

decode_name-text :
    (pool : List Entry) (i : ℕ) (text : List ℕ)
    → HasText pool i text
    → decode_name pool (some i) ≡ ok (some (c_string_of text))
unfolding decode_name
decode_name-text pool i text h =
    rw (inside pool i h.entry, entry_at-lem pool i h.entry)
      (get_utf8_bytes-ascii text h.ascii h.short)

load_name-text :
    (pool : List Entry) (i : ℕ) (text : List ℕ)
    → HasText pool i text
    → load_name pool i ≡ ok (some (c_string_of text))
unfolding load_name name_index
load_name-text pool i text h = rw (entry_at-lem pool i h.entry) (decode_name-text pool i text h)

pub load_name-class :
    (pool : List Entry) (i : ℕ) (w : Bytes2) (text : List ℕ)
    → get_elem? pool i ≡ some (entry_of (class_ref w))
    → HasText pool (number w) text
    → load_name pool i ≡ ok (some (c_string_of text))
unfolding load_name name_index
load_name-class pool i w text e h =
    rw (entry_at-lem pool i e) (decode_name-text pool (number w) text h)

name_at-text :
    (pool : List Entry) (i : ℕ) (text : List ℕ)
    → HasText pool i text
    → name_at pool i ≡ ok (some (c_string_of text))
name_at-text pool i text h = rw (inside pool i h.entry, load_name-text pool i text h) refl

name_at-class :
    (pool : List Entry) (i : ℕ) (w : Bytes2) (text : List ℕ)
    → get_elem? pool i ≡ some (entry_of (class_ref w))
    → HasText pool (number w) text
    → name_at pool i ≡ ok (some (c_string_of text))
name_at-class pool i w text e h = rw (inside pool i e, load_name-class pool i w text e h) refl

-- A name that is found, and the dictionary behind it
Finds : List Entry → Run (Option Decoded × Cache) → List ℕ → Type 0
Finds pool r text = (cache : Cache) × (r ≡ ok (some (c_string_of text), cache)) × IsCache pool cache

Agrees-Finds :
    (pool : List Entry) (r : Run (Option Decoded × Cache)) (text : List ℕ)
    → Agrees pool (ok (some (c_string_of text))) r
    → Finds pool r text
unfolding Finds
Agrees-Finds pool (ok p) text h = (p.1, cc h.0, h.1)
Agrees-Finds pool fault text h = cc
Agrees-Finds pool out_of_fuel text h = cc

checked_name-Finds :
    (pool : List Entry) (cache : Cache) (i : ℕ) (text : List ℕ) {e : Entry}
    → IsCache pool cache
    → get_elem? pool i ≡ some e
    → name_at pool i ≡ ok (some (c_string_of text))
    → Finds pool (checked_name pool cache i) text
unfolding checked_name
checked_name-Finds pool cache i text c e n = rw (inside pool i e) (
    Agrees-Finds pool (get_string_name pool cache i) text
      (rw n at (get_string_name-Agrees pool cache i c)))

-- A well-formed CONSTANT_Methodref whose texts are ASCII of at most 256 characters is resolved to the
-- names of its class, its name and its descriptor, whatever a good dictionary has kept; the
-- dictionary stays good.
pub resolve_method_ref-names :
    (pool : List Entry) (cache : Cache) (index : ℕ) (class_name name desc : List ℕ)
    → IsCache pool cache
    → HasMethodRef pool index class_name name desc
    → (cache' : Cache) × (resolve_method_ref pool cache index
        ≡ ok (
          (some (c_string_of class_name), some (c_string_of name), some (c_string_of desc)),
          cache',
        ))
      × IsCache pool cache'
unfolding resolve_method_ref Finds
resolve_method_ref-names pool cache index class_name name desc c h =
    let (cache_1, e_1, c_1) =
      checked_name-Finds pool cache (number h.class_index) class_name c h.class_entry (
        name_at-class pool (number h.class_index) h.class_text class_name h.class_entry
          h.has_class) in
    let (cache_2, e_2, c_2) =
      checked_name-Finds pool cache_1 (number h.name_text) name c_1 h.has_name.entry
        (name_at-text pool (number h.name_text) name h.has_name) in
    let (cache_3, e_3, c_3) =
      checked_name-Finds pool cache_2 (number h.desc_text) desc c_2 h.has_desc.entry
        (name_at-text pool (number h.desc_text) desc h.has_desc) in
    (
      cache_3,
      rw
          (
            entry_at-lem pool index h.ref,
            e_1,
            entry_at-lem pool (number h.type_index) h.type_entry,
            e_2,
            e_3,
          )
          refl,
      c_3,
    )
