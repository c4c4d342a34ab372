-- ===== src/ClassFile/Skip.antt =====
-- Reading words, and attributes that the loader of jvmloadr.c does not know.
use jdepends.Common.{
  ℕ, suc, ◌+◌, ◌*◌, ◌/◌, ◌%◌, ◌^◌, ◌<◌, ◌≡◌, refl, ◌∙◌, true, some, List, [], ◌∷◌, ◌++◌, length,
  arith,
}
use jdepends.Common.Run.{ok, ◌>>=◌}
use jdepends.ConstPool.Defs.{Stream, Entry, load_word, load_doubleword}
use jdepends.ConstPool.Format.{entry_of, utf8}
use jdepends.Utf8.Defs.{get_utf8_bytes}
use jdepends.Utf8.Ascii.{get_utf8_bytes-ascii}
use jdepends.Names.Defs.{entry_at}
use jdepends.Names.Resolve.{HasText, c_string_of}
use jdepends.ClassFile.Defs.{LoadedClass, Host, advance}
use jdepends.ClassFile.Tables.{handle_default}
use jdepends.ClassFile.Attributes.{Handler, default_attr, handler_of, get_attrib_handler}
use jdepends.ClassFile.Code.{
  Generic, call_handler, attribute_case, next_attribute, attribute_rounds,
}
use jdepends.ClassFile.Format.{word, dword, OtherAttribute, write_others, Selects, AreOthers}

pub load_word-word : (n : ℕ) (s : Stream) → load_word (word n s) ≡ ok (n, s)
unfolding load_word
load_word-word n s = let whole : n / 256 * 256 + n % 256 ≡ n = omega arith in rw whole refl

pub load_doubleword-dword : (n : ℕ) (s : Stream) → load_doubleword (dword n s) ≡ ok (n, s)
unfolding load_doubleword
load_doubleword-dword n s =
    let whole : ((n / 2 ^ 24 * 256 + n / 2 ^ 16 % 256) * 256 + n / 2 ^ 8 % 256) * 256 + n % 256
        ≡ n =
      omega arith in
    rw whole refl

pub advance-append : (bytes s : Stream) → advance (length bytes) (bytes ++ s) ≡ ok s
unfolding advance
advance-append [] s = refl
advance-append (b ∷ bytes) s = advance-append bytes s

pub entry_at-text :
    (pool : List Entry) (i : ℕ) (text : List ℕ)
    → HasText pool i text
    → entry_at pool i ≡ ok (entry_of (utf8 text))
entry_at-text pool i text h = rw (h.entry, entry_at) refl

pub read_text :
    (pool : List Entry) (i : ℕ) (text : List ℕ)
    → HasText pool i text
    → (entry_at pool i >>= get_utf8_bytes) ≡ ok (some (c_string_of text))
read_text pool i text h =
    rw (entry_at-text pool i text h) (get_utf8_bytes-ascii text h.ascii h.short)

pub get_attrib_handler-Selects :
    (c : LoadedClass) (i : ℕ) (handler : Handler)
    → Selects c.pool i handler
    → get_attrib_handler c i ≡ ok (some handler)
unfolding get_attrib_handler handler_of
get_attrib_handler-Selects c i handler h =
    rw
      (
        entry_at-text c.pool i h.text h.has_text,
        get_utf8_bytes-ascii h.text h.has_text.ascii h.has_text.short,
        h.selected,
      )
      refl

handle_default-other :
    (bytes s : Stream) (h : Host) (c : LoadedClass)
    → length bytes + 4 < 2 ^ 32
    → handle_default (dword (length bytes) (bytes ++ s)) h c ≡ ok (true, s, h, c)
unfolding handle_default advance
handle_default-other bytes s h c small =
    let n = length bytes in
    let size : (n + 4) % 2 ^ 32 ≡ suc (suc (suc (suc n))) = omega arith in
    rw (load_doubleword-dword n (bytes ++ s), size, advance-append bytes s) refl

-- The first round of the loop, at a name that selects a handler
pub attribute_rounds-Selects :
    (generic : Generic) (left index : ℕ) (s : Stream) (h : Host) (c : LoadedClass)
    (handler : Handler)
    → Selects c.pool index handler
    → attribute_rounds generic (suc left) (word index s) h c
      ≡ (call_handler generic handler s h c >>= next_attribute (attribute_rounds generic left))
unfolding attribute_rounds attribute_case
attribute_rounds-Selects generic left index s h c handler e =
    rw (load_word-word index s, get_attrib_handler-Selects c index handler e) refl

-- Attributes that the loader does not know are passed over, whatever they belong to.
pub attribute_rounds-others :
    (generic : Generic) (more : List OtherAttribute) (s : Stream) (h : Host) (c : LoadedClass)
    → AreOthers c.pool more
    → attribute_rounds generic (length more) (write_others more s) h c ≡ ok (true, s, h, c)
unfolding call_handler next_attribute
attribute_rounds-others generic [] s h c v = unfold attribute_rounds in refl
attribute_rounds-others generic (a ∷ more) s h c v =
    attribute_rounds-Selects generic (length more) a.attribute_name _ h c default_attr v.0.unknown
    ∙ rw (handle_default-other a.contents (write_others more s) h c v.0.fits)
        (attribute_rounds-others generic more s h c v.1)
