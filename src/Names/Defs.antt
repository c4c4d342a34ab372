-- ===== src/Names/Defs.antt =====
-- Names of a class, looked up in its constant pool and kept in its dictionary pdNCPDict, which is a
-- list of indices with their names, the latest in front. jwCPEntryCount is the length of the pool.
-- A failed `assert` is a fault.
use jdepends.Common.{
  ℕ, ◌+◌, ◌*◌, ◌/◌, ◌%◌, ◌||◌, Option, none, some, List, [], ◌∷◌, ◌++◌, ltb, ◌==◌, if◌then◌else◌,
  length, get_elem?,
}
use jdepends.Common.Run.{Run, ok, fault, ◌>>=◌}
use jdepends.ConstPool.Defs.{Entry, tag_utf8, tag_invalid}
use jdepends.Utf8.Defs.{Decoded, get_utf8_bytes}

abbrev pub tag_class : ℕ
tag_class = 7

abbrev pub tag_string : ℕ
tag_string = 8

abbrev pub tag_method_ref : ℕ
tag_method_ref = 10

abbrev pub tag_interface_method_ref : ℕ
tag_interface_method_ref = 11

abbrev pub Cache : Type 0
Cache = List (ℕ × Decoded)

-- GetFromDictionary
unfoldable pub from_dictionary : Cache → ℕ → Option Decoded
from_dictionary [] key = none
from_dictionary (n ∷ ns) key = if n.0 == key then some n.1 else from_dictionary ns key

-- The bytes behind _JVM_Constant_Pool in an entry: a text has its length in front, low byte first,
-- and a NUL behind it; an empty entry has three zero bytes.
abbrev pub bytes_behind : Entry → List ℕ
bytes_behind e =
    if e.tag == tag_utf8
    then (e.len % 256) ∷ (e.len / 256) ∷ (e.info ++ 0 ∷ [])
    else if e.tag == tag_invalid
    then 0 ∷ 0 ∷ 0 ∷ []
    else e.info

-- `LD_WORD( p )`, where this is left behind `p`
abbrev pub first_word : List ℕ → Run ℕ
first_word (a ∷ b ∷ s) = ok (a * 256 + b)
first_word _ = fault

abbrev pub second_word : List ℕ → Run ℕ
second_word (a ∷ b ∷ s) = first_word s
second_word _ = fault

-- ppjcpConstantPool[ index ]
abbrev pub entry_at : List Entry → ℕ → Run Entry
entry_at pool index = elim (get_elem? pool index) [ none ↦ fault | some e ↦ ok e ]

-- The `switch` of JvmLdrGetStringName: jwNameIndex, if the tag has one.
unfoldable pub name_index : Entry → ℕ → Run (Option ℕ)
name_index e index =
    let referred = first_word (bytes_behind e) >>= λ i. ok (some i) in
    if (e.tag == tag_string) || (e.tag == tag_class)
    then referred
    else ok (if e.tag == tag_utf8 then some index else none)

-- What follows the `switch`: the text at jwNameIndex is decoded.
unfoldable pub decode_name : List Entry → Option ℕ → Run (Option Decoded)
decode_name pool none = ok none
decode_name pool (some i) =
    let text = entry_at pool i >>= get_utf8_bytes in if ltb i (length pool) then text else ok none

-- The branch of JvmLdrGetStringName for an index that the dictionary does not have
unfoldable pub load_name : List Entry → ℕ → Run (Option Decoded)
load_name pool index = do e ← entry_at pool index; i ← name_index e index; decode_name pool i

-- AddToDictionary, where a name was decoded
abbrev pub remember : Cache → ℕ → Option Decoded → Cache
remember cache index none = cache
remember cache index (some name) = (index, name) ∷ cache

abbrev pub Named : Type 0
Named = Option Decoded × Cache

abbrev pub cached_or_loaded : List Entry → Cache → ℕ → Option Decoded → Run Named
cached_or_loaded pool cache index (some name) = ok (some name, cache)
cached_or_loaded pool cache index none =
    load_name pool index >>= λ name. ok (name, remember cache index name)

-- JvmLdrGetStringName
unfoldable pub get_string_name : List Entry → Cache → ℕ → Run Named
get_string_name pool cache index =
    let found = cached_or_loaded pool cache index (from_dictionary cache index) in
    if ltb index (length pool) then found else ok (none, cache)

-- `assert( index < pClass->jwCPEntryCount )`, then JvmLdrGetStringName
unfoldable pub checked_name : List Entry → Cache → ℕ → Run Named
checked_name pool cache index =
    let name = get_string_name pool cache index in if ltb index (length pool) then name else fault

-- JvmResolveMethodRef: the names of the class and the method, and the descriptor
unfoldable pub resolve_method_ref :
    List Entry → Cache → ℕ → Run ((Option Decoded × Option Decoded × Option Decoded) × Cache)
resolve_method_ref pool cache index = do
  ref ← entry_at pool index
  let resolved = (do
    class_index ← first_word (bytes_behind ref)
    (class_name, cache_1) ← checked_name pool cache class_index
    type_index ← second_word (bytes_behind ref)
    name_and_type ← entry_at pool type_index
    method_index ← first_word (bytes_behind name_and_type)
    (method_name, cache_2) ← checked_name pool cache_1 method_index
    desc_index ← second_word (bytes_behind name_and_type)
    (method_desc, cache_3) ← checked_name pool cache_2 desc_index
    ok ((class_name, method_name, method_desc), cache_3))
  if (ref.tag == tag_method_ref) || (ref.tag == tag_interface_method_ref) then resolved else fault

-- The first loop of JvmDGetReferredClasses, from an index on
unfoldable pub class_indices : List Entry → ℕ → List ℕ
class_indices [] index = []
class_indices (e ∷ pool) index =
    if e.tag == tag_class
    then index ∷ class_indices pool (index + 1)
    else class_indices pool (index + 1)

-- The second loop
unfoldable pub get_names : List Entry → Cache → List ℕ → Run (List (Option Decoded) × Cache)
get_names pool cache [] = ok ([], cache)
get_names pool cache (i ∷ is) = do
  (name, cache_1) ← get_string_name pool cache i
  (names, cache_2) ← get_names pool cache_1 is
  ok (name ∷ names, cache_2)

-- JvmDGetReferredClasses: all_referred_classes, whose length is referred_classes_count
unfoldable pub get_referred_classes : List Entry → Cache → Run (List (Option Decoded) × Cache)
get_referred_classes pool cache = get_names pool cache (class_indices pool 0)
