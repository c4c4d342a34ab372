-- ===== src/ClassFile/Faults.antt =====
-- Well-formed class files and the loader of jvmloadr.c: local variables, constants and ranges.
use jdepends.Common.{
  ℕ, zero, suc, ◌+◌, ◌*◌, ◌/◌, ◌%◌, ◌<◌, ◌≡◌, ◌⊎◌, inl, inr, refl, ◌∙◌, true, false, Bool-cases,
  Option-cases, none, some, List, [], ◌∷◌, ◌++◌, length, length-append, get_elem?, ◌==◌, arith,
}
use jdepends.Common.Run.{Run, ok, fault, out_of_fuel, ◌>>=◌, Ends, >>=-Ends}
use jdepends.ConstPool.Defs.{Stream, Entry, load_doubleword, copy_bytes, tag_utf8}
use jdepends.ConstPool.RoundTrip.{copy_bytes-append}
use jdepends.ConstPool.Format.{entry_of, utf8}
use jdepends.Names.Defs.{entry_at, bytes_behind}
use jdepends.Names.Resolve.{HasText}
use jdepends.ClassFile.Defs.{
  LoadedMethod, LoadedField, LoadedClass, ByteCodeInfo, code_host, method_host, field_host,
}
use jdepends.ClassFile.Variables.{
  copy_desc, variable_type, variable_case, read_variables, variables_case, variables_of,
  handle_local_var_table,
}
use jdepends.ClassFile.Constants.{
  provide_integer, integer_value, base_value, constant_value, constant_of, handle_constant_value,
}
use jdepends.ClassFile.Attributes.{constant_value_attr}
use jdepends.ClassFile.Code.{
  is_code_place, with_place, read_ranges, abnormal_exit, code_done, Generic, code_attributes,
  code_of, handle_code, call_handler, next_attribute, attribute_rounds,
}
use jdepends.ClassFile.Format.{word, dword, Selects}
use jdepends.ClassFile.Skip.{
  load_word-word, load_doubleword-dword, entry_at-text, attribute_rounds-Selects,
}

copy_bytes-short : (n : ℕ) (s : Stream) → length s < n → copy_bytes n s ≡ fault
unfolding copy_bytes
copy_bytes-short zero s h = absurd (omega arith)
copy_bytes-short (suc n) [] h = refl
copy_bytes-short (suc n) (b ∷ s) h = rw (copy_bytes-short n s (omega arith)) refl

-- The length is read with its bytes exchanged.
copy_desc-text :
    (text : List ℕ) → 0 < length text → length text < 256 → copy_desc (entry_of (utf8 text)) ≡ fault
unfolding copy_desc
copy_desc-text text some_text short =
    let swapped : length text % 256 * 256 + length text / 256 ≡ length text * 256 = omega arith in
    let long : length (text ++ 0 ∷ []) < length text * 256 =
      omega (arith, length-append text (0 ∷ [])) in
    rw (swapped, copy_bytes-short (length text * 256) (text ++ 0 ∷ []) long) refl

-- The entry of a descriptor: a text of up to 255 characters, or no text at all
abbrev pub IsDescriptorEntry : List Entry → ℕ → Type 0
IsDescriptorEntry pool index =
    ((text : List ℕ) × HasText pool index text × (0 < length text) × (length text < 256))
    ⊎ ((e : Entry) × (get_elem? pool index ≡ some e) × ((e.tag == tag_utf8) ≡ false))

-- The LocalVariableTable of a code, with a first entry whose descriptor is an ASCII text of 1 to 255
-- characters in the pool, ends in a fault: the handler copies from behind the text, since it reads the
-- length with its bytes exchanged. It ends in a fault also if the index of the descriptor is that of a
-- constant that is no text: the code is freed twice.
pub handle_local_var_table-crashes :
    (m : LoadedMethod) (c : LoadedClass) (info : ByteCodeInfo) (len left start size name desc : ℕ)
    (s : Stream)
    → m.code_info ≡ some info
    → IsDescriptorEntry c.pool desc
    → (handle_local_var_table
          (dword len (word (suc left) (word start (word size (word name (word desc s))))))
          (code_host m)
          c
        >>= code_done)
      ≡ fault
unfolding handle_local_var_table variables_of variable_type read_variables variable_case
    variables_case code_done abnormal_exit
handle_local_var_table-crashes m c info len left start size name desc s e d =
    let present : (suc left == 0) ≡ false = ground arith in
    elim d [
      | inl (text, h, low, high) ↦
          rw
            (
              e,
              load_doubleword-dword len _,
              load_word-word (suc left) _,
              present,
              load_word-word start _,
              load_word-word size _,
              load_word-word name _,
              load_word-word desc _,
              entry_at-text c.pool desc text h,
              copy_desc-text text low high,
            )
            refl
      | inr (entry, at, no_text) ↦
          let found : entry_at c.pool desc ≡ ok entry = rw (at, entry_at) refl in
          rw
            (
              e,
              load_doubleword-dword len _,
              load_word-word (suc left) _,
              present,
              load_word-word start _,
              load_word-word size _,
              load_word-word name _,
              load_word-word desc _,
              found,
              no_text,
            )
            refl
    ]

then-fault :
    {A B : Type 0} (r : Run A) (f : A → Run B)
    → Ends r
    → ((a : A) → f a ≡ fault)
    → (r >>= f) ≡ fault
then-fault (ok a) f h k = k a
then-fault fault f h k = refl
then-fault out_of_fuel f h k = absurd h

load_doubleword-Ends : (s : Stream) → Ends (load_doubleword s)
unfolding load_doubleword
load_doubleword-Ends [] = tt
load_doubleword-Ends (a ∷ []) = tt
load_doubleword-Ends (a ∷ b ∷ []) = tt
load_doubleword-Ends (a ∷ b ∷ c ∷ []) = tt
load_doubleword-Ends (a ∷ b ∷ c ∷ d ∷ s) = tt

provide_integer-Ends : (c : LoadedClass) (index : ℕ) → Ends (provide_integer c index)
unfolding provide_integer
provide_integer-Ends c index = elim (Option-cases (get_elem? c.pool index)) [
  | inl e ↦ rw (e, entry_at) tt
  | inr (entry, e) ↦
      rw (e, entry_at)
        (elim (Bool-cases (entry.tag == 3)) [
          | inl t ↦ rw t (>>=-Ends _ _ (load_doubleword-Ends (bytes_behind entry)) (λ p. tt))
          | inr t ↦ rw t tt
        ])
]

-- A base type whose letter is `J`
base_value-long : (c : LoadedClass) (index : ℕ) → base_value c b'J' index ≡ fault
unfolding base_value provide_integer integer_value
base_value-long c index =
    then-fault (provide_integer c index) _ (provide_integer-Ends c index) (λ p. refl)

-- A constant of type long is never read: the handler knows it by the letter `L`, and fails an
-- assertion at the letter `J`, which the descriptor of a long has.
handle_constant_value-long :
    (f : LoadedField) (c : LoadedClass) (index : ℕ) (s : Stream)
    → f.field_type.is_array ≡ false
    → f.field_type.is_base ≡ true
    → f.field_type.base_type ≡ b'J'
    → handle_constant_value (dword 2 (word index s)) (field_host f) c ≡ fault
unfolding handle_constant_value constant_of constant_value
handle_constant_value-long f c index s no_array base long =
    rw
      (
        no_array,
        load_doubleword-dword 2 _,
        load_word-word index s,
        base,
        long,
        base_value-long c index,
      )
      refl

-- For a field of an array type the attribute ConstantValue is accepted and not passed over: what
-- follows its name, its own length first, is read as the attributes that are left.
attribute_rounds-array :
    (generic : Generic) (left name : ℕ) (s : Stream) (f : LoadedField) (c : LoadedClass)
    → Selects c.pool name constant_value_attr
    → f.field_type.is_array ≡ true
    → attribute_rounds generic (suc left) (word name s) (field_host f) c
      ≡ attribute_rounds generic left s (field_host f) c
unfolding call_handler handle_constant_value constant_of next_attribute
attribute_rounds-array generic left name s f c selected array =
    attribute_rounds-Selects generic left name s (field_host f) c constant_value_attr selected
    ∙ rw array refl

get_elem?-length : (xs : List ℕ) → get_elem? xs (length xs) ≡ none
get_elem?-length [] = refl
get_elem?-length (x ∷ xs) = get_elem?-length xs

-- A code whose first exception range goes to the end of the code, as the format allows, is refused,
-- and the method is left without a code.
pub handle_code-refuses_end :
    (generic : Generic) (m : LoadedMethod) (c : LoadedClass) (code : List ℕ)
    (len stack locals left start : ℕ) (s : Stream)
    → is_code_place code start ≡ true
    → handle_code generic
        (dword len (
          word stack (
            word locals
              (dword (length code) (code ++ word (suc left) (word start (word (length code) s)))))))
        (method_host m)
        c
      ≡ ok (false, s, method_host (record m { code_info = none }), c)
unfolding handle_code code_of read_ranges with_place code_attributes abnormal_exit is_code_place
handle_code-refuses_end generic m c code len stack locals left start s e =
    let outside : is_code_place code (length code) ≡ false =
      rw (get_elem?-length code, is_code_place) refl in
    rw
      (
        load_doubleword-dword len _,
        load_word-word stack _,
        load_word-word locals _,
        load_doubleword-dword (length code) _,
        copy_bytes-append code _,
        load_word-word (suc left) _,
        load_word-word start _,
        e,
        load_word-word (length code) _,
        outside,
      )
      refl
