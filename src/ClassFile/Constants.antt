-- ===== src/ClassFile/Constants.antt =====
-- JvmHdlAttrConstantValue of jvmloadr.c and the functions that give it a constant of the pool.
use jdepends.Common.{
  ℕ, ◌+◌, ◌*◌, ◌%◌, ◌^◌, Bool, true, false, none, some, List, [], ◌∷◌, ◌==◌, if◌then◌else◌,
}
use jdepends.Common.Run.{Run, ok, fault, ◌>>=◌}
use jdepends.ConstPool.Defs.{Stream, load_word, load_doubleword}
use jdepends.Descriptor.Defs.{FieldInfo}
use jdepends.Names.Defs.{entry_at, bytes_behind}
use jdepends.ClassFile.Defs.{
  Value, jai, jas, jac, jaby, jab, jal, jaf, jad, js, LoadedField, LoadedClass, Host, code_host,
  method_host, field_host, class_host, Handled, class_string_name,
}

-- JvmLdrCVProviderLong: the value behind the tag, and 0 for another tag
unfoldable pub provide_long : LoadedClass → ℕ → Run (Bool × ℕ)
provide_long c index = do
  e ← entry_at c.pool index
  let found = (do
    (high, rest) ← load_doubleword (bytes_behind e)
    (low, _) ← load_doubleword rest
    ok (true, high * 2 ^ 32 + low))
  if e.tag == 5 then found else ok (false, 0)

-- JvmLdrCVProviderInteger
unfoldable pub provide_integer : LoadedClass → ℕ → Run (Bool × ℕ)
provide_integer c index = do
  e ← entry_at c.pool index
  let found = (do (word, _) ← load_doubleword (bytes_behind e); ok (true, word))
  if e.tag == 3 then found else ok (false, 0)

-- JvmLdrCVProviderFloat: its result and the word that it converts; 0.0 for another tag
unfoldable pub provide_float : LoadedClass → ℕ → Run (Bool × ℕ)
provide_float c index = do
  e ← entry_at c.pool index
  let found = (do (word, _) ← load_doubleword (bytes_behind e); ok (true, word))
  if e.tag == 4 then found else ok (false, 0)

-- JvmLdrCVProviderDouble, of which the caller stores the result itself
unfoldable pub provide_double : LoadedClass → ℕ → Run ℕ
provide_double c index = do
  e ← entry_at c.pool index
  let found = (do (_, rest) ← load_doubleword (bytes_behind e); (_, _) ← load_doubleword rest; ok 1)
  if e.tag == 6 then found else ok 0

-- The inner `switch`, by the letter of the type
unfoldable pub integer_value : ℕ → ℕ → Run Value
integer_value letter n =
    if letter == b'I'
    then ok (jai n)
    else if letter == b'S'
    then ok (jas (n % 2 ^ 16))
    else if letter == b'C'
    then ok (jac (n % 2 ^ 16))
    else if letter == b'B'
    then ok (jaby (n % 2 ^ 8))
    else if letter == b'Z'
    then ok (jab n)
    else fault

-- The outer `switch`: whether the handler goes on, and what it stores
unfoldable pub base_value : LoadedClass → ℕ → ℕ → Run (Bool × Value)
base_value c letter index =
    let long = (do (good, n) ← provide_long c index; ok (good, jal n)) in
    let float = (do (good, n) ← provide_float c index; ok (good, jaf n)) in
    let double = (do n ← provide_double c index; ok (true, jad n)) in
    let integer = (do (_, n) ← provide_integer c index; v ← integer_value letter n; ok (true, v)) in
    if letter == b'L'
    then long
    else if letter == b'F'
    then float
    else if letter == b'D'
    then double
    else integer

-- "java/lang/String"
abbrev pub java_lang_string : List ℕ
java_lang_string =
    b'j' ∷ b'a' ∷ b'v' ∷ b'a' ∷ b'/' ∷ b'l' ∷ b'a' ∷ b'n' ∷ b'g' ∷ b'/' ∷ b'S' ∷ b't' ∷ b'r' ∷ b'i'
    ∷ b'n' ∷ b'g' ∷ []

unfoldable pub same_text : List ℕ → List ℕ → Bool
same_text [] [] = true
same_text [] (y ∷ ys) = false
same_text (x ∷ xs) [] = false
same_text (x ∷ xs) (y ∷ ys) = let rest = same_text xs ys in if x == y then rest else false

-- The comparison of jsObjectName with S_JAVA_LANG_STRING, on the text that its spring is asked for by
unfoldable pub is_string_type : FieldInfo → Bool
is_string_type f = elim f.object_text [ none ↦ false | some name ↦ same_text name java_lang_string ]

-- The part of JvmHdlAttrConstantValue behind the length: the result, the field and the class
unfoldable pub constant_value :
    LoadedField → LoadedClass → ℕ → Run (Bool × LoadedField × LoadedClass)
constant_value f c index =
    let base = (do
      (good, v) ← base_value c f.field_type.base_type index
      ok (good, record f { value = v }, c)) in
    let string = (do
      (name, c') ← class_string_name c index
      ok (true, record f { value = js name }, c')) in
    if f.field_type.is_base
    then base
    else if f.field_type.is_object
    then (if is_string_type f.field_type then string else ok (true, f, c))
    else ok (true, f, c)

-- JvmHdlAttrConstantValue for a field: an array keeps the attribute in the stream.
unfoldable pub constant_of : Stream → LoadedField → LoadedClass → Run Handled
constant_of s f c =
    let read = (do
      (len, s1) ← load_doubleword s
      let stored = (do
        (index, s2) ← load_word s1
        (good, f', c') ← constant_value f c index
        ok (if good then (true, s2, field_host f', c') else (false, s1, field_host f', c')))
      if len == 2 then stored else ok (false, s, field_host f, c)) in
    if f.field_type.is_array then ok (true, s, field_host f, c) else read

unfoldable pub handle_constant_value : Stream → Host → LoadedClass → Run Handled
handle_constant_value s (field_host f) c = constant_of s f c
handle_constant_value s (code_host m) c = ok (false, s, code_host m, c)
handle_constant_value s (method_host m) c = ok (false, s, method_host m, c)
handle_constant_value s class_host c = ok (false, s, class_host, c)
