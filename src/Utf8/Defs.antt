-- ===== src/Utf8/Defs.antt =====
-- JvmLdrGetUtf8Bytes of jvmloadr.c. The bytes of an entry are followed by one NUL, as the reader of
-- the pool allocates them; reading behind it is a fault, and so is writing behind the buffer.
use jdepends.Common.{
  ℕ, zero, suc, ◌+◌, ◌-◌, ◌*◌, ◌/◌, ◌%◌, ◌^◌, bit_and, Bool, true, false, not, ◌&&◌, Option, none,
  some, List, [], ◌∷◌, ◌++◌, ltb, ◌==◌, if◌then◌else◌, length, get_elem?, drop,
}
use jdepends.Common.Run.{Run, ok, fault, out_of_fuel, ◌>>=◌}
use jdepends.ConstPool.Defs.{Entry, tag_utf8}

-- CHUNK
abbrev pub chunk : ℕ
chunk = 256

-- pjbyString: the size of its allocation, and the bytes below jwNextIndex. The index is 16 bits
-- wide in the code, and the buffer ends long before 2^16.
pub record Buffer : Type 0 where
  pub alloc : ℕ
  pub bytes : List ℕ

-- `if ( jwNextIndex && (!((jwNextIndex + 3) % (CHUNK + 1))))` with its JvmMemRealloc
unfoldable pub grow : Buffer → Buffer
grow buf =
    let next = length buf.bytes in
    if not (next == 0) && ((next + 3) % (chunk + 1) == 0)
    then record buf { alloc = next + chunk + 3 }
    else buf

-- `pjbyString[ jwNextIndex++ ] = b`
unfoldable pub put : Buffer → ℕ → Run Buffer
put buf b =
    if ltb (length buf.bytes) buf.alloc
    then ok (record buf { bytes = buf.bytes ++ b ∷ [] })
    else fault

unfoldable pub put_char : Buffer → ℕ → ℕ → Run Buffer
put_char buf hi lo = do buf' ← put (grow buf) hi; put buf' lo

-- `pjbyBytes[i]`
abbrev pub byte_of : List ℕ → ℕ → Run ℕ
byte_of s i = elim (get_elem? s i) [ none ↦ fault | some b ↦ ok b ]

-- `b & mask` as a condition
abbrev pub has_bits : ℕ → ℕ → Bool
has_bits b mask = not (bit_and b mask == 0)

-- A buffer that is filled, and jbAnsiFlag; or JVM_FALSE.
abbrev pub Filled : Type 0
Filled = Option (Buffer × Bool)

-- What the rest of the loop is called with: jwLen, pjbyBytes, the buffer and jbAnsiFlag.
abbrev pub Rest : Type 0
Rest = ℕ → List ℕ → Buffer → Bool → Run Filled

-- jwLen is 16 bits wide.
abbrev pub minus_16 : ℕ → ℕ → ℕ
minus_16 len n = (len + 2 ^ 16 - n) % 2 ^ 16

-- The branch `jby1 & 0xe0`
unfoldable pub three_bytes : Rest → ℕ → ℕ → List ℕ → Buffer → Run Filled
three_bytes rest jby1 len s buf = do
  jby2 ← byte_of s 1
  jby3 ← byte_of s 2
  let jw = (bit_and jby1 0x0f * 2 ^ 12 + bit_and jby2 0x3f + bit_and jby3 0x3f) % 2 ^ 16
  let next = (do
    buf' ← put_char buf (jw / 256) (jw % 256)
    rest (minus_16 len 3) (drop 3 s) buf' false)
  if has_bits jby2 0x80 && has_bits jby3 0x80 then next else ok none

-- The branch `jby1 & 0xc0`
unfoldable pub two_bytes : Rest → ℕ → ℕ → List ℕ → Buffer → Run Filled
two_bytes rest jby1 len s buf = do
  jby2 ← byte_of s 1
  let jw = (bit_and jby1 0x1f * 2 ^ 6 + bit_and jby2 0x3f) % 2 ^ 16
  let next = (do
    buf' ← put_char buf (jw / 256) (jw % 256)
    rest (minus_16 len 2) (drop 2 s) buf' false)
  if has_bits jby2 0x80 then next else ok none

unfoldable pub one_byte : Rest → ℕ → ℕ → List ℕ → Buffer → Bool → Run Filled
one_byte rest jby1 len s buf ansi = do
  buf' ← put_char buf 0 jby1
  rest (minus_16 len 1) (drop 1 s) buf' ansi

-- The body of the loop at a byte
unfoldable pub char_case : Rest → ℕ → ℕ → List ℕ → Buffer → Bool → Run Filled
char_case rest jby1 len s buf ansi =
    if not (has_bits jby1 0x80)
    then one_byte rest jby1 len s buf ansi
    else if has_bits jby1 0xe0
    then three_bytes rest jby1 len s buf
    else if has_bits jby1 0xc0
    then two_bytes rest jby1 len s buf
    else ok none

unfoldable pub decode_loop : ℕ → Rest
decode_loop zero len s buf ansi = out_of_fuel
decode_loop (suc k) len s buf ansi =
    let round = byte_of s 0 >>= λ jby1. char_case (decode_loop k) jby1 len s buf ansi in
    if len == 0 then ok (some (buf, ansi)) else round

-- The spring that JvmSpringFromBytes makes: its bytes, and whether it is a C string.
pub record Decoded : Type 0 where
  pub chars : List ℕ
  pub is_c_string : Bool

abbrev pub nonzero : List ℕ → List ℕ
nonzero [] = []
nonzero (b ∷ s) = if b == 0 then nonzero s else b ∷ nonzero s

-- From the loop's end on: an ASCII text loses its zero bytes and gains a terminator.
unfoldable pub finish : Filled → Run (Option Decoded)
finish none = ok none
finish (some (buf, false)) = ok (some (record { chars = buf.bytes; is_c_string = false }))
finish (some (buf, true)) =
    let narrow = nonzero buf.bytes in
    if ltb (length narrow) (1 + length buf.bytes / 2)
    then ok (some (record { chars = narrow ++ 0 ∷ []; is_c_string = true }))
    else fault

-- Enough for every text: each round takes a byte of it.
abbrev pub text_fuel : Entry → ℕ
text_fuel e = e.len + 1

-- JvmLdrGetUtf8Bytes, with JvmGetUtf8Info
unfoldable pub get_utf8_bytes : Entry → Run (Option Decoded)
get_utf8_bytes e =
    let decoded = (do
      filled ←
          decode_loop (text_fuel e) e.len (e.info ++ 0 ∷ []) (record { alloc = chunk; bytes = [] })
            true
      finish filled) in
    if e.tag == tag_utf8 then decoded else ok none
