-- ===== src/Utf8/Ascii.antt =====
-- ASCII texts: those of up to 256 characters are decoded, longer ones overrun the buffer.
use jdepends.Common.{
  ℕ, ◌+◌, ◌/◌, ◌≤◌, ◌<◌, ◌≡◌, refl, true, some, List, [], ◌∷◌, ◌++◌, append-nil, arith, ltb, length,
  length-append,
}
use jdepends.Common.Run.{ok, fault}
use jdepends.ConstPool.Format.{entry_of, utf8}
use jdepends.Utf8.Defs.{decode_loop, finish, get_utf8_bytes}
use jdepends.Utf8.Loop.{
  AreAscii, buffer_at, widen, decode_loop-text, decode_loop-step, decode_loop-end, char_case-ascii,
  one_byte-overrun, nonzero-widen, length-widen,
}

-- An ASCII text of at most 256 characters, as the reader of the pool keeps it, is decoded to a C
-- string of the same characters.
pub get_utf8_bytes-ascii :
    (text : List ℕ)
    → AreAscii text
    → length text ≤ 256
    → get_utf8_bytes (entry_of (utf8 text))
      ≡ ok (some (record { chars = text ++ 0 ∷ []; is_c_string = true }))
unfolding get_utf8_bytes finish
get_utf8_bytes-ascii text a l =
    let room : ltb (length text) (1 + length (widen text) / 2) ≡ true =
      ground (arith, length-widen text) in
    rw
      (
        ← append-nil text,
        decode_loop-text text [] a l (omega (arith, length-append text [])),
        decode_loop-end 0 (0 ∷ []) (buffer_at (length text) (widen text)) true,
        nonzero-widen text a,
        room,
        append-nil,
      )
      refl

-- An ASCII text of more than 256 characters is written behind the end of the buffer, whatever
-- follows the 257th.
pub get_utf8_bytes-overrun :
    (text s : List ℕ) (c : ℕ)
    → AreAscii text
    → length text ≡ 256
    → c < 128
    → length s < 65279
    → get_utf8_bytes (entry_of (utf8 (text ++ c ∷ s))) ≡ fault
unfolding get_utf8_bytes
get_utf8_bytes-overrun text s c a e l h =
    rw
      (
        decode_loop-text text (c ∷ s) a (omega arith) (omega (arith, length-append text (c ∷ s))),
        e,
        decode_loop-step (length (c ∷ s)) (length (c ∷ s)) c (s ++ 0 ∷ [])
            (buffer_at 256 (widen text)) true (omega arith),
        char_case-ascii (decode_loop (length (c ∷ s))) c (length (c ∷ s)) (c ∷ (s ++ 0 ∷ []))
            (buffer_at 256 (widen text)) true l,
        one_byte-overrun (length (c ∷ s)) (length (c ∷ s)) c (c ∷ (s ++ 0 ∷ [])) (widen text) true
            (omega (arith, length-widen text)),
      )
      refl
