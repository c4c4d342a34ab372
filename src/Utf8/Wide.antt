-- ===== src/Utf8/Wide.antt =====
-- Texts with characters of two and three bytes.
use jdepends.Common.{
  ℕ, ◌+◌, ◌-◌, ◌*◌, ◌/◌, ◌%◌, ◌^◌, ◌≤◌, ◌<◌, ◌≡◌, refl, bit_and, Bool, true, false, ◌&&◌, none,
  some, List, [], ◌∷◌, ◌++◌, arith, ltb, leb, ◌==◌, ==→eq, if◌then◌else◌, length, length-append,
  passes_below, passes_below_lem,
}
use jdepends.Common.Run.{ok}
use jdepends.ConstPool.Format.{entry_of, utf8}
use jdepends.Utf8.Defs.{
  Buffer, char_case, decode_loop, Rest, three_bytes, has_bits, finish, get_utf8_bytes,
}
use jdepends.Utf8.Loop.{
  AreAscii, buffer_at, widen, decode_loop-text, decode_loop-step, decode_loop-end, high_bit_table,
  put_char-buffer_at,
}

abbrev if_high : ℕ → Bool → Bool
if_high a b = if leb 128 a then b else true

lead_table : passes_below (λ a. if_high a (has_bits a 0x80 && has_bits a 0xe0)) 256 ≡ true
unfolding passes_below
lead_table = refl

both : (x y : Bool) → (x && y) ≡ true → (x ≡ true) × (y ≡ true)
both true y e = (refl, e)
both false y e = cc

high_bits : (a : ℕ) → 128 ≤ a → a < 256 → (has_bits a 0x80 ≡ true) × (has_bits a 0xe0 ≡ true)
high_bits a l h =
    let high : leb 128 a ≡ true = ground arith in
    let e : (has_bits a 0x80 && has_bits a 0xe0) ≡ true =
      rw high at (
        passes_below_lem (λ a. if_high a (has_bits a 0x80 && has_bits a 0xe0)) 256 a h
          lead_table) in
    both _ _ e

-- The mask 0xe0 takes the top bit in, so that the branch for two bytes is never reached.
char_case-high :
    (rest : Rest) (a len : ℕ) (s : List ℕ) (buf : Buffer) (ansi : Bool)
    → 128 ≤ a
    → a < 256
    → char_case rest a len s buf ansi ≡ three_bytes rest a len s buf
unfolding char_case
char_case-high rest a len s buf ansi l h = let (e, f) = high_bits a l h in rw (e, f) refl

abbrev pub BeginsAscii : List ℕ → Type 0
BeginsAscii [] = Unit {0}
BeginsAscii (c ∷ s) = c < 128

three_bytes-ascii :
    (rest : Rest) (a b len : ℕ) (s : List ℕ) (buf : Buffer)
    → 128 ≤ b
    → b < 256
    → BeginsAscii s
    → three_bytes rest a len (a ∷ b ∷ (s ++ 0 ∷ [])) buf ≡ ok none
unfolding three_bytes
three_bytes-ascii rest a b len [] buf l h t = let (e, f) = high_bits b l h in rw e refl
three_bytes-ascii rest a b len (c ∷ s) buf l h t =
    let (e, f) = high_bits b l h in
    rw (e, passes_below_lem (λ d. bit_and d 0x80 == 0) 128 c t high_bit_table) refl

-- A character of two bytes behind at most 256 ASCII characters, with an ASCII character or the end
-- of the text behind it, makes the decoding fail, though it is well-formed.
get_utf8_bytes-two_bytes :
    (text s : List ℕ) (a b : ℕ)
    → AreAscii text
    → length text ≤ 256
    → length s < 65000
    → 192 ≤ a
    → a < 224
    → 128 ≤ b
    → b < 192
    → BeginsAscii s
    → get_utf8_bytes (entry_of (utf8 (text ++ a ∷ b ∷ s))) ≡ ok none
unfolding get_utf8_bytes finish
get_utf8_bytes-two_bytes text s a b ascii l h la ha lb hb t =
    let n = length (a ∷ b ∷ s) in
    rw
      (
        decode_loop-text text (a ∷ b ∷ s) ascii l (omega (arith, length-append text (a ∷ b ∷ s))),
        decode_loop-step n n a (b ∷ (s ++ 0 ∷ [])) (buffer_at (length text) (widen text)) true
            (omega arith),
        char_case-high (decode_loop n) a n (a ∷ b ∷ (s ++ 0 ∷ []))
            (buffer_at (length text) (widen text)) true (omega arith) (omega arith),
        three_bytes-ascii (decode_loop n) a b n s (buffer_at (length text) (widen text)) lb
            (omega arith) t,
      )
      refl

abbrev if_between : ℕ → ℕ → ℕ → Bool → Bool
if_between lo hi a b = if leb lo a && ltb a hi then b else true

lead_value_table : passes_below (λ a. if_between 224 240 a (bit_and a 0x0f == a - 224)) 256 ≡ true
unfolding passes_below
lead_value_table = refl

tail_value_table : passes_below (λ a. if_between 128 192 a (bit_and a 0x3f == a - 128)) 256 ≡ true
unfolding passes_below
tail_value_table = refl

lead_value : (a : ℕ) → 224 ≤ a → a < 240 → bit_and a 0x0f ≡ a - 224
lead_value a l h =
    let inside : (leb 224 a && ltb a 240) ≡ true = ground arith in
    ==→eq (bit_and a 0x0f) (a - 224) (
      rw inside at (
        passes_below_lem (λ a. if_between 224 240 a (bit_and a 0x0f == a - 224)) 256 a (omega arith)
          lead_value_table))

tail_value : (a : ℕ) → 128 ≤ a → a < 192 → bit_and a 0x3f ≡ a - 128
tail_value a l h =
    let inside : (leb 128 a && ltb a 192) ≡ true = ground arith in
    ==→eq (bit_and a 0x3f) (a - 128) (
      rw inside at (
        passes_below_lem (λ a. if_between 128 192 a (bit_and a 0x3f == a - 128)) 256 a (omega arith)
          tail_value_table))

-- A text of one character of three bytes is decoded to the two bytes of a number in which the bits
-- of the second byte are added to those of the third, and not moved in front of them.
get_utf8_bytes-three_bytes :
    (a b c : ℕ)
    → 224 ≤ a
    → a < 240
    → 128 ≤ b
    → b < 192
    → 128 ≤ c
    → c < 192
    → let value = (a - 224) * 2 ^ 12 + (b - 128) + (c - 128) in
      get_utf8_bytes (entry_of (utf8 (a ∷ b ∷ c ∷ [])))
      ≡ ok (some (record { chars = (value / 256) ∷ (value % 256) ∷ []; is_c_string = false }))
unfolding get_utf8_bytes finish three_bytes
get_utf8_bytes-three_bytes a b c la ha lb hb lc hc =
    let s = a ∷ b ∷ c ∷ 0 ∷ [] in
    let value = (a - 224) * 2 ^ 12 + (b - 128) + (c - 128) in
    let small : value % 2 ^ 16 ≡ value = omega arith in
    let (eb, fb) = high_bits b lb (omega arith) in
    let (ec, fc) = high_bits c lc (omega arith) in
    rw
      (
        decode_loop-step 3 3 a (b ∷ c ∷ 0 ∷ []) (buffer_at 0 []) true (omega arith),
        char_case-high (decode_loop 3) a 3 s (buffer_at 0 []) true (omega arith) (omega arith),
        lead_value a la ha,
        tail_value b lb hb,
        tail_value c lc hc,
        eb,
        ec,
        small,
        put_char-buffer_at 0 (value / 256) (value % 256) [] refl (omega arith),
        decode_loop-end 2 (0 ∷ []) (buffer_at 1 ((value / 256) ∷ (value % 256) ∷ [])) false,
      )
      refl
