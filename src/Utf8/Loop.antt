-- ===== src/Utf8/Loop.antt =====
-- The loop over the ASCII characters that a text begins with, and the room in the buffer.
use jdepends.Common.{
  ℕ, zero, suc, ◌+◌, ◌-◌, ◌*◌, ◌%◌, ◌^◌, ◌≤◌, ◌<◌, ◌≡◌, refl, ap, ◌∙◌, bit_and, ◌⊎◌, inl, inr, Bool,
  true, false, not, ◌&&◌, some, List, [], ◌∷◌, ◌++◌, append_assoc, append-nil, arith, ltb, leb,
  ◌==◌, if◌then◌else◌, length, length-append, passes_below, passes_below_lem,
}
use jdepends.Common.Run.{Run, ok, fault}
use jdepends.Utf8.Defs.{
  Buffer, grow, put, put_char, Filled, char_case, one_byte, minus_16, decode_loop, nonzero,
}

-- Characters from 1 to 127.
abbrev pub AreAscii : List ℕ → Type 0
AreAscii [] = Unit {0}
AreAscii (c ∷ s) = (0 < c) × (c < 128) × AreAscii s

-- The size of the buffer when `n` characters have been put in.
abbrev pub alloc_at : ℕ → ℕ
alloc_at n = if leb n 127 then 256 else 513

abbrev pub buffer_at : ℕ → List ℕ → Buffer
buffer_at n bytes = record { alloc = alloc_at n; bytes = bytes }

growth : (n : ℕ) → n < 384 → (n ≡ 127) ⊎ ((not (2 * n == 0) && ((2 * n + 3) % 257 == 0)) ≡ false)
growth n l = ground arith

grow-buffer_at :
    (n : ℕ) (bytes : List ℕ)
    → length bytes ≡ 2 * n
    → n < 384
    → grow (buffer_at n bytes) ≡ buffer_at (suc n) bytes
unfolding grow
grow-buffer_at n bytes e l = elim (growth n l) [
  | inl here ↦ rw (e, here) refl
  | inr f ↦
      let same : alloc_at n ≡ alloc_at (suc n) = ground arith in
      rw (e, f) (ap (λ a. record { alloc = a; bytes = bytes }) same)
]

pub put-fits :
    (buf : Buffer) (b : ℕ)
    → length buf.bytes < buf.alloc
    → put buf b ≡ ok (record buf { bytes = buf.bytes ++ b ∷ [] })
unfolding put
put-fits buf b l = let fits : ltb (length buf.bytes) buf.alloc ≡ true = ground arith in rw fits refl

put-full : (buf : Buffer) (b : ℕ) → buf.alloc ≤ length buf.bytes → put buf b ≡ fault
unfolding put
put-full buf b l =
    let full : ltb (length buf.bytes) buf.alloc ≡ false = ground arith in rw full refl

pub put_char-buffer_at :
    (n hi lo : ℕ) (bytes : List ℕ)
    → length bytes ≡ 2 * n
    → n < 256
    → put_char (buffer_at n bytes) hi lo ≡ ok (buffer_at (suc n) (bytes ++ hi ∷ lo ∷ []))
unfolding put_char
put_char-buffer_at n hi lo bytes e l =
    let room : 2 * n + 1 < alloc_at (suc n) = ground arith in
    rw
      (
        grow-buffer_at n bytes e (omega arith),
        put-fits (buffer_at (suc n) bytes) hi (omega arith),
        put-fits (buffer_at (suc n) (bytes ++ hi ∷ [])) lo
            (omega (arith, length-append bytes (hi ∷ []))),
        append_assoc,
      )
      refl

-- There is no room for the second byte of the 257th character.
put_char-overrun :
    (hi lo : ℕ) (bytes : List ℕ) → length bytes ≡ 512 → put_char (buffer_at 256 bytes) hi lo ≡ fault
unfolding put_char
put_char-overrun hi lo bytes e =
    rw
      (
        grow-buffer_at 256 bytes (omega arith) (omega arith),
        put-fits (buffer_at 257 bytes) hi (omega arith),
      )
      (put-full (buffer_at 257 (bytes ++ hi ∷ [])) lo
        (omega (arith, length-append bytes (hi ∷ []))))

pub high_bit_table : passes_below (λ c. bit_and c 0x80 == 0) 128 ≡ true
unfolding passes_below
high_bit_table = refl

pub char_case-ascii :
    (rest : ℕ → List ℕ → Buffer → Bool → Run Filled) (c len : ℕ) (s : List ℕ) (buf : Buffer)
    (ansi : Bool)
    → c < 128
    → char_case rest c len s buf ansi ≡ one_byte rest c len s buf ansi
unfolding char_case
char_case-ascii rest c len s buf ansi l =
    rw (passes_below_lem (λ d. bit_and d 0x80 == 0) 128 c l high_bit_table) refl

abbrev pub widen : List ℕ → List ℕ
widen [] = []
widen (c ∷ s) = 0 ∷ c ∷ widen s

pub decode_loop-step :
    (k len c : ℕ) (s : List ℕ) (buf : Buffer) (ansi : Bool)
    → 0 < len
    → decode_loop (suc k) len (c ∷ s) buf ansi ≡ char_case (decode_loop k) c len (c ∷ s) buf ansi
unfolding decode_loop
decode_loop-step k len c s buf ansi l = let more : (len == 0) ≡ false = ground arith in rw more refl

one_byte-fits :
    (k n m c : ℕ) (text bytes : List ℕ) (ansi : Bool)
    → length bytes ≡ 2 * n
    → n < 256
    → suc m < 2 ^ 16
    → one_byte (decode_loop k) c (suc m) (c ∷ text) (buffer_at n bytes) ansi
      ≡ decode_loop k m text (buffer_at (suc n) (bytes ++ 0 ∷ c ∷ [])) ansi
unfolding one_byte
one_byte-fits k n m c text bytes ansi e l h =
    let fewer : minus_16 (suc m) 1 ≡ m = omega arith in
    rw (put_char-buffer_at n 0 c bytes e l, fewer) refl

pub one_byte-overrun :
    (k len c : ℕ) (s bytes : List ℕ) (ansi : Bool)
    → length bytes ≡ 512
    → one_byte (decode_loop k) c len s (buffer_at 256 bytes) ansi ≡ fault
unfolding one_byte
one_byte-overrun k len c s bytes ansi e = rw (put_char-overrun 0 c bytes e) refl

-- The loop reads the ASCII characters in front of `rest`.
pub decode_loop-prefix :
    (k n m : ℕ) (text rest bytes : List ℕ) (ansi : Bool)
    → AreAscii text
    → length bytes ≡ 2 * n
    → n + length text ≤ 256
    → length text + m < 2 ^ 16
    → length text ≤ k
    → decode_loop k (length text + m) (text ++ rest) (buffer_at n bytes) ansi
      ≡ decode_loop
          (k - length text)
          m
          rest
          (buffer_at (n + length text) (bytes ++ widen text))
          ansi
decode_loop-prefix k n m [] rest bytes ansi a e l h f =
    let (m', k', n') : (0 + m ≡ m) × (k - 0 ≡ k) × (n + 0 ≡ n) =
      (omega arith, omega arith, omega arith) in
    rw (m', k', n', append-nil) refl
decode_loop-prefix zero n m (c ∷ text) rest bytes ansi a e l h f = absurd (omega arith)
decode_loop-prefix (suc k) n m (c ∷ text) rest bytes ansi a e l h f =
    let counted : suc (length text) + m ≡ suc (length text + m) = omega arith in
    let left : k - length text ≡ suc k - suc (length text) = omega arith in
    let put_in : suc n + length text ≡ n + suc (length text) = omega arith in
    let wide : length (bytes ++ 0 ∷ c ∷ []) ≡ 2 * suc n =
      omega (arith, length-append bytes (0 ∷ c ∷ [])) in
    rw counted (
      decode_loop-step k (suc (length text + m)) c (text ++ rest) (buffer_at n bytes) ansi
        (omega arith)
      ∙ char_case-ascii (decode_loop k) c (suc (length text + m)) (c ∷ (text ++ rest))
          (buffer_at n bytes) ansi a.1
      ∙ one_byte-fits k n (length text + m) c (text ++ rest) bytes ansi e (omega arith)
          (omega arith)
      ∙ decode_loop-prefix k (suc n) m text rest (bytes ++ 0 ∷ c ∷ []) ansi a.2 wide (omega arith)
          (omega arith) (omega arith)
      ∙ rw (left, put_in, append_assoc) refl)

pub decode_loop-end :
    (k : ℕ) (s : List ℕ) (buf : Buffer) (ansi : Bool)
    → decode_loop (suc k) 0 s buf ansi ≡ ok (some (buf, ansi))
unfolding decode_loop
decode_loop-end k s buf ansi = refl

pub nonzero-widen : (text : List ℕ) → AreAscii text → nonzero (widen text) ≡ text
nonzero-widen [] a = refl
nonzero-widen (c ∷ text) a =
    let here : (c == 0) ≡ false = ground arith in rw (here, nonzero-widen text a.2) refl

pub length-widen : (text : List ℕ) → length (widen text) ≡ 2 * length text
length-widen [] = refl
length-widen (c ∷ text) = omega (arith, length-widen text)

-- What the loop of a whole text comes to behind the ASCII characters that the text begins with.
pub decode_loop-text :
    (text s : List ℕ)
    → AreAscii text
    → length text ≤ 256
    → length (text ++ s) < 2 ^ 16
    → decode_loop
        (length (text ++ s) + 1)
        (length (text ++ s))
        ((text ++ s) ++ 0 ∷ [])
        (buffer_at 0 [])
        true
      ≡ decode_loop
          (suc (length s))
          (length s)
          (s ++ 0 ∷ [])
          (buffer_at (length text) (widen text))
          true
decode_loop-text text s a l h =
    let fuel : length text + length s + 1 - length text ≡ suc (length s) = omega arith in
    let start : 0 + length text ≡ length text = omega arith in
    rw (length-append text s, append_assoc)
      (decode_loop-prefix (length text + length s + 1) 0 (length s) text (s ++ 0 ∷ []) [] true a
          refl (omega arith) (omega (arith, length-append text s)) (omega arith)
        ∙ rw (fuel, start) refl)
