-- ===== src/Interpreter/Numbers.antt =====
-- Machine integers as the handlers of Jvmrt.c use them: a JAVA_INT is read from a 32-bit word, a
-- JAVA_LONG from two. A signed value stands for its bit pattern, and arithmetic wraps around.
use jdepends.Common.{
  ℕ, suc, ◌+◌, ◌-◌, ◌*◌, ◌/◌, ◌%◌, ◌^◌, Bool, true, false, ltb, ◌==◌, if◌then◌else◌,
}

pub data ℤ : Type 0 where
  pos : ℕ → ℤ
  negsuc : ℕ → ℤ

-- The signed reading of a bit pattern of `n + 1` bits
unfoldable pub signed : ℕ → ℕ → ℤ
signed n w = if ltb w (2 ^ n) then pos w else negsuc (2 ^ suc n - suc w)

-- `<` on signed values
abbrev pub ltz : ℤ → ℤ → Bool
ltz (pos a) (pos b) = ltb a b
ltz (pos a) (negsuc b) = false
ltz (negsuc a) (pos b) = true
ltz (negsuc a) (negsuc b) = ltb b a

abbrev pub eqz : ℤ → ℤ → Bool
eqz (pos a) (pos b) = a == b
eqz (pos a) (negsuc b) = false
eqz (negsuc a) (pos b) = false
eqz (negsuc a) (negsuc b) = a == b

-- `(hi << 32) | lo`, also WORDS_TO_LONG; the two parts have no bit in common.
unfoldable pub long_of : ℕ → ℕ → ℕ
long_of hi lo = (hi * 2 ^ 32 + lo) % 2 ^ 64

-- HI_JWORD
unfoldable pub hi_word : ℕ → ℕ
hi_word v = v / 2 ^ 32 % 2 ^ 32

-- LO_JWORD
unfoldable pub lo_word : ℕ → ℕ
lo_word v = v % 2 ^ 32

-- The conversion of an int to a signed type of `n + 1` bits, and back to a word
unfoldable pub narrow : ℕ → ℕ → ℕ
narrow n w = let low = w % 2 ^ suc n in if ltb low (2 ^ n) then low else low + (2 ^ 32 - 2 ^ suc n)
