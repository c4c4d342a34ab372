-- ===== src/Utf8/Examples.antt =====
-- Texts of each kind.
use jdepends.Common.{ℕ, zero, suc, ◌≡◌, refl, true, some, List, [], ◌∷◌, ◌++◌, replicate, arith}
use jdepends.Common.Run.{ok, fault}
use jdepends.ConstPool.Format.{entry_of, utf8}
use jdepends.Utf8.Defs.{get_utf8_bytes}
use jdepends.Utf8.Loop.{AreAscii}
use jdepends.Utf8.Ascii.{get_utf8_bytes-ascii, get_utf8_bytes-overrun}

abbrev word : List ℕ
word = b'C' ∷ b'o' ∷ []

word-AreAscii : AreAscii word
word-AreAscii = ground arith

xs-AreAscii : (n : ℕ) → AreAscii (replicate n b'x')
xs-AreAscii zero = tt
xs-AreAscii (suc n) = (omega arith, omega arith, xs-AreAscii n)

get_utf8_bytes-ascii_example :
    get_utf8_bytes (entry_of (utf8 word))
    ≡ ok (some (record { chars = word ++ 0 ∷ []; is_c_string = true }))
get_utf8_bytes-ascii_example = get_utf8_bytes-ascii word word-AreAscii (omega arith)

get_utf8_bytes-overrun_example :
    get_utf8_bytes (entry_of (utf8 (replicate 256 b'x' ++ b'y' ∷ []))) ≡ fault
get_utf8_bytes-overrun_example =
    get_utf8_bytes-overrun (replicate 256 b'x') [] b'y' (xs-AreAscii 256) refl (omega arith)
      (omega arith)
