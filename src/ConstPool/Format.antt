-- ===== src/ConstPool/Format.antt =====
-- The constant pool as the class file format defines it, and what it is written as.
use jdepends.Common.{ℕ, suc, ◌+◌, ◌/◌, ◌%◌, ◌<◌, List, [], ◌∷◌, ◌++◌, length}
use jdepends.ConstPool.Defs.{Entry, tag_invalid}

-- Two and four bytes, which are not looked into while the pool is read.
pub record Bytes2 : Type 0 where
  pub hi : ℕ
  pub lo : ℕ

pub data Constant : Type 0 where
  utf8 : List ℕ → Constant
  integer float : Bytes2 → Bytes2 → Constant
  long double : Bytes2 → Bytes2 → Bytes2 → Bytes2 → Constant
  class_ref string : Bytes2 → Constant
  field_ref method_ref interface_method_ref name_and_type : Bytes2 → Bytes2 → Constant

abbrev pub write_2 : Bytes2 → List ℕ → List ℕ
write_2 w s = w.hi ∷ w.lo ∷ s

abbrev pub tag_of : Constant → ℕ
tag_of (utf8 s) = 1
tag_of (integer a b) = 3
tag_of (float a b) = 4
tag_of (long a b c d) = 5
tag_of (double a b c d) = 6
tag_of (class_ref a) = 7
tag_of (string a) = 8
tag_of (field_ref a b) = 9
tag_of (method_ref a b) = 10
tag_of (interface_method_ref a b) = 11
tag_of (name_and_type a b) = 12

-- What stands behind the tag, and behind the length of a text.
abbrev pub body : Constant → List ℕ
body (utf8 s) = s
body (integer a b) = write_2 a (write_2 b [])
body (float a b) = write_2 a (write_2 b [])
body (long a b c d) = write_2 a (write_2 b (write_2 c (write_2 d [])))
body (double a b c d) = write_2 a (write_2 b (write_2 c (write_2 d [])))
body (class_ref a) = write_2 a []
body (string a) = write_2 a []
body (field_ref a b) = write_2 a (write_2 b [])
body (method_ref a b) = write_2 a (write_2 b [])
body (interface_method_ref a b) = write_2 a (write_2 b [])
body (name_and_type a b) = write_2 a (write_2 b [])

-- A text has its length in front.
abbrev pub payload : Constant → List ℕ
payload (utf8 s) = (length s / 256) ∷ (length s % 256) ∷ s
payload c = body c

abbrev pub write_constant : Constant → List ℕ
write_constant c = tag_of c ∷ payload c

abbrev pub write_constants : List Constant → List ℕ
write_constants [] = []
write_constants (c ∷ cs) = write_constant c ++ write_constants cs

-- The format keeps the length of a text in two bytes.
abbrev pub IsValidConstant : Constant → Type 0
IsValidConstant (utf8 s) = length s < 65536
IsValidConstant _ = Unit {0}

abbrev pub AreValidConstants : List Constant → Type 0
AreValidConstants [] = Unit {0}
AreValidConstants (c ∷ cs) = IsValidConstant c × AreValidConstants cs

-- Longs and doubles take two indices of the pool.
abbrev pub slots : Constant → ℕ
slots (long a b c d) = 2
slots (double a b c d) = 2
slots _ = 1

abbrev pub total_slots : List Constant → ℕ
total_slots [] = 0
total_slots (c ∷ cs) = slots c + total_slots cs

abbrev pub dummy : Entry
dummy = record { tag = tag_invalid; len = 0; info = [] }

abbrev pub entry_of : Constant → Entry
entry_of c = record { tag = tag_of c; len = length (body c); info = body c }

abbrev pub entries_of : Constant → List Entry
entries_of (long a b c d) = entry_of (long a b c d) ∷ dummy ∷ []
entries_of (double a b c d) = entry_of (double a b c d) ∷ dummy ∷ []
entries_of c = entry_of c ∷ []

abbrev pub all_entries : List Constant → List Entry
all_entries [] = []
all_entries (c ∷ cs) = entries_of c ++ all_entries cs

-- The count is one more than the number of slots, since index 0 is not used.
abbrev pub write_pool : List Constant → List ℕ → List ℕ
write_pool cs s = let n = suc (total_slots cs) in (n / 256) ∷ (n % 256) ∷ (write_constants cs ++ s)

-- The magic number and the version.
abbrev pub write_head : Bytes2 → Bytes2 → List ℕ → List ℕ
write_head minor major s = 0xca ∷ 0xfe ∷ 0xba ∷ 0xbe ∷ write_2 minor (write_2 major s)
