-- ===== src/ConstPool/Defs.antt =====
-- Reading the head of a class file: magic number, version, and the constant pool. A stream is the
-- rest of the class file's bytes, and reading behind it is a fault. Memory is never short.
use jdepends.Common.{
  ℕ, zero, suc, ◌+◌, ◌*◌, ◌%◌, ◌^◌, Bool, true, false, ◌||◌, List, [], ◌∷◌, ◌++◌, ltb, ◌==◌,
  if◌then◌else◌, length, take,
}
use jdepends.Common.Run.{Run, ok, fault, out_of_fuel, ◌>>=◌}

abbrev pub Stream : Type 0
Stream = List ℕ

-- JVM_MAX_CP_TYPES, JVM_CP_TAG_INVALID and the tags that the loader treats apart
abbrev pub max_cp_types : ℕ
max_cp_types = 12

abbrev pub tag_invalid : ℕ
tag_invalid = 0xff

abbrev pub tag_utf8 : ℕ
tag_utf8 = 1

-- _JVM_Constant_Pool with the bytes behind it; the length word that JvmCPTypeConstUtf8 also keeps
-- there is `len` once more.
pub record Entry : Type 0 where
  pub tag : ℕ
  pub len : ℕ
  pub info : List ℕ

-- The vector of entries and its 16-bit size.
pub record Pool : Type 0 where
  pub entries : List Entry
  pub size : ℕ

-- Both bytes are below 256, so that `|` adds.
unfoldable pub load_word : Stream → Run (ℕ × Stream)
load_word (a ∷ b ∷ s) = ok (a * 256 + b, s)
load_word _ = fault

unfoldable pub load_doubleword : Stream → Run (ℕ × Stream)
load_doubleword (a ∷ b ∷ c ∷ d ∷ s) = ok (((a * 256 + b) * 256 + c) * 256 + d, s)
load_doubleword _ = fault

-- JvmMemCpy of `n` bytes from the stream, and the stream behind them.
unfoldable pub copy_bytes : ℕ → Stream → Run (List ℕ × Stream)
copy_bytes zero s = ok ([], s)
copy_bytes (suc n) [] = fault
copy_bytes (suc n) (b ∷ s) = copy_bytes n s >>= λ p. ok (b ∷ p.0, p.1)

-- JvmLdrAddNewCPInfoToCPVector: the vector is given room for one entry above `size`.
unfoldable pub add_entry : Pool → Entry → Pool
add_entry p e = record { entries = take p.size p.entries ++ e ∷ []; size = (p.size + 1) % 2 ^ 16 }

-- JvmAddDummyCPEntry
unfoldable pub add_dummy : Pool → Pool
unfolding add_entry
add_dummy p = add_entry p (record { tag = tag_invalid; len = 0; info = [] })

abbrev pub Read : Type 0
Read = Pool × Stream

-- JvmAddNewCPType, behind the tag byte
unfoldable pub add_new_cp_type : ℕ → ℕ → Stream → Pool → Run Read
add_new_cp_type tag n s p = do
  (bytes, s') ← copy_bytes n s
  ok (add_entry p (record { tag = tag; len = n; info = bytes }), s')

-- JvmCPTypeConstUtf8, behind the tag byte
unfoldable pub const_utf8 : Stream → Pool → Run Read
const_utf8 s p = do
  (n, s') ← load_word s
  (bytes, s'') ← copy_bytes n s'
  ok (add_entry p (record { tag = tag_utf8; len = n; info = bytes }), s'')

-- JvmCPTypeConstLong and JvmCPTypeConstDouble: a second, empty entry follows.
unfoldable pub const_wide : ℕ → Stream → Pool → Run Read
const_wide tag s p = do (p', s') ← add_new_cp_type tag 8 s p; ok (add_dummy p', s')

-- The table ajpctCPFnTbl at `tag - 1`: its second entry is null, and it has twelve.
unfoldable pub read_entry : ℕ → Stream → Pool → Run Read
read_entry tag s p =
    if tag == 1
    then const_utf8 s p
    else if (tag == 3) || (tag == 4)
    then add_new_cp_type tag 4 s p
    else if (tag == 5) || (tag == 6)
    then const_wide tag s p
    else if (tag == 7) || (tag == 8)
    then add_new_cp_type tag 2 s p
    else if (tag == 9) || (tag == 10) || (tag == 11) || (tag == 12)
    then add_new_cp_type tag 4 s p
    else fault

-- `jbyTag > JVM_MAX_CP_TYPES + 1 || jbyTag == 2 || jbyTag <= 0`
unfoldable pub is_bad_tag : ℕ → Bool
is_bad_tag tag = ltb (max_cp_types + 1) tag || (tag == 2) || (tag == 0)

-- A pool that was read, or EXC_JAVACLASSFORMATERROR with everything freed.
pub data Loaded (A : Type 0) : Type 0 where
  loaded : A → Loaded A
  class_format_error : Loaded A
  version_not_supported : Loaded A

-- The loop `for ( ; jwCPSize < jwSaveCPCount; )` of JvmLdrLoadNewClass
unfoldable pub read_pool : ℕ → ℕ → Stream → Pool → Run (Loaded Read)
read_pool zero count s p = out_of_fuel
read_pool (suc k) count [] p = if ltb p.size count then fault else ok (loaded (p, []))
read_pool (suc k) count (tag ∷ s) p =
    let next = (do (p', s') ← read_entry tag s p; read_pool k count s' p') in
    let checked = if is_bad_tag tag then ok class_format_error else next in
    if ltb p.size count then checked else ok (loaded (p, tag ∷ s))

abbrev pub empty_pool : Pool
empty_pool = record { entries = []; size = 0 }

-- Enough for every stream: each round takes a byte.
abbrev pub pool_fuel : Stream → ℕ
pool_fuel s = length s + 1

-- JvmLdrLoadNewClass from the count of the constant pool to the end of the pool
unfoldable pub load_pool : Stream → Run (Loaded Read)
load_pool s = do
  (count, s') ← load_word s
  if count == 0
      then ok class_format_error
      else read_pool (pool_fuel s') count s' (add_dummy empty_pool)

-- JvmLdrCheckMagic
unfoldable pub check_magic : Stream → Run (Bool × Stream)
check_magic s = do
  (magic, s') ← load_doubleword s
  ok (if magic == 0xcafebabe then (true, s') else (false, s))

-- JvmLdrCheckVersion: both numbers are skipped.
unfoldable pub check_version : Stream → Run (Bool × Stream)
check_version s = do (minor, s') ← load_word s; (major, s'') ← load_word s'; ok (true, s'')

-- JvmLdrLoadNewClass from its call of JvmLdrCheckMagic to the end of the constant pool
unfoldable pub load_head : Stream → Run (Loaded Read)
load_head s = do
  (genuine, s') ← check_magic s
  if genuine
      then (do
        (supported, s'') ← check_version s'
        if supported then load_pool s'' else ok version_not_supported)
      else ok class_format_error
