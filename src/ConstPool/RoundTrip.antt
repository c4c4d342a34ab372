-- ===== src/ConstPool/RoundTrip.antt =====
-- The loader reads back the constant pool that the format writes.
use jdepends.Common.{
  ℕ, zero, suc, ◌+◌, ◌-◌, ◌*◌, ◌/◌, ◌%◌, ◌^◌, ◌≤◌, ◌<◌, ◌≡◌, refl, ap, ◌∙◌, true, false, List, [],
  ◌∷◌, ◌++◌, append-nil, append_assoc, arith, ltb, ◌==◌, length, length-append, take,
}
use jdepends.Common.Run.{ok}
use jdepends.ConstPool.Defs.{
  Stream, Entry, Pool, load_word, load_doubleword, copy_bytes, add_entry, add_dummy,
  add_new_cp_type, const_utf8, const_wide, read_entry, is_bad_tag, loaded, read_pool, pool_fuel,
  load_pool, check_magic, check_version, load_head,
}
use jdepends.ConstPool.Format.{
  Constant, utf8, long, double, write_constant, write_constants, IsValidConstant, AreValidConstants,
  slots, total_slots, dummy, entry_of, entries_of, all_entries, body, tag_of, payload, Bytes2,
  write_pool, write_head,
}

-- A pool whose size is that of its vector.
abbrev pub full : List Entry → Pool
full es = record { entries = es; size = length es }

pub take-length : {A : Type 0} (xs : List A) → take (length xs) xs ≡ xs
take-length [] = refl
take-length (x ∷ xs) = ap (◌∷◌ x) (take-length xs)

add_entry-full :
    (es : List Entry) (e : Entry)
    → length es + 1 < 2 ^ 16
    → add_entry (full es) e ≡ full (es ++ e ∷ [])
unfolding add_entry
add_entry-full es e h = rw (take-length es, length-append) (ground arith)

pub copy_bytes-append : (bytes s : Stream) → copy_bytes (length bytes) (bytes ++ s) ≡ ok (bytes, s)
unfolding copy_bytes
copy_bytes-append [] s = refl
copy_bytes-append (b ∷ bytes) s = rw (copy_bytes-append bytes s)

const_utf8-write :
    (text s : List ℕ) (es : List Entry)
    → length text < 65536
    → length es + 1 < 2 ^ 16
    → const_utf8 (payload (utf8 text) ++ s) (full es)
      ≡ ok (full (es ++ entry_of (utf8 text) ∷ []), s)
unfolding const_utf8 load_word
const_utf8-write text s es v h =
    let whole : length text / 256 * 256 + length text % 256 ≡ length text = omega arith in
    rw (whole, copy_bytes-append text s, add_entry-full es (entry_of (utf8 text)) h)

add_new_cp_type-full :
    (tag : ℕ) (bytes s : List ℕ) (es : List Entry)
    → length es + 1 < 2 ^ 16
    → add_new_cp_type tag (length bytes) (bytes ++ s) (full es)
      ≡ ok (full (es ++ record { tag = tag; len = length bytes; info = bytes } ∷ []), s)
unfolding add_new_cp_type
add_new_cp_type-full tag bytes s es h = rw (copy_bytes-append bytes s, add_entry-full es _ h)

const_wide-full :
    (tag : ℕ) (bytes s : List ℕ) (es : List Entry)
    → length bytes ≡ 8
    → length es + 2 < 2 ^ 16
    → const_wide tag (bytes ++ s) (full es)
      ≡ ok (full (es ++ record { tag = tag; len = length bytes; info = bytes } ∷ dummy ∷ []), s)
unfolding const_wide add_dummy
const_wide-full tag bytes s es e h =
    let entry : Entry = record { tag = tag; len = length bytes; info = bytes } in
    let room : length (es ++ entry ∷ []) + 1 < 2 ^ 16 =
      omega (arith, length-append es (entry ∷ [])) in
    rw (
      ← e,
      add_new_cp_type-full tag bytes s es (omega arith),
      add_entry-full (es ++ entry ∷ []) dummy room,
      append_assoc,
    )

read_entry-write :
    (c : Constant) (s : Stream) (es : List Entry)
    → IsValidConstant c
    → length es + slots c < 2 ^ 16
    → read_entry (tag_of c) (payload c ++ s) (full es) ≡ ok (full (es ++ entries_of c), s)
unfolding read_entry
read_entry-write (utf8 text) s es v h = const_utf8-write text s es v h
read_entry-write (long a b c d) s es v h = const_wide-full 5 (body (long a b c d)) s es refl h
read_entry-write (double a b c d) s es v h = const_wide-full 6 (body (double a b c d)) s es refl h
read_entry-write c s es v h = add_new_cp_type-full (tag_of c) (body c) s es h

tag_of-good : (c : Constant) → is_bad_tag (tag_of c) ≡ false
unfolding is_bad_tag
tag_of-good (utf8 s) = refl
tag_of-good _ = refl

slots-pos : (c : Constant) → 0 < slots c
slots-pos (long a b c d) = omega arith
slots-pos _ = omega arith

length-entries_of : (c : Constant) → length (entries_of c) ≡ slots c
length-entries_of (long a b c d) = refl
length-entries_of _ = refl

read_pool-end :
    (k count : ℕ) (s : Stream) (es : List Entry)
    → length es ≡ count
    → 0 < k
    → read_pool k count s (full es) ≡ ok (loaded (full es, s))
unfolding read_pool
read_pool-end zero count s es e h = absurd (omega arith)
read_pool-end (suc k) count [] es e h =
    let done : ltb (length es) count ≡ false = ground arith in rw done
read_pool-end (suc k) count (b ∷ s) es e h =
    let done : ltb (length es) count ≡ false = ground arith in rw done

read_pool-step :
    (k count : ℕ) (c : Constant) (s : Stream) (es : List Entry)
    → IsValidConstant c
    → length es + slots c ≤ count
    → count < 2 ^ 16
    → read_pool (suc k) count (write_constant c ++ s) (full es)
      ≡ read_pool k count s (full (es ++ entries_of c))
unfolding read_pool
read_pool-step k count c s es v h l =
    let more : ltb (length es) count ≡ true = ground (arith, slots-pos c) in
    rw (more, tag_of-good c, read_entry-write c s es v (omega arith))

-- The constants in front of `s` are read before anything else is.
pub read_pool-prefix :
    (k count : ℕ) (cs : List Constant) (s : Stream) (es : List Entry)
    → AreValidConstants cs
    → length es + total_slots cs ≤ count
    → count < 2 ^ 16
    → length cs ≤ k
    → read_pool k count (write_constants cs ++ s) (full es)
      ≡ read_pool (k - length cs) count s (full (es ++ all_entries cs))
read_pool-prefix k count [] s es v e l h =
    let same : k - 0 ≡ k = omega arith in rw (append-nil, same)
read_pool-prefix zero count (c ∷ cs) s es v e l h = absurd (omega arith)
read_pool-prefix (suc k) count (c ∷ cs) s es v e l h =
    let room : length (es ++ entries_of c) + total_slots cs ≤ count =
      omega (arith, length-append es (entries_of c), length-entries_of c) in
    let fewer : k - length cs ≡ suc k - suc (length cs) = omega arith in
    rw append_assoc (
      read_pool-step k count c (write_constants cs ++ s) es v.0 (omega arith) l
      ∙ read_pool-prefix k count cs s (es ++ entries_of c) v.1 room l (omega arith)
      ∙ rw (append_assoc, fewer))

pub length-all_entries : (cs : List Constant) → length (all_entries cs) ≡ total_slots cs
length-all_entries [] = refl
length-all_entries (c ∷ cs) = omega (
  arith,
  length-append (entries_of c) (all_entries cs),
  length-entries_of c,
  length-all_entries cs,
)

pub length-write_constants : (cs : List Constant) → length cs ≤ length (write_constants cs)
length-write_constants [] = omega arith
length-write_constants (c ∷ cs) =
    omega (arith, length-append (payload c) (write_constants cs), length-write_constants cs)

load_pool-write :
    (cs : List Constant) (s : Stream)
    → AreValidConstants cs
    → suc (total_slots cs) < 2 ^ 16
    → load_pool (write_pool cs s) ≡ ok (loaded (full (dummy ∷ all_entries cs), s))
unfolding load_pool load_word add_dummy
load_pool-write cs s v l =
    let n = suc (total_slots cs) in
    let whole : n / 256 * 256 + n % 256 ≡ n = omega arith in
    let present : (n == 0) ≡ false = ground arith in
    let fuel = pool_fuel (write_constants cs ++ s) in
    let enough : length cs < fuel =
      omega (arith, length-append (write_constants cs) s, length-write_constants cs) in
    rw (whole, present)
      (read_pool-prefix fuel n cs s (dummy ∷ []) v (omega arith) l (omega arith)
        ∙ read_pool-end (fuel - length cs) n s (dummy ∷ all_entries cs)
            (omega (arith, length-all_entries cs)) (omega arith))

-- The head of a class file as the format writes it, with any version and fewer than 65535 slots,
-- is accepted. Each constant is recorded at its index with its tag and its bytes, index 0 and the
-- second index of every long and double hold an empty entry, and the stream is left behind the
-- pool.
pub load_head-write :
    (minor major : Bytes2) (cs : List Constant) (s : Stream)
    → AreValidConstants cs
    → suc (total_slots cs) < 2 ^ 16
    → load_head (write_head minor major (write_pool cs s))
      ≡ ok (loaded (full (dummy ∷ all_entries cs), s))
unfolding load_head check_magic load_doubleword check_version load_word
load_head-write minor major cs s v l = load_pool-write cs s v l
