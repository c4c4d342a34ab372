-- ===== src/ConstPool/Refusals.antt =====
-- What the loader does at a tag that the format does not know, behind constants that it does.
use jdepends.Common.{
  ℕ, suc, ◌+◌, ◌-◌, ◌*◌, ◌/◌, ◌%◌, ◌^◌, ◌<◌, ◌≤◌, ◌≡◌, ◌≢◌, ◌⊎◌, inl, inr, refl, ◌∙◌, true, false,
  List, [], ◌∷◌, ◌++◌, arith, ltb, ◌==◌, length, length-append,
}
use jdepends.Common.Run.{ok, fault}
use jdepends.ConstPool.Defs.{
  Stream, read_entry, is_bad_tag, class_format_error, read_pool, load_word, load_doubleword,
  add_dummy, check_magic, check_version, pool_fuel, load_pool, load_head,
}
use jdepends.ConstPool.Format.{
  Constant, Bytes2, AreValidConstants, total_slots, write_constants, write_head, dummy, all_entries,
}
use jdepends.ConstPool.RoundTrip.{
  full, read_pool-prefix, length-all_entries, length-write_constants,
}

-- A class file that announces `n` slots, whose constants `cs` take fewer, and that goes on with `s`.
abbrev pub cut_head : Bytes2 → Bytes2 → ℕ → List Constant → Stream → Stream
cut_head minor major n cs s =
    write_head minor major ((n / 256) ∷ (n % 256) ∷ (write_constants cs ++ s))

-- The pool is read up to `s`, and the loop goes on there.
load_head-prefix :
    (minor major : Bytes2) (n : ℕ) (cs : List Constant) (s : Stream)
    → AreValidConstants cs
    → suc (total_slots cs) ≤ n
    → n < 2 ^ 16
    → load_head (cut_head minor major n cs s)
      ≡ read_pool
          (pool_fuel (write_constants cs ++ s) - length cs)
          n
          s
          (full (dummy ∷ all_entries cs))
unfolding load_head check_magic load_doubleword check_version load_word load_pool add_dummy
load_head-prefix minor major n cs s v l h =
    let whole : n / 256 * 256 + n % 256 ≡ n = omega arith in
    let present : (n == 0) ≡ false = ground arith in
    rw (whole, present)
      (read_pool-prefix (pool_fuel (write_constants cs ++ s)) n cs s (dummy ∷ []) v (omega arith) h
        (omega (arith, length-append (write_constants cs) s, length-write_constants cs)))

prefix_fuel :
    (cs : List Constant) (s : Stream)
    → pool_fuel (write_constants cs ++ s) - length cs
      ≡ suc (length (write_constants cs ++ s) - length cs)
prefix_fuel cs s = omega (arith, length-append (write_constants cs) s, length-write_constants cs)

room :
    (n : ℕ) (cs : List Constant)
    → suc (total_slots cs) < n
    → ltb (length (dummy ∷ all_entries cs)) n ≡ true
room n cs l = ground (arith, length-all_entries cs)

unknown_tag : (tag : ℕ) → (tag ≡ 0) ⊎ (tag ≡ 2) ⊎ (13 < tag) → is_bad_tag tag ≡ true
unfolding is_bad_tag
unknown_tag tag (inl e) = ground arith
unknown_tag tag (inr (inl e)) = ground arith
unknown_tag tag (inr (inr l)) = ground arith

-- Behind any valid constants of a pool that announces more, the tags 0, 2 and all above 13 make
-- the loader refuse the class with a class format error.
load_head-bad_tag :
    (minor major : Bytes2) (n tag : ℕ) (cs : List Constant) (s : Stream)
    → AreValidConstants cs
    → suc (total_slots cs) < n
    → n < 2 ^ 16
    → (tag ≡ 0) ⊎ (tag ≡ 2) ⊎ (13 < tag)
    → load_head (cut_head minor major n cs (tag ∷ s)) ≡ ok class_format_error
unfolding read_pool
load_head-bad_tag minor major n tag cs s v l h t =
    load_head-prefix minor major n cs (tag ∷ s) v (omega arith) h
    ∙ rw (prefix_fuel cs (tag ∷ s), room n cs l, unknown_tag tag t) refl

-- Behind any valid constants of a pool that announces more, the tag 13, which the format does not
-- know, passes the test of the tag: a function is called that stands behind the end of the table.
load_head-tag_13 :
    (minor major : Bytes2) (n : ℕ) (cs : List Constant) (s : Stream)
    → AreValidConstants cs
    → suc (total_slots cs) < n
    → n < 2 ^ 16
    → load_head (cut_head minor major n cs (13 ∷ s)) ≡ fault
unfolding read_pool read_entry is_bad_tag
load_head-tag_13 minor major n cs s v l h =
    load_head-prefix minor major n cs (13 ∷ s) v (omega arith) h
    ∙ rw (prefix_fuel cs (13 ∷ s), room n cs l) refl

-- A file of at least four bytes that do not spell the magic number is refused with a class format
-- error, as is a genuine one that announces no constants.
load_head-not_a_class :
    (a b c d : ℕ) (minor major : Bytes2) (s : Stream)
    → ((a * 256 + b) * 256 + c) * 256 + d ≢ 0xcafebabe
    → (load_head (a ∷ b ∷ c ∷ d ∷ s) ≡ ok class_format_error)
      × (load_head (write_head minor major (0 ∷ 0 ∷ s)) ≡ ok class_format_error)
unfolding load_head check_magic load_doubleword check_version load_word load_pool
load_head-not_a_class a b c d minor major s h =
    let other : (((a * 256 + b) * 256 + c) * 256 + d == 0xcafebabe) ≡ false = ground arith in
    (rw other refl, refl)
