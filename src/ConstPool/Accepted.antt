-- ===== src/ConstPool/Accepted.antt =====
-- The whole read of a pool: it ends, it accepts only well-formed pools, and what it refuses.
use jdepends.Common.{
  ℕ, zero, suc, ◌+◌, ◌*◌, ◌^◌, ◌≤◌, ◌<◌, ◌≡◌, refl, inl, inr, [], ◌∷◌, Bool-cases, arith, ltb, ◌==◌,
  length,
}
use jdepends.Common.Run.{Run, ok, fault, out_of_fuel, ◌>>=◌}
use jdepends.ConstPool.Defs.{
  Stream, Pool, load_word, load_doubleword, add_entry, add_dummy, Read, is_bad_tag, Loaded, loaded,
  class_format_error, version_not_supported, read_pool, empty_pool, pool_fuel, load_pool,
  check_magic, check_version, load_head,
}
use jdepends.ConstPool.Format.{Bytes2, write_head}
use jdepends.ConstPool.Invariant.{IsPool, Reads, add_entry-Grown, read_entry-Reads}

-- The read does not run out of fuel, and a pool that it accepts is well-formed and holds `count`
-- entries, or one more where a long or double comes last.
abbrev pub Accepted : ℕ → Run (Loaded Read) → Type 0
Accepted count (ok (loaded r)) = IsPool r.0 × (count ≤ r.0.size) × (r.0.size ≤ count + 1)
Accepted count (ok class_format_error) = Unit {0}
Accepted count (ok version_not_supported) = Unit {0}
Accepted count fault = Unit {0}
Accepted count out_of_fuel = ⊥

-- One entry; `rec` reads the rest.
entry-Accepted :
    (count n : ℕ) (p : Pool) (r : Run Read) (rec : Stream → Pool → Run (Loaded Read))
    → p.size < count
    → Reads p n r
    → ((s : Stream) (q : Pool)
        → length s ≤ n
        → IsPool q
        → q.size ≤ count + 1
        → Accepted count (rec s q))
    → Accepted count (r >>= λ c. rec c.1 c.0)
entry-Accepted count n p (ok (q, s)) rec l (m, g, a, b, short) h =
    h s q short g.valid (omega (arith, g.size))
entry-Accepted count n p fault rec l e h = tt
entry-Accepted count n p out_of_fuel rec l e h = e

read_pool-Accepted :
    (k count : ℕ) (s : Stream) (p : Pool)
    → count + 1 < 2 ^ 16
    → length s < k
    → IsPool p
    → p.size ≤ count + 1
    → Accepted count (read_pool k count s p)
unfolding read_pool
read_pool-Accepted zero count s p c h v l = absurd (omega arith)
read_pool-Accepted (suc k) count [] p c h v l = elim (Bool-cases (ltb p.size count)) [
  | inl e ↦ rw e tt
  | inr e ↦ rw e (v, ground arith, l)
]
read_pool-Accepted (suc k) count (tag ∷ s) p c h v l = elim (Bool-cases (ltb p.size count)) [
  | inl e ↦
      let more : p.size < count = ground arith in
      rw e (elim (Bool-cases (is_bad_tag tag)) [
        | inl bad ↦ rw bad tt
        | inr good ↦ rw good (
            entry-Accepted count (length s) p _ (read_pool k count) more
              (read_entry-Reads p v (omega arith) tag s)
              λ s' q short v' l'. read_pool-Accepted k count s' q c (omega arith) v' l')
      ])
  | inr e ↦ rw e (v, ground arith, l)
]

dummy-IsPool : IsPool (add_dummy empty_pool)
unfolding add_dummy
dummy-IsPool =
    (add_entry-Grown empty_pool _ (record { counted = refl; entries = tt }) (inl (refl, refl, refl))
      (omega arith)).valid

dummy-size : (add_dummy empty_pool).size ≡ 1
unfolding add_dummy add_entry
dummy-size = refl

-- Whatever bytes follow a genuine magic number and a version, and for every count below 65535, the
-- read of the pool does not run out of fuel, and a pool that it accepts is well-formed: its size is
-- the number of its entries, each has the length that its tag asks for, and there are `count`
-- entries, or one more.
pub load_head-Accepted :
    (minor major : Bytes2) (hi lo : ℕ) (s : Stream)
    → hi * 256 + lo + 1 < 2 ^ 16
    → Accepted (hi * 256 + lo) (load_head (write_head minor major (hi ∷ lo ∷ s)))
unfolding load_head check_magic load_doubleword check_version load_word load_pool
load_head-Accepted minor major hi lo s h =
    let count = hi * 256 + lo in
    elim (Bool-cases (count == 0)) [
      | inl e ↦ rw e tt
      | inr e ↦ rw e (
          read_pool-Accepted (pool_fuel s) count s (add_dummy empty_pool) h (omega arith)
            dummy-IsPool (omega (arith, dummy-size)))
    ]
