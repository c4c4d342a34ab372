-- ===== src/Bytecode/Deviations.antt =====
-- Where skip_calc and the specification of the Java virtual machine part.
use jdepends.Common.{
  ℕ, suc, ◌+◌, ◌-◌, ◌*◌, ◌<◌, bit_or, ◌≡◌, refl, ap, true, some, List, ◌==◌, if◌then◌else◌,
  get_elem?, inl, inr, Bool-cases, arith, ==→eq, passes_below, passes_below_lem, ◌∙◌,
}
use jdepends.Common.Run.{ok}
use jdepends.Bytecode.Defs.{
  iinc, wide, lookupswitch, byte_at, or_of_four, padding, lookup_skip, wide_skip, skip_calc,
  skip_of, call_offsets_loop,
}
use jdepends.Bytecode.Layout.{aligned}
use jdepends.Bytecode.Walk.{loop-step}

-- By the specification: `wide`, an opcode, an index of two bytes, and for `iinc` two bytes more.
abbrev pub wide_size : ℕ → ℕ
wide_size op = if op == iinc then 6 else 4

skip_of-wide :
    (code : List ℕ) (pos op : ℕ)
    → get_elem? code (pos + 1) ≡ some op
    → (skip : ℕ) × (skip_of code pos wide ≡ ok skip) × (skip + 1 ≡ wide_size op)
unfolding skip_of skip_calc wide_skip byte_at
skip_of-wide code pos op e = elim (Bool-cases (op == iinc)) [
  | inl i ↦ (5, rw (e, i), rw i)
  | inr i ↦ (3, rw (e, i), rw i)
]

-- At a `wide` instruction the walk goes on one byte too early: at the last byte of its operands.
walk_at_wide :
    (code : List ℕ) (k pos op : ℕ) (offsets : List ℕ)
    → get_elem? code pos ≡ some wide
    → get_elem? code (pos + 1) ≡ some op
    → call_offsets_loop (suc k) code pos offsets
      ≡ call_offsets_loop k code (pos + (wide_size op - 1)) offsets
walk_at_wide code k pos op offsets e e' =
    let (skip, s, size) = skip_of-wide code pos op e' in
    let short : skip ≡ wide_size op - 1 = omega arith in
    loop-step code k pos wide skip offsets e (omega arith) s ∙ rw short

or_table : passes_below (λ n. bit_or (bit_or (bit_or 0 0) n) 0 == n) 256 ≡ true
unfolding passes_below
or_table = refl

or_of_third :
    (code : List ℕ) (p c : ℕ)
    → get_elem? code p ≡ some 0
    → get_elem? code (p + 1) ≡ some 0
    → get_elem? code (p + 2) ≡ some c
    → get_elem? code (p + 3) ≡ some 0
    → c < 256
    → or_of_four code p ≡ ok c
unfolding or_of_four byte_at
or_of_third code p c e0 e1 e2 e3 l =
    rw (e0, e1, e2, e3)
      (ap ok (
        ==→eq _ c (passes_below_lem (λ m. bit_or (bit_or (bit_or 0 0) m) 0 == m) 256 c l or_table)))

skip_of-lookup :
    (code : List ℕ) (pos c : ℕ)
    → or_of_four code (aligned pos + 4) ≡ ok c
    → skip_of code pos lookupswitch ≡ ok (c * 8 + 9 + padding pos)
unfolding skip_of skip_calc lookup_skip
skip_of-lookup code pos c e =
    let place : pos + padding pos + 5 ≡ aligned pos + 4 = omega arith in rw (place, e)

-- The four bytes of a count are joined without being shifted: at a `lookupswitch` with 256 times
-- `c` pairs the walk goes on behind the first `c` of them, inside the instruction.
walk_at_large_switch :
    (code : List ℕ) (k pos c : ℕ) (offsets : List ℕ)
    → get_elem? code pos ≡ some lookupswitch
    → get_elem? code (aligned pos + 4) ≡ some 0
    → get_elem? code (aligned pos + 4 + 1) ≡ some 0
    → get_elem? code (aligned pos + 4 + 2) ≡ some c
    → get_elem? code (aligned pos + 4 + 3) ≡ some 0
    → c < 256
    → call_offsets_loop (suc k) code pos offsets
      ≡ call_offsets_loop k code (aligned pos + 8 + c * 8) offsets
walk_at_large_switch code k pos c offsets e e0 e1 e2 e3 l =
    let there : pos + (c * 8 + 9 + padding pos) ≡ aligned pos + 8 + c * 8 = omega arith in
    loop-step code k pos lookupswitch (c * 8 + 9 + padding pos) offsets e (omega arith)
      (skip_of-lookup code pos c (or_of_third code (aligned pos + 4) c e0 e1 e2 e3 l))
    ∙ rw there
