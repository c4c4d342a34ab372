-- ===== src/Bytecode/Ends.antt =====
-- The walk ends on every code array, and where it deviates from the layout of the instructions.
use jdepends.Common.{
  ℕ, zero, suc, ◌+◌, ◌-◌, ◌<◌, ◌≡◌, ◌≢◌, true, List, [], ltb, leb, ◌==◌, if◌then◌else◌, length,
  get_elem?, inl, inr, Bool-cases, Option-cases, arith,
}
use jdepends.Common.Run.{Run, ok, fault, out_of_fuel, ◌>>=◌, Ends, >>=-Ends, ne_out_of_fuel}
use jdepends.Bytecode.Defs.{
  iinc, max_opcodes, lookupswitch, tableswitch, byte_at, or_of_four, lookup_skip, table_skip,
  wide_skip, skip_calc, has_own_skip, skip_of, note_call, call_offsets_loop, call_offsets,
}
use jdepends.Bytecode.Walk.{skip_of-operand_bytes}

-- The call does not run out of fuel, and a skip is not zero.
abbrev Advances : Run ℕ → Type 0
Advances (ok skip) = 0 < skip
Advances fault = Unit {0}
Advances out_of_fuel = ⊥

bind-Advances :
    {A : Type 0} (r : Run A) (f : A → Run ℕ)
    → Ends r
    → ((a : A) → Advances (f a))
    → Advances (r >>= f)
bind-Advances (ok a) f e h = h a
bind-Advances fault f e h = tt
bind-Advances out_of_fuel f e h = e

byte_at-Ends : (code : List ℕ) (p : ℕ) → Ends (byte_at code p)
unfolding byte_at
byte_at-Ends code p = elim (Option-cases (get_elem? code p)) [
  | inl e ↦ rw (e, Ends) tt
  | inr (b, e) ↦ rw (e, Ends) tt
]

or_of_four-Ends : (code : List ℕ) (p : ℕ) → Ends (or_of_four code p)
unfolding or_of_four
or_of_four-Ends code p = >>=-Ends _ _ (byte_at-Ends code p) λ a.
    >>=-Ends _ _ (byte_at-Ends code (p + 1)) λ b.
      >>=-Ends _ _ (byte_at-Ends code (p + 2)) λ c. >>=-Ends _ _ (byte_at-Ends code (p + 3)) λ d. tt

lookup_skip-Advances : (code : List ℕ) (pos : ℕ) → Advances (lookup_skip code pos)
unfolding lookup_skip
lookup_skip-Advances code pos = bind-Advances _ _ (or_of_four-Ends code _) λ high. omega arith

table_skip-Advances : (code : List ℕ) (pos : ℕ) → Advances (table_skip code pos)
unfolding table_skip
table_skip-Advances code pos = bind-Advances _ _ (or_of_four-Ends code _) λ low.
    bind-Advances _ _ (or_of_four-Ends code _)
      λ high. elim (Bool-cases (leb low high)) [ inl e ↦ rw e (omega arith) | inr e ↦ rw e tt ]

wide_skip-Advances : (code : List ℕ) (pos : ℕ) → Advances (wide_skip code pos)
unfolding wide_skip
wide_skip-Advances code pos = bind-Advances _ _ (byte_at-Ends code (pos + 1)) λ next.
    elim (Bool-cases (next == iinc)) [ inl e ↦ rw e (omega arith) | inr e ↦ rw e (omega arith) ]

skip_calc-Advances : (code : List ℕ) (pos op : ℕ) → Advances (skip_calc code pos op)
unfolding skip_calc
skip_calc-Advances code pos op = elim (Bool-cases (op == lookupswitch)) [
  | inl e ↦ rw e (lookup_skip-Advances code pos)
  | inr e ↦ rw e (elim (Bool-cases (op == tableswitch)) [
    | inl f ↦ rw f (table_skip-Advances code pos)
    | inr f ↦ rw f (wide_skip-Advances code pos)
  ])
]

skip_of-own :
    (code : List ℕ) (pos op : ℕ)
    → has_own_skip op ≡ true
    → skip_of code pos op ≡ skip_calc code pos op
unfolding skip_of
skip_of-own code pos op h = rw h

skip_of-Advances : (code : List ℕ) (pos op : ℕ) → op < max_opcodes → Advances (skip_of code pos op)
skip_of-Advances code pos op l = elim (Bool-cases (has_own_skip op)) [
  | inl own ↦ rw (skip_of-own code pos op own) (skip_calc-Advances code pos op)
  | inr own ↦ rw (skip_of-operand_bytes code pos op l (ground arith)) (omega arith)
]

-- One round; `rec` is the rest of the walk.
round-Ends :
    (code : List ℕ) (pos : ℕ) (rec : ℕ → ℕ → Run (List ℕ))
    → ((op skip : ℕ) → 0 < skip → Ends (rec op (pos + skip)))
    → Ends (
        byte_at code pos >>= λ op.
        let next = skip_of code pos op >>= λ skip. rec op (pos + skip) in
        if ltb op max_opcodes then next else fault)
round-Ends code pos rec h = >>=-Ends _ _ (byte_at-Ends code pos) λ op.
    elim (Bool-cases (ltb op max_opcodes)) [
      | inl e ↦ rw e (after op (skip_of code pos op) (skip_of-Advances code pos op (ground arith)))
      | inr e ↦ rw e tt
    ]
  where
    after : (op : ℕ) (r : Run ℕ) → Advances r → Ends (r >>= λ skip. rec op (pos + skip))
    after op (ok skip) a = h op skip a
    after op fault a = tt
    after op out_of_fuel a = a

loop-Ends :
    (k : ℕ) (code : List ℕ) (pos : ℕ) (acc : List ℕ)
    → length code - pos < k
    → Ends (call_offsets_loop k code pos acc)
unfolding call_offsets_loop
loop-Ends zero code pos acc h = absurd (omega arith)
loop-Ends (suc k) code pos acc h = elim (Bool-cases (ltb pos (length code))) [
  | inl e ↦ rw e (
      round-Ends code pos (λ op p. call_offsets_loop k code p (note_call op pos acc))
        λ op skip a. loop-Ends k code (pos + skip) (note_call op pos acc) (ground arith))
  | inr e ↦ rw e tt
]

-- The walk ends on every code array, well-formed or not: no instruction is skipped by zero bytes,
-- and the fuel is enough.
call_offsets-ends : (code : List ℕ) → call_offsets code ≢ out_of_fuel
unfolding call_offsets
call_offsets-ends code =
    ne_out_of_fuel (call_offsets_loop (length code + 1) code 0 [])
      (loop-Ends (length code + 1) code 0 [] (omega arith))
