-- ===== src/Bytecode/Walk.antt =====
-- LdrGetCallOffsets finds the calls of a code array.
use jdepends.Common.{
  ℕ, zero, suc, ◌+◌, ◌-◌, ◌*◌, ◌≤◌, ◌<◌, bit_or, ◌≡◌, refl, ap, ◌∙◌, Bool, true, false, ◌||◌,
  Option, none, some, List, [], ◌∷◌, ◌++◌, ltb, leb, passes_below, passes_below_lem, ◌==◌, length,
  get_elem?, get_elem?-lt, arith, append-nil, append_assoc, ==→eq,
}
use jdepends.Common.Run.{ok}
use jdepends.Bytecode.Defs.{
  max_opcodes, lookupswitch, tableswitch, op_tab, byte_at, or_of_four, padding, lookup_skip,
  table_skip, skip_calc, has_own_skip, skip_of, is_invoke, note_call, call_offsets_loop,
  call_offsets, get_call_offsets,
}
use jdepends.Bytecode.Layout.{
  operand_bytes, is_call, has_own_layout, aligned, SmallWord, Calls, end, plain, call, lookup,
  table,
}

or_table : passes_below (λ n. bit_or (bit_or (bit_or 0 0) 0) n == n) 256 ≡ true
unfolding passes_below
or_table = refl

abbrev holds : Option ℕ → ℕ → Bool
holds none n = false
holds (some m) n = m == n

holds→eq : (o : Option ℕ) (n : ℕ) → holds o n ≡ true → o ≡ some n
holds→eq none n h = cc
holds→eq (some m) n h = ap some (==→eq m n h)

skip_table :
    passes_below
      (λ op. has_own_skip op || holds (get_elem? op_tab op) (suc (operand_bytes op)))
      max_opcodes
    ≡ true
unfolding passes_below op_tab operand_bytes
skip_table = refl

-- The opcode table agrees with the specification: every opcode but the switches and `wide` is
-- skipped with its operand bytes.
pub skip_of-operand_bytes :
    (code : List ℕ) (pos op : ℕ)
    → op < max_opcodes
    → has_own_layout op ≡ false
    → skip_of code pos op ≡ ok (suc (operand_bytes op))
unfolding skip_of
skip_of-operand_bytes code pos op l simple =
    rw (own, holds→eq (get_elem? op_tab op) (suc (operand_bytes op)) table_entry)
  where
    own : has_own_skip op ≡ false
    own = ground arith

    either : (has_own_skip op || holds (get_elem? op_tab op) (suc (operand_bytes op))) ≡ true
    either =
        passes_below_lem (λ o. has_own_skip o || holds (get_elem? op_tab o) (suc (operand_bytes o)))
          max_opcodes op l skip_table

    table_entry : holds (get_elem? op_tab op) (suc (operand_bytes op)) ≡ true
    table_entry = rw own at either

or_of_four-SmallWord : {code : List ℕ} {p n : ℕ} → SmallWord code p n → or_of_four code p ≡ ok n
unfolding or_of_four byte_at
or_of_four-SmallWord {n} w =
    rw (w.byte_0, w.byte_1, w.byte_2, w.byte_3)
      (ap ok (
        ==→eq _ n
          (passes_below_lem (λ m. bit_or (bit_or (bit_or 0 0) 0) m == m) 256 n w.small or_table)))

lookup_skip-SmallWord :
    {code : List ℕ} (pos pairs : ℕ)
    → SmallWord code (aligned pos + 4) pairs
    → (skip : ℕ) × (skip_of code pos lookupswitch ≡ ok skip)
      × (pos + skip ≡ aligned pos + 8 + pairs * 8)
unfolding skip_of skip_calc lookup_skip
lookup_skip-SmallWord {code} pos pairs w =
    let place : pos + padding pos + 5 ≡ aligned pos + 4 = omega arith in
    (pairs * 8 + 9 + padding pos, rw (place, or_of_four-SmallWord w), omega arith)

table_skip-SmallWord :
    {code : List ℕ} (pos low high : ℕ)
    → SmallWord code (aligned pos + 4) low
    → SmallWord code (aligned pos + 8) high
    → low ≤ high
    → (skip : ℕ) × (skip_of code pos tableswitch ≡ ok skip)
      × (pos + skip ≡ aligned pos + 12 + (high - low + 1) * 4)
unfolding skip_of skip_calc table_skip
table_skip-SmallWord {code} pos low high v w l =
    let place : pos + padding pos + 5 ≡ aligned pos + 4 = omega arith in
    let next_place : aligned pos + 4 + 4 ≡ aligned pos + 8 = omega arith in
    let ordered : leb low high ≡ true = ground arith in
    (
      (high - low + 1) * 4 + 13 + padding pos,
      rw (place, or_of_four-SmallWord v, next_place, or_of_four-SmallWord w, ordered),
      omega arith,
    )

is_call-bounds : (op : ℕ) → is_call op ≡ true → (op < max_opcodes) × (has_own_layout op ≡ false)
is_call-bounds op h = ground arith

is_invoke-is_call : (op : ℕ) → is_invoke op ≡ is_call op
is_invoke-is_call op = ground arith

module _ (code : List ℕ) where
  pub loop-step :
      (k pos op skip : ℕ) (acc : List ℕ)
      → get_elem? code pos ≡ some op
      → op < max_opcodes
      → skip_of code pos op ≡ ok skip
      → call_offsets_loop (suc k) code pos acc
        ≡ call_offsets_loop k code (pos + skip) (note_call op pos acc)
  unfolding call_offsets_loop byte_at
  loop-step k pos op skip acc e l s =
      let inside : ltb pos (length code) ≡ true = ground (arith, get_elem?-lt code pos e) in
      let known : ltb op max_opcodes ≡ true = ground arith in rw (inside, e, known, s)

  loop-end :
      (k pos : ℕ) (acc : List ℕ)
      → length code ≤ pos
      → call_offsets_loop (suc k) code pos acc ≡ ok acc
  unfolding call_offsets_loop
  loop-end k pos acc h = let outside : ltb pos (length code) ≡ false = ground arith in rw outside

  loop-Calls :
      (k : ℕ) {pos : ℕ} {cs : List ℕ} (acc : List ℕ)
      → Calls code pos cs
      → length code - pos < k
      → call_offsets_loop k code pos acc ≡ ok (acc ++ cs)
  loop-Calls zero acc c h = absurd (omega arith)
  loop-Calls (suc k) acc (end h') h = loop-end k _ acc h' ∙ rw append-nil
  loop-Calls (suc k) {pos} acc (plain op e l own no_call rest) h =
      let inside = get_elem?-lt code pos e in
      loop-step k pos op _ acc e l (skip_of-operand_bytes code pos op l own)
      ∙ rw (is_invoke-is_call op, no_call) (loop-Calls k acc rest (omega arith))
  loop-Calls (suc k) {pos} acc (call {cs = cs'} op e call' rest) h =
      let inside = get_elem?-lt code pos e in
      let (l, own) = is_call-bounds op call' in
      loop-step k pos op _ acc e l (skip_of-operand_bytes code pos op l own)
      ∙ rw (is_invoke-is_call op, call')
          (loop-Calls k (acc ++ pos ∷ []) rest (omega arith) ∙ rw append_assoc)
  loop-Calls (suc k) {pos} acc (lookup pairs e w rest) h =
      let inside = get_elem?-lt code pos e in
      let (skip, s, there) = lookup_skip-SmallWord pos pairs w in
      loop-step k pos lookupswitch skip acc e (omega arith) s
      ∙ rw there (loop-Calls k acc rest (omega arith))
  loop-Calls (suc k) {pos} acc (table low high e v w o rest) h =
      let inside = get_elem?-lt code pos e in
      let (skip, s, there) = table_skip-SmallWord pos low high v w o in
      loop-step k pos tableswitch skip acc e (omega arith) s
      ∙ rw there (loop-Calls k acc rest (omega arith))

-- Where a code array is a sequence of well-formed instructions without `wide`, in which the number of
-- pairs of each lookupswitch and the bounds of each tableswitch are from 0 to 255, the walk ends on
-- the fuel that it is given, reads nothing outside the array, and returns the offsets of exactly the
-- invoke instructions, in order.
pub call_offsets-Calls : (code cs : List ℕ) → Calls code 0 cs → get_call_offsets (some code) ≡ ok cs
unfolding get_call_offsets call_offsets
call_offsets-Calls code cs c = loop-Calls code (length code + 1) [] c (omega arith)
