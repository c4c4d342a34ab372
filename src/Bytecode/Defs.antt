-- ===== src/Bytecode/Defs.antt =====
-- The opcode table and the walk over the instructions. A method's code is the list of its bytes:
-- reading outside it is a fault, and so is a failed `assert`, which ends the program. Offsets are
-- plain numbers: a code array lies in memory, and no offset reaches 2^32.
use jdepends.Common.{
  ℕ, zero, suc, ◌+◌, ◌-◌, ◌*◌, ◌%◌, bit_or, Bool, ◌||◌, Option, none, some, List, [], ◌∷◌, ◌++◌,
  ltb, leb, ◌==◌, if◌then◌else◌, length, get_elem?,
}
use jdepends.Common.Run.{Run, ok, fault, out_of_fuel, ◌>>=◌}

abbrev pub iinc : ℕ
iinc = 132

abbrev pub tableswitch : ℕ
tableswitch = 170

abbrev pub lookupswitch : ℕ
lookupswitch = 171

abbrev pub wide : ℕ
wide = 196

abbrev pub max_opcodes : ℕ
max_opcodes = 202

-- The `skip` column of op_tab, by opcode.
unfoldable pub op_tab : List ℕ
op_tab =
    1 ∷ 1 ∷ 1 ∷ 1 ∷ 1 ∷ 1 ∷ 1 ∷ 1 ∷ 1 ∷ 1 ∷ 1 ∷ 1 ∷ 1 ∷ 1 ∷ 1 ∷ 1 ∷ 2 ∷ 3 ∷ 2 ∷ 3 ∷ 3 ∷ 2 ∷ 2 ∷ 2
    ∷ 2 ∷ 2 ∷ 1 ∷ 1 ∷ 1 ∷ 1 ∷ 1 ∷ 1 ∷ 1 ∷ 1 ∷ 1 ∷ 1 ∷ 1 ∷ 1 ∷ 1 ∷ 1 ∷ 1 ∷ 1 ∷ 1 ∷ 1 ∷ 1 ∷ 1 ∷ 1 ∷ 1
    ∷ 1 ∷ 1 ∷ 1 ∷ 1 ∷ 1 ∷ 1 ∷ 2 ∷ 2 ∷ 2 ∷ 2 ∷ 2 ∷ 1 ∷ 1 ∷ 1 ∷ 1 ∷ 1 ∷ 1 ∷ 1 ∷ 1 ∷ 1 ∷ 1 ∷ 1 ∷ 1 ∷ 1
    ∷ 1 ∷ 1 ∷ 1 ∷ 1 ∷ 1 ∷ 1 ∷ 1 ∷ 1 ∷ 1 ∷ 1 ∷ 1 ∷ 1 ∷ 1 ∷ 1 ∷ 1 ∷ 1 ∷ 1 ∷ 1 ∷ 1 ∷ 1 ∷ 1 ∷ 1 ∷ 1 ∷ 1
    ∷ 1 ∷ 1 ∷ 1 ∷ 1 ∷ 1 ∷ 1 ∷ 1 ∷ 1 ∷ 1 ∷ 1 ∷ 1 ∷ 1 ∷ 1 ∷ 1 ∷ 1 ∷ 1 ∷ 1 ∷ 1 ∷ 1 ∷ 1 ∷ 1 ∷ 1 ∷ 1 ∷ 1
    ∷ 1 ∷ 1 ∷ 1 ∷ 1 ∷ 1 ∷ 1 ∷ 1 ∷ 1 ∷ 1 ∷ 1 ∷ 1 ∷ 1 ∷ 3 ∷ 1 ∷ 1 ∷ 1 ∷ 1 ∷ 1 ∷ 1 ∷ 1 ∷ 1 ∷ 1 ∷ 1 ∷ 1
    ∷ 1 ∷ 1 ∷ 1 ∷ 1 ∷ 1 ∷ 1 ∷ 1 ∷ 1 ∷ 1 ∷ 3 ∷ 3 ∷ 3 ∷ 3 ∷ 3 ∷ 3 ∷ 3 ∷ 3 ∷ 3 ∷ 3 ∷ 3 ∷ 3 ∷ 3 ∷ 3 ∷ 3
    ∷ 3 ∷ 2 ∷ 0 ∷ 0 ∷ 1 ∷ 1 ∷ 1 ∷ 1 ∷ 1 ∷ 1 ∷ 3 ∷ 3 ∷ 3 ∷ 3 ∷ 3 ∷ 3 ∷ 3 ∷ 5 ∷ 1 ∷ 3 ∷ 2 ∷ 3 ∷ 1 ∷ 1
    ∷ 3 ∷ 3 ∷ 1 ∷ 1 ∷ 0 ∷ 4 ∷ 3 ∷ 3 ∷ 5 ∷ 5 ∷ []

abbrev pub from_option : {A : Type 0} → Option A → Run A
from_option none = fault
from_option (some a) = ok a

-- `code[p]`
unfoldable pub byte_at : List ℕ → ℕ → Run ℕ
byte_at code p = from_option (get_elem? code p)

-- `code[p] | code[p + 1] | code[p + 2] | code[p + 3]`
unfoldable pub or_of_four : List ℕ → ℕ → Run ℕ
or_of_four code p = do
  a ← byte_at code p
  b ← byte_at code (p + 1)
  c ← byte_at code (p + 2)
  d ← byte_at code (p + 3)
  ok (bit_or (bit_or (bit_or a b) c) d)

abbrev pub padding : ℕ → ℕ
padding pos = 3 - pos % 4

unfoldable pub lookup_skip : List ℕ → ℕ → Run ℕ
lookup_skip code pos = do
  high ← or_of_four code (pos + padding pos + 5)
  ok (high * 8 + 9 + padding pos)

unfoldable pub table_skip : List ℕ → ℕ → Run ℕ
table_skip code pos = do
  low ← or_of_four code (pos + padding pos + 5)
  high ← or_of_four code (pos + padding pos + 5 + 4)
  if leb low high then ok ((high - low + 1) * 4 + 13 + padding pos) else fault

unfoldable pub wide_skip : List ℕ → ℕ → Run ℕ
wide_skip code pos = do next ← byte_at code (pos + 1); ok (if next == iinc then 5 else 3)

-- skip_calc, for the three opcodes that it is called for
unfoldable pub skip_calc : List ℕ → ℕ → ℕ → Run ℕ
skip_calc code pos opcode =
    if opcode == lookupswitch
    then lookup_skip code pos
    else if opcode == tableswitch
    then table_skip code pos
    else wide_skip code pos

abbrev pub has_own_skip : ℕ → Bool
has_own_skip opcode = (opcode == lookupswitch) || (opcode == tableswitch) || (opcode == wide)

-- How far LdrGetCallOffsets and LdrStreamPrintCode advance at an opcode.
unfoldable pub skip_of : List ℕ → ℕ → ℕ → Run ℕ
skip_of code pos opcode =
    if has_own_skip opcode then skip_calc code pos opcode else from_option (get_elem? op_tab opcode)

-- invokevirtual, invokespecial, invokestatic and invokeinterface
abbrev pub is_invoke : ℕ → Bool
is_invoke opcode = (opcode == 183) || (opcode == 182) || (opcode == 184) || (opcode == 185)

abbrev pub note_call : ℕ → ℕ → List ℕ → List ℕ
note_call opcode pos offsets = if is_invoke opcode then offsets ++ pos ∷ [] else offsets

-- The loop of LdrGetCallOffsets: the offsets found so far are the first `m` of the growing array.
unfoldable pub call_offsets_loop : ℕ → List ℕ → ℕ → List ℕ → Run (List ℕ)
call_offsets_loop zero code pos offsets = out_of_fuel
call_offsets_loop (suc k) code pos offsets =
    let round = (do
      opcode ← byte_at code pos
      let next = (do
        skip ← skip_of code pos opcode
        call_offsets_loop k code (pos + skip) (note_call opcode pos offsets))
      if ltb opcode max_opcodes then next else fault) in
    if ltb pos (length code) then round else ok offsets

-- LdrGetCallOffsets, for a method that has code: *call_offsets, whose length is *call_offsets_len
unfoldable pub call_offsets : List ℕ → Run (List ℕ)
call_offsets code = call_offsets_loop (length code + 1) code 0 []

-- LdrGetCallOffsets: a method without code has no offsets.
unfoldable pub get_call_offsets : Option (List ℕ) → Run (List ℕ)
get_call_offsets none = ok []
get_call_offsets (some code) = call_offsets code
