-- ===== src/Bytecode/Layout.antt =====
-- The instructions of the Java virtual machine as its specification lays them out, whatever the
-- opcode table says: how many operand bytes an opcode has, and where the calls of a code array are.
use jdepends.Common.{
  ℕ, suc, ◌+◌, ◌-◌, ◌*◌, ◌/◌, ◌≤◌, ◌<◌, ◌≡◌, Bool, true, false, ◌||◌, ◌&&◌, some, List, [], ◌∷◌,
  leb, ◌==◌, if◌then◌else◌, length, get_elem?,
}
use jdepends.Bytecode.Defs.{max_opcodes, lookupswitch, tableswitch}

abbrev pub between : ℕ → ℕ → ℕ → Bool
between lo hi x = leb lo x && leb x hi

abbrev pub has_one_operand : ℕ → Bool
has_one_operand op =
    (op == 16) || (op == 18) || between 21 25 op || between 54 58 op || (op == 169) || (op == 188)

abbrev pub has_two_operands : ℕ → Bool
has_two_operands op =
    (op == 17)
    || between 19 20 op
    || (op == 132)
    || between 153 168 op
    || between 178 184 op
    || (op == 187)
    || (op == 189)
    || between 192 193 op
    || between 198 199 op

abbrev pub has_four_operands : ℕ → Bool
has_four_operands op = (op == 185) || between 200 201 op

-- invokevirtual, invokespecial, invokestatic and invokeinterface are neighbours.
abbrev pub is_call : ℕ → Bool
is_call op = between 182 185 op

-- The switches and `wide`.
abbrev pub has_own_layout : ℕ → Bool
has_own_layout op = between 170 171 op || (op == 196)

-- Of the opcodes up to `jsr_w` but the switches and `wide`.
unfoldable pub operand_bytes : ℕ → ℕ
operand_bytes op =
    if has_one_operand op
    then 1
    else if has_two_operands op
    then 2
    else if op == 197
    then 3
    else if has_four_operands op
    then 4
    else 0

-- The first multiple of four behind the opcode.
abbrev pub aligned : ℕ → ℕ
aligned pos = (pos / 4 + 1) * 4

-- The four bytes from `p` on hold, high byte first, a number below 256.
pub record SmallWord (code : List ℕ) (p n : ℕ) : Type 0 where
  pub byte_0 : get_elem? code p ≡ some 0
  pub byte_1 : get_elem? code (p + 1) ≡ some 0
  pub byte_2 : get_elem? code (p + 2) ≡ some 0
  pub byte_3 : get_elem? code (p + 3) ≡ some n
  pub small : n < 256

-- From `pos` on the code is a sequence of instructions with the calls at these offsets. There is no
-- `wide` among them, and the counts and bounds of the switches are below 256.
pub data Calls (code : List ℕ) : ℕ → List ℕ → Type 0 where
  end : {pos : ℕ} → length code ≤ pos → Calls code pos []
  plain :
      {pos : ℕ} {cs : List ℕ} (op : ℕ)
      → get_elem? code pos ≡ some op
      → op < max_opcodes
      → has_own_layout op ≡ false
      → is_call op ≡ false
      → Calls code (pos + suc (operand_bytes op)) cs
      → Calls code pos cs
  call :
      {pos : ℕ} {cs : List ℕ} (op : ℕ)
      → get_elem? code pos ≡ some op
      → is_call op ≡ true
      → Calls code (pos + suc (operand_bytes op)) cs
      → Calls code pos (pos ∷ cs)
  lookup :
      {pos : ℕ} {cs : List ℕ} (pairs : ℕ)
      → get_elem? code pos ≡ some lookupswitch
      → SmallWord code (aligned pos + 4) pairs
      → Calls code (aligned pos + 8 + pairs * 8) cs
      → Calls code pos cs
  table :
      {pos : ℕ} {cs : List ℕ} (low high : ℕ)
      → get_elem? code pos ≡ some tableswitch
      → SmallWord code (aligned pos + 4) low
      → SmallWord code (aligned pos + 8) high
      → low ≤ high
      → Calls code (aligned pos + 12 + (high - low + 1) * 4) cs
      → Calls code pos cs
