-- ===== src/Interpreter/Instructions.antt =====
-- The instructions that only work on the operand stack, and what each is to do to the operands. The
-- words are listed from the top down.
use jdepends.Common.{ℕ, ◌+◌, ◌-◌, ◌%◌, ◌^◌, ltb, ◌==◌, if◌then◌else◌, List, ◌∷◌}
use jdepends.Interpreter.Machine.{Frame, Step, plus32, minus32}
use jdepends.Interpreter.Numbers.{long_of}
use jdepends.Interpreter.Stack.{pop, pop2, dup, dup_x1, dup_x2, dup2, dup2_x1, dup2_x2, swap, nop}
use jdepends.Interpreter.Arithmetic.{iadd, isub, i2b, i2c, i2s, lcmp}

-- The instructions
pub data StackOp : Type 0 where
  nop_op : StackOp
  pop_op : StackOp
  pop2_op : StackOp
  dup_op : StackOp
  dup_x1_op : StackOp
  dup_x2_op : StackOp
  dup2_op : StackOp
  dup2_x1_op : StackOp
  dup2_x2_op : StackOp
  swap_op : StackOp
  iadd_op : StackOp
  isub_op : StackOp
  i2b_op : StackOp
  i2c_op : StackOp
  i2s_op : StackOp
  lcmp_op : StackOp

-- Their entries of the table of handlers
abbrev pub execute : StackOp → Frame → Step Frame
execute nop_op = nop
execute pop_op = pop
execute pop2_op = pop2
execute dup_op = dup
execute dup_x1_op = dup_x1
execute dup_x2_op = dup_x2
execute dup2_op = dup2
execute dup2_x1_op = dup2_x1
execute dup2_x2_op = dup2_x2
execute swap_op = swap
execute iadd_op = iadd
execute isub_op = isub
execute i2b_op = i2b
execute i2c_op = i2c
execute i2s_op = i2s
execute lcmp_op = lcmp

-- How many operands an instruction takes, and by how many words the stack gets higher
abbrev pub takes : StackOp → ℕ
takes nop_op = 0
takes pop_op = 1
takes pop2_op = 2
takes dup_op = 1
takes dup_x1_op = 2
takes dup_x2_op = 3
takes dup2_op = 2
takes dup2_x1_op = 3
takes dup2_x2_op = 4
takes swap_op = 2
takes iadd_op = 2
takes isub_op = 2
takes i2b_op = 1
takes i2c_op = 1
takes i2s_op = 1
takes lcmp_op = 4

abbrev pub grows : StackOp → ℕ
grows nop_op = 0
grows pop_op = 0
grows pop2_op = 0
grows dup_op = 1
grows dup_x1_op = 1
grows dup_x2_op = 1
grows dup2_op = 2
grows dup2_x1_op = 2
grows dup2_x2_op = 2
grows swap_op = 0
grows iadd_op = 0
grows isub_op = 0
grows i2b_op = 0
grows i2c_op = 0
grows i2s_op = 0
grows lcmp_op = 0

-- Moves the signed values of 64 bits up, so that their order is that of natural numbers
abbrev pub biased : ℕ → ℕ
biased v = (v + 2 ^ 63) % 2 ^ 64

-- The word for the comparison of two longs: 0 where they are equal, -1 where the signed value of the
-- first is less, else 1
abbrev pub compared : ℕ → ℕ → ℕ
compared a b = if a == b then 0 else if ltb (biased a) (biased b) then 2 ^ 32 - 1 else 1

-- The low byte of a word, as a word with the byte's sign
abbrev pub byte_extended : ℕ → ℕ
byte_extended w = ((w + 2 ^ 7) % 2 ^ 8 + (2 ^ 32 - 2 ^ 7)) % 2 ^ 32

-- The low two bytes of a word, as a word with their sign
abbrev pub short_extended : ℕ → ℕ
short_extended w = ((w + 2 ^ 15) % 2 ^ 16 + (2 ^ 32 - 2 ^ 15)) % 2 ^ 32

-- What an instruction does to its operands
abbrev pub effect : StackOp → List ℕ → List ℕ
effect nop_op s = s
effect pop_op (a ∷ s) = s
effect pop2_op (a ∷ b ∷ s) = s
effect dup_op (a ∷ s) = a ∷ a ∷ s
effect dup_x1_op (a ∷ b ∷ s) = a ∷ b ∷ a ∷ s
effect dup_x2_op (a ∷ b ∷ c ∷ s) = a ∷ b ∷ c ∷ a ∷ s
effect dup2_op (a ∷ b ∷ s) = a ∷ b ∷ a ∷ b ∷ s
effect dup2_x1_op (a ∷ b ∷ c ∷ s) = a ∷ b ∷ c ∷ a ∷ b ∷ s
effect dup2_x2_op (a ∷ b ∷ c ∷ d ∷ s) = a ∷ b ∷ c ∷ d ∷ a ∷ b ∷ s
effect swap_op (a ∷ b ∷ s) = b ∷ a ∷ s
effect iadd_op (a ∷ b ∷ s) = plus32 b a ∷ s
effect isub_op (a ∷ b ∷ s) = minus32 b a ∷ s
effect i2b_op (a ∷ s) = byte_extended a ∷ s
effect i2c_op (a ∷ s) = a % 2 ^ 16 ∷ s
effect i2s_op (a ∷ s) = short_extended a ∷ s
effect lcmp_op (a ∷ b ∷ c ∷ d ∷ s) = compared (long_of d c) (long_of b a) ∷ s
effect op s = s
