-- ===== src/Interpreter/Operations.antt =====
-- All handlers that only work on the operand stack against their instructions.
use jdepends.Common.{ℕ, zero, suc, ◌+◌, ◌^◌, ◌≤◌, ◌<◌, length, arith}
use jdepends.Interpreter.Machine.{Frame, words, operands, IsFrame}
use jdepends.Interpreter.Effects.{Effect, with_top}
use jdepends.Interpreter.Instructions.{
  nop_op, pop_op, pop2_op, dup_op, dup_x1_op, dup_x2_op, dup2_op, dup2_x1_op, dup2_x2_op, swap_op,
  iadd_op, isub_op, i2b_op, i2c_op, i2s_op, lcmp_op, StackOp, execute, takes, grows, effect,
}
use jdepends.Interpreter.Moves.{
  nop-Effect, pop-Effect, pop2-Effect, dup-Effect, dup_x1-Effect, dup_x2-Effect, dup2-Effect,
  dup2_x1-Effect, dup2_x2-Effect, swap-Effect,
}
use jdepends.Interpreter.Sums.{
  iadd-Effect, isub-Effect, i2b-Effect, i2c-Effect, i2s-Effect, lcmp-Effect,
}

run-Effect :
    (op : StackOp) (t : ℕ) (f : Frame)
    → takes op ≤ t
    → t + grows op < length f.op_stack
    → length f.op_stack < 2 ^ 32
    → Effect (with_top f t) 1 (execute op (with_top f t)) (effect op (words f.op_stack t))
run-Effect nop_op n f h r l = nop-Effect f n (omega arith) l
run-Effect pop_op zero f h r l = absurd (omega arith)
run-Effect pop_op (suc n) f h r l = pop-Effect f n (omega arith) l
run-Effect pop2_op zero f h r l = absurd (omega arith)
run-Effect pop2_op (suc zero) f h r l = absurd (omega arith)
run-Effect pop2_op (suc (suc n)) f h r l = pop2-Effect f n (omega arith) l
run-Effect dup_op zero f h r l = absurd (omega arith)
run-Effect dup_op (suc n) f h r l = dup-Effect f n (omega arith) l
run-Effect dup_x1_op zero f h r l = absurd (omega arith)
run-Effect dup_x1_op (suc zero) f h r l = absurd (omega arith)
run-Effect dup_x1_op (suc (suc n)) f h r l = dup_x1-Effect f n (omega arith) l
run-Effect dup_x2_op zero f h r l = absurd (omega arith)
run-Effect dup_x2_op (suc zero) f h r l = absurd (omega arith)
run-Effect dup_x2_op (suc (suc zero)) f h r l = absurd (omega arith)
run-Effect dup_x2_op (suc (suc (suc n))) f h r l = dup_x2-Effect f n (omega arith) l
run-Effect dup2_op zero f h r l = absurd (omega arith)
run-Effect dup2_op (suc zero) f h r l = absurd (omega arith)
run-Effect dup2_op (suc (suc n)) f h r l = dup2-Effect f n (omega arith) l
run-Effect dup2_x1_op zero f h r l = absurd (omega arith)
run-Effect dup2_x1_op (suc zero) f h r l = absurd (omega arith)
run-Effect dup2_x1_op (suc (suc zero)) f h r l = absurd (omega arith)
run-Effect dup2_x1_op (suc (suc (suc n))) f h r l = dup2_x1-Effect f n (omega arith) l
run-Effect dup2_x2_op zero f h r l = absurd (omega arith)
run-Effect dup2_x2_op (suc zero) f h r l = absurd (omega arith)
run-Effect dup2_x2_op (suc (suc zero)) f h r l = absurd (omega arith)
run-Effect dup2_x2_op (suc (suc (suc zero))) f h r l = absurd (omega arith)
run-Effect dup2_x2_op (suc (suc (suc (suc n)))) f h r l = dup2_x2-Effect f n (omega arith) l
run-Effect swap_op zero f h r l = absurd (omega arith)
run-Effect swap_op (suc zero) f h r l = absurd (omega arith)
run-Effect swap_op (suc (suc n)) f h r l = swap-Effect f n (omega arith) l
run-Effect iadd_op zero f h r l = absurd (omega arith)
run-Effect iadd_op (suc zero) f h r l = absurd (omega arith)
run-Effect iadd_op (suc (suc n)) f h r l = iadd-Effect f n (omega arith) l
run-Effect isub_op zero f h r l = absurd (omega arith)
run-Effect isub_op (suc zero) f h r l = absurd (omega arith)
run-Effect isub_op (suc (suc n)) f h r l = isub-Effect f n (omega arith) l
run-Effect i2b_op zero f h r l = absurd (omega arith)
run-Effect i2b_op (suc n) f h r l = i2b-Effect f n (omega arith) l
run-Effect i2c_op zero f h r l = absurd (omega arith)
run-Effect i2c_op (suc n) f h r l = i2c-Effect f n (omega arith) l
run-Effect i2s_op zero f h r l = absurd (omega arith)
run-Effect i2s_op (suc n) f h r l = i2s-Effect f n (omega arith) l
run-Effect lcmp_op zero f h r l = absurd (omega arith)
run-Effect lcmp_op (suc zero) f h r l = absurd (omega arith)
run-Effect lcmp_op (suc (suc zero)) f h r l = absurd (omega arith)
run-Effect lcmp_op (suc (suc (suc zero))) f h r l = absurd (omega arith)
run-Effect lcmp_op (suc (suc (suc (suc n)))) f h r l = lcmp-Effect f n (omega arith) l

-- An instruction that finds its operands, and room on the operand stack for its results, does to
-- the operands what it is to do, and goes on with the next byte; the frame stays well-formed, and
-- nothing else of it changes.
pub execute-Effect :
    (op : StackOp) (f : Frame)
    → IsFrame f
    → takes op ≤ f.top
    → f.top + grows op < length f.op_stack
    → Effect f 1 (execute op f) (effect op (operands f))
unfolding operands
execute-Effect op f w h r = run-Effect op f.top f h r w.indexed
