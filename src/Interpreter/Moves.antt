-- ===== src/Interpreter/Moves.antt =====
-- The handlers of Stack.antt against their instructions.
use jdepends.Common.{ℕ, suc, ◌^◌, ◌<◌, [], ◌∷◌, length, get_or, arith}
use jdepends.Interpreter.Machine.{Frame, read_word-lt, words}
use jdepends.Interpreter.Stack.{pop, pop2, dup, dup_x1, dup_x2, dup2, dup2_x1, dup2_x2, swap, nop}
use jdepends.Interpreter.Effects.{Effect, writes_then-Effect, plus32_is, minus32_is, with_top}
use jdepends.Interpreter.Instructions.{
  nop_op, pop_op, pop2_op, dup_op, dup_x1_op, dup_x2_op, dup2_op, dup2_x1_op, dup2_x2_op, swap_op,
  effect,
}

pub nop-Effect :
    (f : Frame) (n : ℕ)
    → n < length f.op_stack
    → length f.op_stack < 2 ^ 32
    → Effect (with_top f n) 1 (nop (with_top f n)) (effect nop_op (words f.op_stack n))
unfolding nop words
nop-Effect f n h l = writes_then-Effect (with_top f n) 1 n ([]) (omega arith) l

pub pop-Effect :
    (f : Frame) (n : ℕ)
    → suc n < length f.op_stack
    → length f.op_stack < 2 ^ 32
    → Effect
        (with_top f (suc n))
        1
        (pop (with_top f (suc n)))
        (effect pop_op (words f.op_stack (suc n)))
unfolding pop words
pop-Effect f n h l =
    let c = f.op_stack in
    rw (minus32_is (suc n) 1 n (omega arith) (omega arith))
      (writes_then-Effect (with_top f (suc n)) 1 n ([]) (omega arith) l)

pub pop2-Effect :
    (f : Frame) (n : ℕ)
    → suc (suc n) < length f.op_stack
    → length f.op_stack < 2 ^ 32
    → Effect
        (with_top f (suc (suc n)))
        1
        (pop2 (with_top f (suc (suc n))))
        (effect pop2_op (words f.op_stack (suc (suc n))))
unfolding pop2 words
pop2-Effect f n h l =
    let c = f.op_stack in
    rw (minus32_is (suc (suc n)) 2 n (omega arith) (omega arith))
      (writes_then-Effect (with_top f (suc (suc n))) 1 n ([]) (omega arith) l)

pub dup-Effect :
    (f : Frame) (n : ℕ)
    → suc (suc n) < length f.op_stack
    → length f.op_stack < 2 ^ 32
    → Effect
        (with_top f (suc n))
        1
        (dup (with_top f (suc n)))
        (effect dup_op (words f.op_stack (suc n)))
unfolding dup words
dup-Effect f n h l =
    let c = f.op_stack in
    rw
      (
        plus32_is (suc n) 1 (suc (suc n)) (omega arith) (omega arith),
        read_word-lt c (suc n) 0 (omega arith),
      )
      (writes_then-Effect (with_top f (suc n)) 1 (suc n) (get_or c (suc n) 0 ∷ []) (omega arith) l)

pub dup_x1-Effect :
    (f : Frame) (n : ℕ)
    → suc (suc (suc n)) < length f.op_stack
    → length f.op_stack < 2 ^ 32
    → Effect
        (with_top f (suc (suc n)))
        1
        (dup_x1 (with_top f (suc (suc n))))
        (effect dup_x1_op (words f.op_stack (suc (suc n))))
unfolding dup_x1 words
dup_x1-Effect f n h l =
    let c = f.op_stack in
    rw
      (
        plus32_is (suc (suc n)) 1 (suc (suc (suc n))) (omega arith) (omega arith),
        minus32_is (suc (suc n)) 1 (suc n) (omega arith) (omega arith),
        read_word-lt c (suc (suc n)) 0 (omega arith),
        read_word-lt c (suc n) 0 (omega arith),
      )
      (writes_then-Effect (with_top f (suc (suc n))) 1 n
        (get_or c (suc (suc n)) 0 ∷ get_or c (suc n) 0 ∷ get_or c (suc (suc n)) 0 ∷ [])
        (omega arith) l)

pub dup_x2-Effect :
    (f : Frame) (n : ℕ)
    → suc (suc (suc (suc n))) < length f.op_stack
    → length f.op_stack < 2 ^ 32
    → Effect
        (with_top f (suc (suc (suc n))))
        1
        (dup_x2 (with_top f (suc (suc (suc n)))))
        (effect dup_x2_op (words f.op_stack (suc (suc (suc n)))))
unfolding dup_x2 words
dup_x2-Effect f n h l =
    let c = f.op_stack in
    rw
      (
        plus32_is (suc (suc (suc n))) 1 (suc (suc (suc (suc n)))) (omega arith) (omega arith),
        minus32_is (suc (suc (suc n))) 1 (suc (suc n)) (omega arith) (omega arith),
        minus32_is (suc (suc (suc n))) 2 (suc n) (omega arith) (omega arith),
        read_word-lt c (suc (suc (suc n))) 0 (omega arith),
        read_word-lt c (suc (suc n)) 0 (omega arith),
        read_word-lt c (suc n) 0 (omega arith),
      )
      (writes_then-Effect (with_top f (suc (suc (suc n)))) 1 n
        (get_or c (suc (suc (suc n))) 0
          ∷ get_or c (suc n) 0
          ∷ get_or c (suc (suc n)) 0
          ∷ get_or c (suc (suc (suc n))) 0
          ∷ [])
        (omega arith) l)

pub dup2-Effect :
    (f : Frame) (n : ℕ)
    → suc (suc (suc (suc n))) < length f.op_stack
    → length f.op_stack < 2 ^ 32
    → Effect
        (with_top f (suc (suc n)))
        1
        (dup2 (with_top f (suc (suc n))))
        (effect dup2_op (words f.op_stack (suc (suc n))))
unfolding dup2 words
dup2-Effect f n h l =
    let c = f.op_stack in
    rw
      (
        plus32_is (suc (suc n)) 1 (suc (suc (suc n))) (omega arith) (omega arith),
        plus32_is (suc (suc n)) 2 (suc (suc (suc (suc n)))) (omega arith) (omega arith),
        minus32_is (suc (suc n)) 1 (suc n) (omega arith) (omega arith),
        read_word-lt c (suc (suc n)) 0 (omega arith),
        read_word-lt c (suc n) 0 (omega arith),
      )
      (writes_then-Effect (with_top f (suc (suc n))) 1 (suc (suc n))
        (get_or c (suc n) 0 ∷ get_or c (suc (suc n)) 0 ∷ []) (omega arith) l)

pub dup2_x1-Effect :
    (f : Frame) (n : ℕ)
    → suc (suc (suc (suc (suc n)))) < length f.op_stack
    → length f.op_stack < 2 ^ 32
    → Effect
        (with_top f (suc (suc (suc n))))
        1
        (dup2_x1 (with_top f (suc (suc (suc n)))))
        (effect dup2_x1_op (words f.op_stack (suc (suc (suc n)))))
unfolding dup2_x1 words
dup2_x1-Effect f n h l =
    let c = f.op_stack in
    rw
      (
        plus32_is (suc (suc (suc n))) 1 (suc (suc (suc (suc n)))) (omega arith) (omega arith),
        plus32_is (suc (suc (suc n))) 2 (suc (suc (suc (suc (suc n))))) (omega arith) (omega arith),
        minus32_is (suc (suc (suc n))) 1 (suc (suc n)) (omega arith) (omega arith),
        minus32_is (suc (suc (suc n))) 2 (suc n) (omega arith) (omega arith),
        read_word-lt c (suc (suc (suc n))) 0 (omega arith),
        read_word-lt c (suc (suc n)) 0 (omega arith),
        read_word-lt c (suc n) 0 (omega arith),
      )
      (writes_then-Effect (with_top f (suc (suc (suc n)))) 1 n
        (get_or c (suc (suc n)) 0
          ∷ get_or c (suc (suc (suc n))) 0
          ∷ get_or c (suc n) 0
          ∷ get_or c (suc (suc n)) 0
          ∷ get_or c (suc (suc (suc n))) 0
          ∷ [])
        (omega arith) l)

pub dup2_x2-Effect :
    (f : Frame) (n : ℕ)
    → suc (suc (suc (suc (suc (suc n))))) < length f.op_stack
    → length f.op_stack < 2 ^ 32
    → Effect
        (with_top f (suc (suc (suc (suc n)))))
        1
        (dup2_x2 (with_top f (suc (suc (suc (suc n))))))
        (effect dup2_x2_op (words f.op_stack (suc (suc (suc (suc n))))))
unfolding dup2_x2 words
dup2_x2-Effect f n h l =
    let c = f.op_stack in
    rw
      (
        plus32_is (suc (suc (suc (suc n)))) 1 (suc (suc (suc (suc (suc n))))) (omega arith)
            (omega arith),
        plus32_is (suc (suc (suc (suc n)))) 2 (suc (suc (suc (suc (suc (suc n)))))) (omega arith)
            (omega arith),
        minus32_is (suc (suc (suc (suc n)))) 1 (suc (suc (suc n))) (omega arith) (omega arith),
        minus32_is (suc (suc (suc (suc n)))) 2 (suc (suc n)) (omega arith) (omega arith),
        minus32_is (suc (suc (suc (suc n)))) 3 (suc n) (omega arith) (omega arith),
        read_word-lt c (suc (suc (suc (suc n)))) 0 (omega arith),
        read_word-lt c (suc (suc (suc n))) 0 (omega arith),
        read_word-lt c (suc (suc n)) 0 (omega arith),
        read_word-lt c (suc n) 0 (omega arith),
      )
      (writes_then-Effect (with_top f (suc (suc (suc (suc n))))) 1 n
        (get_or c (suc (suc (suc n))) 0
          ∷ get_or c (suc (suc (suc (suc n)))) 0
          ∷ get_or c (suc n) 0
          ∷ get_or c (suc (suc n)) 0
          ∷ get_or c (suc (suc (suc n))) 0
          ∷ get_or c (suc (suc (suc (suc n)))) 0
          ∷ [])
        (omega arith) l)

pub swap-Effect :
    (f : Frame) (n : ℕ)
    → suc (suc n) < length f.op_stack
    → length f.op_stack < 2 ^ 32
    → Effect
        (with_top f (suc (suc n)))
        1
        (swap (with_top f (suc (suc n))))
        (effect swap_op (words f.op_stack (suc (suc n))))
unfolding swap words
swap-Effect f n h l =
    let c = f.op_stack in
    rw
      (
        minus32_is (suc (suc n)) 1 (suc n) (omega arith) (omega arith),
        read_word-lt c (suc (suc n)) 0 (omega arith),
        read_word-lt c (suc n) 0 (omega arith),
      )
      (writes_then-Effect (with_top f (suc (suc n))) 1 n
        (get_or c (suc (suc n)) 0 ∷ get_or c (suc n) 0 ∷ []) (omega arith) l)
