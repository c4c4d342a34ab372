-- ===== src/Interpreter/Sums.antt =====
-- The handlers of Arithmetic.antt against their instructions.
use jdepends.Common.{
  ℕ, suc, ◌%◌, ◌^◌, ◌<◌, ◌≡◌, inl, inr, ltb, Bool-cases, ◌==◌, ==→eq, [], ◌∷◌, length, get_or,
  arith,
}
use jdepends.Interpreter.Machine.{Frame, plus32, minus32, read_word-lt, words}
use jdepends.Interpreter.Numbers.{long_of, narrow}
use jdepends.Interpreter.Arithmetic.{iadd, isub, convert, i2b, i2c, i2s, order_of, lcmp}
use jdepends.Interpreter.Effects.{Effect, writes_then-Effect, minus32_is, with_top}
use jdepends.Interpreter.Instructions.{
  iadd_op, isub_op, i2b_op, i2c_op, i2s_op, lcmp_op, effect, byte_extended, short_extended,
  compared,
}
use jdepends.Interpreter.Longs.{ltz-biased}

plus32_comm : (a b : ℕ) → plus32 a b ≡ plus32 b a
plus32_comm a b = omega arith

pub iadd-Effect :
    (f : Frame) (n : ℕ)
    → suc (suc n) < length f.op_stack
    → length f.op_stack < 2 ^ 32
    → Effect
        (with_top f (suc (suc n)))
        1
        (iadd (with_top f (suc (suc n))))
        (effect iadd_op (words f.op_stack (suc (suc n))))
unfolding iadd words
iadd-Effect f n h l =
    let c = f.op_stack in
    rw
      (
        minus32_is (suc (suc n)) 1 (suc n) (omega arith) (omega arith),
        read_word-lt c (suc (suc n)) 0 (omega arith),
        read_word-lt c (suc n) 0 (omega arith),
        plus32_comm (get_or c (suc (suc n)) 0) (get_or c (suc n) 0),
      )
      (writes_then-Effect (with_top f (suc (suc n))) 1 n
        (plus32 (get_or c (suc n) 0) (get_or c (suc (suc n)) 0) ∷ []) (omega arith) l)

pub isub-Effect :
    (f : Frame) (n : ℕ)
    → suc (suc n) < length f.op_stack
    → length f.op_stack < 2 ^ 32
    → Effect
        (with_top f (suc (suc n)))
        1
        (isub (with_top f (suc (suc n))))
        (effect isub_op (words f.op_stack (suc (suc n))))
unfolding isub words
isub-Effect f n h l =
    let c = f.op_stack in
    rw
      (
        minus32_is (suc (suc n)) 1 (suc n) (omega arith) (omega arith),
        read_word-lt c (suc (suc n)) 0 (omega arith),
        read_word-lt c (suc n) 0 (omega arith),
      )
      (writes_then-Effect (with_top f (suc (suc n))) 1 n
        (minus32 (get_or c (suc n) 0) (get_or c (suc (suc n)) 0) ∷ []) (omega arith) l)

pub narrow-byte_extended : (w : ℕ) → narrow 7 w ≡ byte_extended w
unfolding narrow
narrow-byte_extended w = elim (Bool-cases (ltb (w % 2 ^ 8) (2 ^ 7))) [
  | inl e ↦ rw e (ground arith)
  | inr e ↦ rw e (ground arith)
]

pub narrow-short_extended : (w : ℕ) → narrow 15 w ≡ short_extended w
unfolding narrow
narrow-short_extended w = elim (Bool-cases (ltb (w % 2 ^ 16) (2 ^ 15))) [
  | inl e ↦ rw e (ground arith)
  | inr e ↦ rw e (ground arith)
]

order_of-compared : (a b : ℕ) → a < 2 ^ 64 → b < 2 ^ 64 → order_of a b ≡ compared a b
unfolding order_of
order_of-compared a b h k = rw (ltz-biased b a k h) (elim (Bool-cases (a == b)) [
  | inl e ↦ let same = ==→eq a b e in rw e (ground (arith, same))
  | inr e ↦ rw e (ground arith)
])

long_of-lt : (hi lo : ℕ) → long_of hi lo < 2 ^ 64
unfolding long_of
long_of-lt hi lo = omega arith

pub i2b-Effect :
    (f : Frame) (n : ℕ)
    → suc n < length f.op_stack
    → length f.op_stack < 2 ^ 32
    → Effect
        (with_top f (suc n))
        1
        (i2b (with_top f (suc n)))
        (effect i2b_op (words f.op_stack (suc n)))
unfolding i2b convert words
i2b-Effect f n h l =
    let c = f.op_stack in
    rw (read_word-lt c (suc n) 0 (omega arith), narrow-byte_extended (get_or c (suc n) 0))
      (writes_then-Effect (with_top f (suc n)) 1 n (byte_extended (get_or c (suc n) 0) ∷ [])
        (omega arith) l)

pub i2c-Effect :
    (f : Frame) (n : ℕ)
    → suc n < length f.op_stack
    → length f.op_stack < 2 ^ 32
    → Effect
        (with_top f (suc n))
        1
        (i2c (with_top f (suc n)))
        (effect i2c_op (words f.op_stack (suc n)))
unfolding i2c convert words
i2c-Effect f n h l =
    let c = f.op_stack in
    rw (read_word-lt c (suc n) 0 (omega arith)) (
      writes_then-Effect (with_top f (suc n)) 1 n ((get_or c (suc n) 0) % 2 ^ 16 ∷ []) (omega arith)
        l)

pub i2s-Effect :
    (f : Frame) (n : ℕ)
    → suc n < length f.op_stack
    → length f.op_stack < 2 ^ 32
    → Effect
        (with_top f (suc n))
        1
        (i2s (with_top f (suc n)))
        (effect i2s_op (words f.op_stack (suc n)))
unfolding i2s convert words
i2s-Effect f n h l =
    let c = f.op_stack in
    rw (read_word-lt c (suc n) 0 (omega arith), narrow-short_extended (get_or c (suc n) 0))
      (writes_then-Effect (with_top f (suc n)) 1 n (short_extended (get_or c (suc n) 0) ∷ [])
        (omega arith) l)

pub lcmp-Effect :
    (f : Frame) (n : ℕ)
    → suc (suc (suc (suc n))) < length f.op_stack
    → length f.op_stack < 2 ^ 32
    → Effect
        (with_top f (suc (suc (suc (suc n)))))
        1
        (lcmp (with_top f (suc (suc (suc (suc n))))))
        (effect lcmp_op (words f.op_stack (suc (suc (suc (suc n))))))
unfolding lcmp words
lcmp-Effect f n h l =
    let c = f.op_stack in
    rw
      (
        minus32_is (suc (suc (suc (suc n)))) 1 (suc (suc (suc n))) (omega arith) (omega arith),
        minus32_is (suc (suc (suc (suc n)))) 2 (suc (suc n)) (omega arith) (omega arith),
        minus32_is (suc (suc (suc (suc n)))) 3 (suc n) (omega arith) (omega arith),
        read_word-lt c (suc (suc (suc (suc n)))) 0 (omega arith),
        read_word-lt c (suc (suc (suc n))) 0 (omega arith),
        read_word-lt c (suc (suc n)) 0 (omega arith),
        read_word-lt c (suc n) 0 (omega arith),
        order_of-compared (long_of (get_or c (suc n) 0) (get_or c (suc (suc n)) 0))
            (long_of (get_or c (suc (suc (suc n))) 0) (get_or c (suc (suc (suc (suc n)))) 0))
            (long_of-lt _ _) (long_of-lt _ _),
      )
      (writes_then-Effect (with_top f (suc (suc (suc (suc n))))) 1 n
        (compared (long_of (get_or c (suc n) 0) (get_or c (suc (suc n)) 0))
            (long_of (get_or c (suc (suc (suc n))) 0) (get_or c (suc (suc (suc (suc n)))) 0))
          ∷ [])
        (omega arith) l)
