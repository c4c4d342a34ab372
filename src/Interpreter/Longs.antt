-- ===== src/Interpreter/Longs.antt =====
-- The signed values behind the bit patterns: conversions, the order of longs, and long sums.
use jdepends.Common.{
  ℕ, zero, suc, ◌+◌, ◌-◌, ◌%◌, ◌^◌, ◌≤◌, ◌<◌, ◌≡◌, refl, ap, ◌⊎◌, inl, inr, true, false, Bool-cases,
  ltb, ◌==◌, ==→eq, List, ◌∷◌, length, length-set, get_or, set, arith,
}
use jdepends.Interpreter.Machine.{
  Frame, plus32, read_word-lt, write_word-lt, words, words-set, words-above, operands, IsFrame,
}
use jdepends.Interpreter.Numbers.{negsuc, signed, ltz, long_of, hi_word, lo_word, narrow}
use jdepends.Interpreter.Stack.{continue}
use jdepends.Interpreter.Arithmetic.{order_of, on_longs, ladd, lsub}
use jdepends.Interpreter.Instructions.{biased}
use jdepends.Interpreter.Effects.{Effect, minus32_is, with_top}

-- The sign of the low `n + 1` bits is the sign of the word.
narrow-Signed :
    (n w : ℕ)
    → w % 2 ^ suc n < 2 ^ suc n
    → 2 ^ suc n ≡ 2 ^ n + 2 ^ n
    → 2 ^ n ≤ 2 ^ 30
    → signed 31 (narrow n w) ≡ signed n (w % 2 ^ suc n)
unfolding signed narrow
narrow-Signed n w less twice small =
    let low = w % 2 ^ suc n in
    elim (Bool-cases (ltb low (2 ^ n))) [
      | inl e ↦ let fits : ltb low (2 ^ 31) ≡ true = ground arith in rw (e, fits) refl
      | inr e ↦
          let high : ltb (low + (2 ^ 32 - 2 ^ suc n)) (2 ^ 31) ≡ false = ground arith in
          rw (e, high) (ap negsuc (omega arith))
    ]

-- The word that i2b or i2s leaves reads, as an int, as the signed reading of the low byte or of the
-- low two bytes of the value.
signed-narrow :
    (w : ℕ)
    → (signed 31 (narrow 7 w) ≡ signed 7 (w % 2 ^ 8))
      × (signed 31 (narrow 15 w) ≡ signed 15 (w % 2 ^ 16))
signed-narrow w = (
  narrow-Signed 7 w (omega arith) refl (omega arith),
  narrow-Signed 15 w (omega arith) refl (omega arith),
)

pub ltz-biased :
    (a b : ℕ)
    → a < 2 ^ 64
    → b < 2 ^ 64
    → ltz (signed 63 a) (signed 63 b) ≡ ltb (biased a) (biased b)
unfolding signed
ltz-biased a b h k = elim (Bool-cases (ltb a (2 ^ 63))) [
  | inl e ↦ elim (Bool-cases (ltb b (2 ^ 63))) [
    | inl e' ↦ rw (e, e') (ground arith)
    | inr e' ↦ rw (e, e') (ground arith)
  ]
  | inr e ↦ elim (Bool-cases (ltb b (2 ^ 63))) [
    | inl e' ↦ rw (e, e') (ground arith)
    | inr e' ↦ rw (e, e') (ground arith)
  ]
]

-- For two longs, the comparison gives 1, 0 or -1 as the first is above the second, equal to it or
-- below it in the order of the signed values.
order_of-biased :
    (a b : ℕ)
    → a < 2 ^ 64
    → b < 2 ^ 64
    → (biased b < biased a) × (order_of a b ≡ 1)
      ⊎ (a ≡ b) × (order_of a b ≡ 0)
      ⊎ (biased a < biased b) × (order_of a b ≡ 2 ^ 32 - 1)
unfolding order_of
order_of-biased a b h k = elim (Bool-cases (ltb (biased b) (biased a))) [
  | inl e ↦ inl (ground arith, rw (ltz-biased b a k h, e) refl)
  | inr e ↦ elim (Bool-cases (a == b)) [
    | inl e' ↦ inr (inl (==→eq a b e', rw (ltz-biased b a k h, e, e') refl))
    | inr e' ↦ inr (inr (ground arith, rw (ltz-biased b a k h, e, e') refl))
  ]
]

-- What the two stores of a long operation leave
long_result-stack :
    (cells : List ℕ) (n lo hi : ℕ)
    → suc (suc n) < length cells
    → words (set (set cells (suc (suc n)) lo) (suc n) hi) (suc n) ≡ hi ∷ words cells n
long_result-stack cells n lo hi h =
    rw
      (
        words-set (set cells (suc (suc n)) lo) n hi
            (omega (arith, length-set cells (suc (suc n)) lo)),
        words-above cells (suc (suc n)) n lo (omega arith),
      )
      refl

on_longs-lem :
    (operation : ℕ → ℕ → ℕ) (f : Frame) (n : ℕ)
    → suc (suc (suc (suc n))) < length f.op_stack
    → length f.op_stack < 2 ^ 32
    → let c = f.op_stack in
      let first = long_of (get_or c (suc n) 0) (get_or c (suc (suc n)) 0) in
      let second =
        long_of (get_or c (suc (suc (suc n))) 0) (get_or c (suc (suc (suc (suc n)))) 0) in
      Effect
        (with_top f (suc (suc (suc (suc n)))))
        1
        (on_longs operation (with_top f (suc (suc (suc (suc n))))))
        (hi_word (operation first second) ∷ words c n)
unfolding on_longs continue operands
on_longs-lem operation f n h l =
    let c = f.op_stack in
    let first = long_of (get_or c (suc n) 0) (get_or c (suc (suc n)) 0) in
    let second = long_of (get_or c (suc (suc (suc n))) 0) (get_or c (suc (suc (suc (suc n)))) 0) in
    let lo = lo_word (operation first second) in
    let hi = hi_word (operation first second) in
    let c1 = set c (suc (suc n)) lo in
    let size = length-set c (suc (suc n)) lo in
    record {
      after = record f { op_stack = set c1 (suc n) hi; top = suc n; pc = plus32 f.pc 1 };
      result =
          rw
            (
              minus32_is (suc (suc (suc (suc n)))) 1 (suc (suc (suc n))) (omega arith)
                  (omega arith),
              minus32_is (suc (suc (suc (suc n)))) 2 (suc (suc n)) (omega arith) (omega arith),
              minus32_is (suc (suc (suc (suc n)))) 3 (suc n) (omega arith) (omega arith),
              read_word-lt c (suc (suc (suc n))) 0 (omega arith),
              read_word-lt c (suc (suc (suc (suc n)))) 0 h,
              read_word-lt c (suc n) 0 (omega arith),
              read_word-lt c (suc (suc n)) 0 (omega arith),
              write_word-lt c (suc (suc n)) lo (omega arith),
              write_word-lt c1 (suc n) hi (omega (arith, size)),
            )
            refl;
      stack = long_result-stack c n lo hi (omega arith);
      frame = record {
        top_inside = omega (arith, size, length-set c1 (suc n) hi);
        indexed = omega (arith, size, length-set c1 (suc n) hi);
      };
      next = refl;
      same = refl;
    }

module _ (operation : ℕ → ℕ → ℕ) (f : Frame) (lo2 hi2 lo1 hi1 : ℕ) (s : List ℕ) where
  abbrev LongOutcome : ℕ → Type 0
  LongOutcome t =
      Effect (with_top f t) 1 (on_longs operation (with_top f t))
        (hi_word (operation (long_of hi1 lo1) (long_of hi2 lo2)) ∷ s)

  on_longs-cases :
      (t : ℕ)
      → t < length f.op_stack
      → length f.op_stack < 2 ^ 32
      → words f.op_stack t ≡ lo2 ∷ hi2 ∷ lo1 ∷ hi1 ∷ s
      → LongOutcome t
  unfolding words
  on_longs-cases zero h l e = cc
  on_longs-cases (suc zero) h l e = cc
  on_longs-cases (suc (suc zero)) h l e = cc
  on_longs-cases (suc (suc (suc zero))) h l e = cc
  on_longs-cases (suc (suc (suc (suc n)))) h l e =
      let c = f.op_stack in
      let e1 : lo2 ≡ get_or c (suc (suc (suc (suc n)))) 0 = cc in
      let e2 : hi2 ≡ get_or c (suc (suc (suc n))) 0 = cc in
      let e3 : lo1 ≡ get_or c (suc (suc n)) 0 = cc in
      let e4 : hi1 ≡ get_or c (suc n) 0 = cc in
      let e5 : s ≡ words c n = cc in rw (e1, e2, e3, e4, e5) (on_longs-lem operation f n h l)

on_longs-Effect :
    (operation : ℕ → ℕ → ℕ) (f : Frame) (lo2 hi2 lo1 hi1 : ℕ) (s : List ℕ)
    → IsFrame f
    → operands f ≡ lo2 ∷ hi2 ∷ lo1 ∷ hi1 ∷ s
    → Effect f 1
        (on_longs operation f)
        (hi_word (operation (long_of hi1 lo1) (long_of hi2 lo2)) ∷ s)
unfolding operands
on_longs-Effect operation f lo2 hi2 lo1 hi1 s w e =
    on_longs-cases operation f lo2 hi2 lo1 hi1 s f.top w.top_inside w.indexed e

-- With two longs on the stack, each with its upper word pushed first, ladd and lsub leave the upper
-- word of the 64-bit sum or difference in place of the four words; the lower word of the result is
-- not among the operands.
pub ladd-Effect :
    (f : Frame) (lo2 hi2 lo1 hi1 : ℕ) (s : List ℕ)
    → IsFrame f
    → operands f ≡ lo2 ∷ hi2 ∷ lo1 ∷ hi1 ∷ s
    → let first = long_of hi1 lo1 in
      let second = long_of hi2 lo2 in
      Effect f 1 (ladd f) (hi_word ((first + second) % 2 ^ 64) ∷ s)
      × Effect f 1 (lsub f) (hi_word ((first + 2 ^ 64 - second) % 2 ^ 64) ∷ s)
unfolding ladd lsub
ladd-Effect f lo2 hi2 lo1 hi1 s w e = (
  on_longs-Effect (λ a b. (a + b) % 2 ^ 64) f lo2 hi2 lo1 hi1 s w e,
  on_longs-Effect (λ a b. (a + 2 ^ 64 - b) % 2 ^ 64) f lo2 hi2 lo1 hi1 s w e,
)
