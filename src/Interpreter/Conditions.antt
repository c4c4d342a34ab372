-- ===== src/Interpreter/Conditions.antt =====
-- Which way the conditional branches go.
use jdepends.Common.{
  ℕ, ◌-◌, ◌≤◌, ◌<◌, ◌≡◌, refl, ◌⊎◌, inl, inr, Bool, true, false, not, Bool-cases, ◌==◌,
  if◌then◌else◌, length, get_or, arith,
}
use jdepends.Interpreter.Machine.{Frame, done, plus32, minus32, short_of, read_word-lt, IsFrame}
use jdepends.Interpreter.Numbers.{ℤ, pos, negsuc, signed, ltz, eqz}
use jdepends.Interpreter.Branches.{
  IfOp, eq, ne, lt, ge, gt, le, condition, short_operand, ifopcode, ificmpopcode,
}

-- The test that holds when this one does not
abbrev pub opposite : IfOp → IfOp
opposite eq = ne
opposite ne = eq
opposite lt = ge
opposite ge = lt
opposite gt = le
opposite le = gt

-- The test with its two values exchanged
abbrev pub mirror : IfOp → IfOp
mirror eq = eq
mirror ne = ne
mirror lt = gt
mirror gt = lt
mirror ge = le
mirror le = ge

not-not : (b : Bool) → b ≡ not (not b)
not-not true = refl
not-not false = refl

condition-opposite : (op : IfOp) (a b : ℤ) → condition (opposite op) a b ≡ not (condition op a b)
unfolding condition
condition-opposite eq a b = refl
condition-opposite ne a b = not-not (eqz a b)
condition-opposite lt a b = refl
condition-opposite ge a b = not-not (ltz a b)
condition-opposite gt a b = refl
condition-opposite le a b = not-not (ltz b a)

==_comm : (a b : ℕ) → (a == b) ≡ (b == a)
==_comm a b = ground arith

eqz_comm : (a b : ℤ) → eqz a b ≡ eqz b a
eqz_comm (pos a) (pos b) = ==_comm a b
eqz_comm (pos a) (negsuc b) = refl
eqz_comm (negsuc a) (pos b) = refl
eqz_comm (negsuc a) (negsuc b) = ==_comm a b

condition-mirror : (op : IfOp) (a b : ℤ) → condition op a b ≡ condition (mirror op) b a
unfolding condition
condition-mirror eq a b = eqz_comm a b
condition-mirror ne a b = rw (eqz_comm a b) refl
condition-mirror lt a b = refl
condition-mirror ge a b = refl
condition-mirror gt a b = refl
condition-mirror le a b = refl

-- The offset or target that the code holds
abbrev pub code_short : Frame → ℕ
code_short f = short_of (get_or f.code 1 0) (get_or f.code 2 0)

short_operand-lt : (f : Frame) → 3 ≤ length f.code → short_operand f ≡ done (code_short f)
unfolding short_operand
short_operand-lt f h =
    rw (read_word-lt f.code 1 0 (omega arith), read_word-lt f.code 2 0 (omega arith)) refl

abbrev pub branched : Frame → ℕ → Frame
branched f distance = record f { top = f.top - 1; pc = plus32 f.pc distance }

abbrev pub distance_of : Frame → Bool → ℕ
distance_of f taken = if taken then code_short f else 3

ifopcode-lem :
    (op : IfOp) (f : Frame)
    → IsFrame f
    → 1 ≤ f.top
    → 3 ≤ length f.code
    → ifopcode op f
      ≡ done (
          branched f (distance_of f (condition op (signed 31 (get_or f.op_stack f.top 0)) (pos 0))))
unfolding ifopcode
ifopcode-lem op f w h c =
    let down : minus32 f.top 1 ≡ f.top - 1 = omega (arith, w.top_inside, w.indexed) in
    let taken = condition op (signed 31 (get_or f.op_stack f.top 0)) (pos 0) in
    elim (Bool-cases taken) [
      | inl e ↦
          rw (read_word-lt f.op_stack f.top 0 w.top_inside, e, short_operand-lt f c, down) refl
      | inr e ↦ rw (read_word-lt f.op_stack f.top 0 w.top_inside, e, down) refl
    ]

-- With an operand on the stack and the whole instruction in the code, of two opposite tests of
-- ifopcode one adds the offset in the code to the program counter and the other goes on behind the
-- instruction, and both take the operand off.
ifopcode-opposite :
    (op : IfOp) (f : Frame)
    → IsFrame f
    → 1 ≤ f.top
    → 3 ≤ length f.code
    → (ifopcode op f ≡ done (branched f (code_short f)))
        × (ifopcode (opposite op) f ≡ done (branched f 3))
      ⊎ (ifopcode op f ≡ done (branched f 3))
        × (ifopcode (opposite op) f ≡ done (branched f (code_short f)))
ifopcode-opposite op f w h c =
    let value = signed 31 (get_or f.op_stack f.top 0) in
    elim (Bool-cases (condition op value (pos 0))) [
      | inl e ↦ inl (
        rw (ifopcode-lem op f w h c, e) refl,
        rw (ifopcode-lem (opposite op) f w h c, condition-opposite op value (pos 0), e) refl,
      )
      | inr e ↦ inr (
        rw (ifopcode-lem op f w h c, e) refl,
        rw (ifopcode-lem (opposite op) f w h c, condition-opposite op value (pos 0), e) refl,
      )
    ]

-- With two operands on the stack, the first pushed below the second, and the whole instruction in
-- the code, ificmpopcode takes both off and jumps to the place that the code holds, counted from
-- the start of the method, if the mirrored test holds of the first and the second; else it goes on
-- behind the instruction.
ificmpopcode-mirror :
    (op : IfOp) (f : Frame)
    → IsFrame f
    → 2 ≤ f.top
    → 3 ≤ length f.code
    → let first = signed 31 (get_or f.op_stack (f.top - 1) 0) in
      let second = signed 31 (get_or f.op_stack f.top 0) in
      let target = if condition (mirror op) first second then code_short f else plus32 f.pc 3 in
      ificmpopcode op f ≡ done (record f { top = f.top - 2; pc = target })
unfolding ificmpopcode
ificmpopcode-mirror op f w h c =
    let first = signed 31 (get_or f.op_stack (f.top - 1) 0) in
    let second = signed 31 (get_or f.op_stack f.top 0) in
    let down : minus32 f.top 1 ≡ f.top - 1 = omega (arith, w.top_inside, w.indexed) in
    let down2 : minus32 f.top 2 ≡ f.top - 2 = omega (arith, w.top_inside, w.indexed) in
    let inside : f.top - 1 < length f.op_stack = omega (arith, w.top_inside) in
    elim (Bool-cases (condition (mirror op) first second)) [
      | inl e ↦
          rw
            (
              read_word-lt f.op_stack f.top 0 w.top_inside,
              down,
              down2,
              read_word-lt f.op_stack (f.top - 1) 0 inside,
              condition-mirror op second first,
              e,
              short_operand-lt f c,
            )
            refl
      | inr e ↦
          rw
            (
              read_word-lt f.op_stack f.top 0 w.top_inside,
              down,
              down2,
              read_word-lt f.op_stack (f.top - 1) 0 inside,
              condition-mirror op second first,
              e,
            )
            refl
    ]
