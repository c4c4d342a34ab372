-- ===== src/Interpreter/Branches.antt =====
-- The handlers of Jvmrt.c that choose where to go on.
use jdepends.Common.{ℕ, ◌+◌, ◌*◌, ◌%◌, ◌^◌, Bool, not, ltb, ◌==◌, if◌then◌else◌}
use jdepends.Interpreter.Machine.{
  java_virtual_machine_error, Frame, Step, done, raised, ◌>>=◌, plus32, minus32, short_of,
  read_word, write_word,
}
use jdepends.Interpreter.Numbers.{ℤ, pos, signed, ltz, eqz}

-- ifopenum
pub data IfOp : Type 0 where
  eq : IfOp
  ne : IfOp
  lt : IfOp
  ge : IfOp
  gt : IfOp
  le : IfOp

-- The condition of ifopcode and ificmpopcode, which is the same but for the second value
unfoldable pub condition : IfOp → ℤ → ℤ → Bool
condition eq a b = eqz a b
condition ne a b = not (eqz a b)
condition lt a b = ltz a b
condition le a b = not (ltz b a)
condition gt a b = ltz b a
condition ge a b = not (ltz a b)

-- The two bytes behind the opcode, `(code[1] << 8) | code[2]`
unfoldable pub short_operand : Frame → Step ℕ
short_operand f = do a ← read_word f.code 1; b ← read_word f.code 2; done (short_of a b)

-- ifopcode
unfoldable pub ifopcode : IfOp → Frame → Step Frame
ifopcode op f = do
  value ← read_word f.op_stack f.top
  distance ← if condition op (signed 31 value) (pos 0) then short_operand f else done 3
  done (record f { top = minus32 f.top 1; pc = plus32 f.pc distance })

-- ificmpopcode
unfoldable pub ificmpopcode : IfOp → Frame → Step Frame
ificmpopcode op f = do
  value1 ← read_word f.op_stack f.top
  value2 ← read_word f.op_stack (minus32 f.top 1)
  let taken = condition op (signed 31 value1) (signed 31 value2)
  target ← if taken then short_operand f else done (plus32 f.pc 3)
  done (record f { top = minus32 f.top 2; pc = target })

-- A jump of the handlers below: a target behind the code raises an exception, and the operands
-- that are off the stack stay off.
unfoldable pub jump : Frame → ℕ → Step Frame
jump f target =
    if ltb f.code_length target
    then raised java_virtual_machine_error f
    else done (record f { pc = target })

-- The frame without the reference, which falls through
abbrev pub fall_through : Frame → Step Frame
fall_through popped = done (record popped { pc = plus32 popped.pc 3 })

-- JvmRtByteCode_ifnull__Handler
unfoldable pub ifnull : Frame → Step Frame
ifnull f = do
  reference ← read_word f.op_stack f.top
  let popped = record f { top = minus32 f.top 1 }
  (if reference == 0 then short_operand f >>= jump popped else fall_through popped)

-- JvmRtByteCode_ifnonnull__Handler
unfoldable pub ifnonnull : Frame → Step Frame
ifnonnull f = do
  reference ← read_word f.op_stack f.top
  let popped = record f { top = minus32 f.top 1 }
  (if reference == 0 then fall_through popped else short_operand f >>= jump popped)

-- Four code bytes as a target
unfoldable pub wide_target : Frame → Step ℕ
wide_target f = do
  a ← read_word f.code 1
  b ← read_word f.code 2
  c ← read_word f.code 3
  d ← read_word f.code 4
  done ((a * 2 ^ 24 + b * 2 ^ 16 + c * 2 ^ 8 + d) % 2 ^ 32)

-- JvmRtByteCode_goto_w__Handler
unfoldable pub goto_w : Frame → Step Frame
goto_w f = wide_target f >>= jump f

-- JvmRtByteCode_jsr_w__Handler: the top is incremented after the store.
unfoldable pub jsr_w : Frame → Step Frame
jsr_w f = do
  cells ← write_word f.op_stack f.top (plus32 f.pc 5)
  target ← wide_target f
  jump (record f { op_stack = cells; top = plus32 f.top 1 }) target

-- JvmRtByteCode_ifeq__Handler, and its kin below
unfoldable pub ifeq : Frame → Step Frame
ifeq f = ifopcode eq f

unfoldable pub ifne : Frame → Step Frame
ifne f = ifopcode ne f

unfoldable pub iflt : Frame → Step Frame
iflt f = ifopcode lt f

unfoldable pub ifge : Frame → Step Frame
ifge f = ifopcode ge f

unfoldable pub ifgt : Frame → Step Frame
ifgt f = ifopcode gt f

unfoldable pub ifle : Frame → Step Frame
ifle f = ifopcode le f

-- JvmRtByteCode_if_icmpeq__Handler, and its kin below
unfoldable pub if_icmpeq : Frame → Step Frame
if_icmpeq f = ificmpopcode eq f

unfoldable pub if_icmpne : Frame → Step Frame
if_icmpne f = ificmpopcode ne f

unfoldable pub if_icmplt : Frame → Step Frame
if_icmplt f = ificmpopcode lt f

unfoldable pub if_icmpge : Frame → Step Frame
if_icmpge f = ificmpopcode ge f

unfoldable pub if_icmpgt : Frame → Step Frame
if_icmpgt f = ificmpopcode gt f

unfoldable pub if_icmple : Frame → Step Frame
if_icmple f = ificmpopcode le f
