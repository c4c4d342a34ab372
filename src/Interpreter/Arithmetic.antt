-- ===== src/Interpreter/Arithmetic.antt =====
-- The integer arithmetic, the conversions, the comparison of longs and the constants of Jvmrt.c.
use jdepends.Common.{ℕ, ◌+◌, ◌-◌, ◌%◌, ◌^◌, ◌==◌, if◌then◌else◌}
use jdepends.Interpreter.Machine.{
  Frame, Step, done, ◌>>=◌, plus32, minus32, short_of, read_word, write_word,
}
use jdepends.Interpreter.Numbers.{signed, ltz, long_of, hi_word, lo_word, narrow}
use jdepends.Interpreter.Stack.{continue}

-- JvmRtByteCode_iadd__Handler
unfoldable pub iadd : Frame → Step Frame
iadd f = do
  value1 ← read_word f.op_stack f.top
  value2 ← read_word f.op_stack (minus32 f.top 1)
  cells ← write_word f.op_stack (minus32 f.top 1) (plus32 value1 value2)
  done (continue f cells (minus32 f.top 1) 1)

-- JvmRtByteCode_isub__Handler
unfoldable pub isub : Frame → Step Frame
isub f = do
  value2 ← read_word f.op_stack f.top
  value1 ← read_word f.op_stack (minus32 f.top 1)
  cells ← write_word f.op_stack (minus32 f.top 1) (minus32 value1 value2)
  done (continue f cells (minus32 f.top 1) 1)

-- What the two handlers on longs share: both values from four words, and the result in two. The
-- top is decremented three times.
unfoldable pub on_longs : (ℕ → ℕ → ℕ) → Frame → Step Frame
on_longs operation f = do
  hi2 ← read_word f.op_stack (minus32 f.top 1)
  lo2 ← read_word f.op_stack f.top
  hi1 ← read_word f.op_stack (minus32 f.top 3)
  lo1 ← read_word f.op_stack (minus32 f.top 2)
  let value = operation (long_of hi1 lo1) (long_of hi2 lo2)
  a ← write_word f.op_stack (minus32 f.top 2) (lo_word value)
  b ← write_word a (minus32 f.top 3) (hi_word value)
  done (continue f b (minus32 f.top 3) 1)

-- JvmRtByteCode_ladd__Handler
unfoldable pub ladd : Frame → Step Frame
ladd f = on_longs (λ a b. (a + b) % 2 ^ 64) f

-- JvmRtByteCode_lsub__Handler
unfoldable pub lsub : Frame → Step Frame
lsub f = on_longs (λ a b. (a + 2 ^ 64 - b) % 2 ^ 64) f

-- JvmRtByteCode_i2l__Handler
unfoldable pub i2l : Frame → Step Frame
i2l f = do
  value ← read_word f.op_stack f.top
  a ← write_word f.op_stack f.top 0
  b ← write_word a (plus32 f.top 1) value
  done (continue f b (plus32 f.top 1) 1)

-- The three conversions below: the value at the top is replaced.
unfoldable pub convert : (ℕ → ℕ) → Frame → Step Frame
convert conversion f = do
  value ← read_word f.op_stack f.top
  cells ← write_word f.op_stack f.top (conversion value)
  done (continue f cells f.top 1)

-- JvmRtByteCode_i2b__Handler; a JAVA_BYTE is a signed char.
unfoldable pub i2b : Frame → Step Frame
i2b f = convert (narrow 7) f

-- JvmRtByteCode_i2c__Handler; a JAVA_CHAR is an unsigned short.
unfoldable pub i2c : Frame → Step Frame
i2c f = convert (λ w. w % 2 ^ 16) f

-- JvmRtByteCode_i2s__Handler
unfoldable pub i2s : Frame → Step Frame
i2s f = convert (narrow 15) f

-- The word that the comparison of two longs pushes
unfoldable pub order_of : ℕ → ℕ → ℕ
order_of value1 value2 =
    if ltz (signed 63 value2) (signed 63 value1)
    then 1
    else if value1 == value2
    then 0
    else 2 ^ 32 - 1

-- JvmRtByteCode_lcmp__Handler
unfoldable pub lcmp : Frame → Step Frame
lcmp f = do
  lo2 ← read_word f.op_stack f.top
  hi2 ← read_word f.op_stack (minus32 f.top 1)
  lo1 ← read_word f.op_stack (minus32 f.top 2)
  hi1 ← read_word f.op_stack (minus32 f.top 3)
  cells ← write_word f.op_stack (minus32 f.top 3) (order_of (long_of hi1 lo1) (long_of hi2 lo2))
  done (continue f cells (minus32 f.top 3) 1)

-- One word on top of the stack, `n` code bytes
unfoldable pub push : Frame → ℕ → ℕ → Step Frame
push f word n = do
  cells ← write_word f.op_stack (plus32 f.top 1) word
  done (continue f cells (plus32 f.top 1) n)

-- Two words on top of the stack, `n` code bytes
unfoldable pub push_two : Frame → ℕ → ℕ → ℕ → Step Frame
push_two f word1 word2 n = do
  a ← write_word f.op_stack (plus32 f.top 1) word1
  b ← write_word a (plus32 f.top 2) word2
  done (continue f b (plus32 f.top 2) n)

-- JvmRtByteCode_aconst_null__Handler
unfoldable pub aconst_null : Frame → Step Frame
aconst_null f = push f 0 1

-- JvmRtByteCode_iconst_n__Handler
unfoldable pub iconst_n : Frame → Step Frame
iconst_n f = do
  opcode ← read_word f.code 0
  push f (if opcode == 2 then 2 ^ 32 - 1 else minus32 opcode 3) 1

-- JvmRtByteCode_lconst_n__Handler
unfoldable pub lconst_n : Frame → Step Frame
lconst_n f = do opcode ← read_word f.code 0; push_two f 0 (if opcode == 9 then 0 else 1) 1

-- JvmRtByteCode_fconst_n__Handler: the values are converted to words, not their bit patterns.
unfoldable pub fconst_n : Frame → Step Frame
fconst_n f = do
  opcode ← read_word f.code 0
  push f (if opcode == 11 then 0 else if opcode == 12 then 1 else 2) 1

-- JvmRtByteCode_dconst_n__Handler: 1.0 becomes the integer 1, whose upper half is pushed, and the
-- lower half is taken of 0.0 either way.
unfoldable pub dconst_n : Frame → Step Frame
dconst_n f = do
  opcode ← read_word f.code 0
  push_two f (if opcode == 14 then hi_word 0 else hi_word 1) (lo_word 0) 1

-- JvmRtByteCode_bipush__Handler
unfoldable pub bipush : Frame → Step Frame
bipush f = do value ← read_word f.code 1; push f value 2

-- JvmRtByteCode_sipush__Handler
unfoldable pub sipush : Frame → Step Frame
sipush f = do a ← read_word f.code 1; b ← read_word f.code 2; push f (short_of a b) 3
