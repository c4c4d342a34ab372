-- ===== src/Interpreter/Stack.antt =====
-- The handlers of Jvmrt.c from pop to swap, which move operands. ju32OpStackTop is changed in the
-- environment, so each read of it after an increment is of the new value.
use jdepends.Common.{ℕ, List}
use jdepends.Interpreter.Machine.{Frame, Step, done, ◌>>=◌, plus32, minus32, read_word, write_word}

-- The frame with another operand stack and top, `n` bytes further in the code
unfoldable pub continue : Frame → List ℕ → ℕ → ℕ → Frame
continue f cells top n = record f { op_stack = cells; top = top; pc = plus32 f.pc n }

-- JvmRtByteCode_pop__Handler
unfoldable pub pop : Frame → Step Frame
pop f = done (continue f f.op_stack (minus32 f.top 1) 1)

-- JvmRtByteCode_pop2__Handler
unfoldable pub pop2 : Frame → Step Frame
pop2 f = done (continue f f.op_stack (minus32 f.top 2) 1)

-- JvmRtByteCode_dup__Handler
unfoldable pub dup : Frame → Step Frame
dup f = do
  value ← read_word f.op_stack f.top
  cells ← write_word f.op_stack (plus32 f.top 1) value
  done (continue f cells (plus32 f.top 1) 1)

-- JvmRtByteCode_dup_x1__Handler
unfoldable pub dup_x1 : Frame → Step Frame
dup_x1 f = do
  word1 ← read_word f.op_stack f.top
  word2 ← read_word f.op_stack (minus32 f.top 1)
  a ← write_word f.op_stack (minus32 f.top 1) word1
  b ← write_word a f.top word2
  c ← write_word b (plus32 f.top 1) word1
  done (continue f c (plus32 f.top 1) 1)

-- JvmRtByteCode_dup_x2__Handler
unfoldable pub dup_x2 : Frame → Step Frame
dup_x2 f = do
  word1 ← read_word f.op_stack f.top
  word2 ← read_word f.op_stack (minus32 f.top 1)
  word3 ← read_word f.op_stack (minus32 f.top 2)
  a ← write_word f.op_stack (minus32 f.top 2) word1
  b ← write_word a (minus32 f.top 1) word3
  c ← write_word b f.top word2
  d ← write_word c (plus32 f.top 1) word1
  done (continue f d (plus32 f.top 1) 1)

-- JvmRtByteCode_dup2__Handler
unfoldable pub dup2 : Frame → Step Frame
dup2 f = do
  word1 ← read_word f.op_stack f.top
  word2 ← read_word f.op_stack (minus32 f.top 1)
  a ← write_word f.op_stack (plus32 f.top 1) word2
  b ← write_word a (plus32 f.top 2) word1
  done (continue f b (plus32 f.top 2) 1)

-- JvmRtByteCode_dup2_x1__Handler
unfoldable pub dup2_x1 : Frame → Step Frame
dup2_x1 f = do
  word1 ← read_word f.op_stack f.top
  word2 ← read_word f.op_stack (minus32 f.top 1)
  word3 ← read_word f.op_stack (minus32 f.top 2)
  a ← write_word f.op_stack (minus32 f.top 2) word2
  b ← write_word a (minus32 f.top 1) word1
  c ← write_word b f.top word3
  d ← write_word c (plus32 f.top 1) word2
  e ← write_word d (plus32 f.top 2) word1
  done (continue f e (plus32 f.top 2) 1)

-- JvmRtByteCode_dup2_x2__Handler
unfoldable pub dup2_x2 : Frame → Step Frame
dup2_x2 f = do
  word1 ← read_word f.op_stack f.top
  word2 ← read_word f.op_stack (minus32 f.top 1)
  word3 ← read_word f.op_stack (minus32 f.top 2)
  word4 ← read_word f.op_stack (minus32 f.top 3)
  a ← write_word f.op_stack (minus32 f.top 3) word2
  b ← write_word a (minus32 f.top 2) word1
  c ← write_word b (minus32 f.top 1) word4
  d ← write_word c f.top word3
  e ← write_word d (plus32 f.top 1) word2
  g ← write_word e (plus32 f.top 2) word1
  done (continue f g (plus32 f.top 2) 1)

-- JvmRtByteCode_swap__Handler
unfoldable pub swap : Frame → Step Frame
swap f = do
  word1 ← read_word f.op_stack f.top
  word2 ← read_word f.op_stack (minus32 f.top 1)
  a ← write_word f.op_stack (minus32 f.top 1) word1
  b ← write_word a f.top word2
  done (continue f b f.top 1)

-- JvmRtByteCode_nop__Handler, and JvmRtByteCode_DUMMY__Handler
unfoldable pub nop : Frame → Step Frame
nop f = done (continue f f.op_stack f.top 1)
