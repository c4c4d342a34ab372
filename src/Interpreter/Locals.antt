-- ===== src/Interpreter/Locals.antt =====
-- The handlers of Jvmrt.c that move words between the operand stack and the local variables, with
-- iinc, ret and the wide prefix. A negative index is outside the array.
use jdepends.Common.{ℕ, ◌+◌, ◌-◌, Option, none, some, List, ◌||◌, ltb, ◌==◌, if◌then◌else◌}
use jdepends.Interpreter.Machine.{
  java_virtual_machine_error, Frame, Step, done, raised, fault, ◌>>=◌, plus32, minus32, short_of,
  read_word, write_word,
}
use jdepends.Interpreter.Arithmetic.{push, push_two}

-- WIDE
abbrev pub wide_opcode : ℕ
wide_opcode = 196

-- The index of the local variable: two bytes after a wide prefix and the opcode, or one byte
unfoldable pub local_index : List ℕ → ℕ → Step ℕ
local_index code opcode =
    let wide_index = (do a ← read_word code 2; b ← read_word code 3; done (short_of a b)) in
    if opcode == wide_opcode then wide_index else read_word code 1

abbrev pub bytes_of : ℕ → ℕ
bytes_of opcode = if opcode == wide_opcode then 4 else 2

-- The variable that a byte stands for, counted from `base`
unfoldable pub counted_from : ℕ → ℕ → Step ℕ
counted_from base byte = if ltb byte base then fault else done (byte - base)

-- IS_A_REFERENCE is 1.
abbrev pub checked_entry : Frame → ℕ → Step ℕ
checked_entry f entry = if entry == 1 then done entry else raised java_virtual_machine_error f

-- The stack map, where there is one, says that the variable is a reference.
unfoldable pub check_reference : Frame → Option (List ℕ) → ℕ → Step ℕ
check_reference f none index = done 1
check_reference f (some entries) index = read_word entries index >>= checked_entry f

-- JvmRtByteCode_ifload__Handler
unfoldable pub ifload : Frame → Step Frame
ifload f = do
  opcode ← read_word f.code 0
  index ← local_index f.code opcode
  word ← read_word f.locals index
  push f word (bytes_of opcode)

-- JvmRtByteCode_ldload__Handler
unfoldable pub ldload : Frame → Step Frame
ldload f = do
  opcode ← read_word f.code 0
  index ← local_index f.code opcode
  word1 ← read_word f.locals index
  word2 ← read_word f.locals (index + 1)
  push_two f word1 word2 (bytes_of opcode)

-- JvmRtByteCode_aload__Handler
unfoldable pub aload : Frame → Step Frame
aload f = do
  opcode ← read_word f.code 0
  index ← local_index f.code opcode
  entry ← check_reference f f.stack_map index
  word ← read_word f.locals index
  push f word (bytes_of opcode)

-- What iload_n and fload_n do, with the opcode of variable 0
unfoldable pub load_n : ℕ → Frame → Step Frame
load_n base f = do
  opcode ← read_word f.code 0
  index ← counted_from base opcode
  word ← read_word f.locals index
  push f word 1

-- What lload_n and dload_n do
unfoldable pub load_two_n : ℕ → Frame → Step Frame
load_two_n base f = do
  opcode ← read_word f.code 0
  index ← counted_from base opcode
  word1 ← read_word f.locals index
  word2 ← read_word f.locals (index + 1)
  push_two f word1 word2 1

-- JvmRtByteCode_iload_n__Handler, ILOAD_0
unfoldable pub iload_n : Frame → Step Frame
iload_n f = load_n 26 f

-- JvmRtByteCode_lload_n__Handler, LLOAD_0
unfoldable pub lload_n : Frame → Step Frame
lload_n f = load_two_n 30 f

-- JvmRtByteCode_fload_n__Handler, FLOAD_0
unfoldable pub fload_n : Frame → Step Frame
fload_n f = load_n 34 f

-- JvmRtByteCode_dload_n__Handler; DLOAD_0 is defined as FLOAD_0 is.
unfoldable pub dload_n : Frame → Step Frame
dload_n f = load_two_n 34 f

-- JvmRtByteCode_aload_n__Handler, ALOAD_0
unfoldable pub aload_n : Frame → Step Frame
aload_n f = do
  opcode ← read_word f.code 0
  index ← counted_from 42 opcode
  entry ← check_reference f f.stack_map index
  word ← read_word f.locals index
  push f word 1

-- The frame with other local variables, `words` fewer operands and `bytes` further in the code
unfoldable pub stored : Frame → List ℕ → ℕ → ℕ → Frame
stored f variables words bytes = record f {
  locals = variables;
  top = minus32 f.top words;
  pc = plus32 f.pc bytes;
}

-- JvmRtByteCode_ifstore__Handler
unfoldable pub ifstore : Frame → Step Frame
ifstore f = do
  opcode ← read_word f.code 0
  index ← local_index f.code opcode
  word ← read_word f.op_stack f.top
  variables ← write_word f.locals index word
  done (stored f variables 1 (bytes_of opcode))

-- JvmRtByteCode_ldstore__Handler
unfoldable pub ldstore : Frame → Step Frame
ldstore f = do
  opcode ← read_word f.code 0
  index ← local_index f.code opcode
  word2 ← read_word f.op_stack f.top
  a ← write_word f.locals (index + 1) word2
  word1 ← read_word f.op_stack (minus32 f.top 1)
  b ← write_word a index word1
  done (stored f b 2 (bytes_of opcode))

-- JvmRtByteCode_astore__Handler
unfoldable pub astore : Frame → Step Frame
astore f = do
  opcode ← read_word f.code 0
  index ← local_index f.code opcode
  entry ← check_reference f f.stack_map index
  word ← read_word f.op_stack f.top
  variables ← write_word f.locals index word
  done (stored f variables 1 (bytes_of opcode))

-- What istore_n and fstore_n do: the variable is taken from the byte behind the opcode.
unfoldable pub store_n : ℕ → Frame → Step Frame
store_n base f = do
  byte ← read_word f.code 1
  index ← counted_from base byte
  word ← read_word f.op_stack f.top
  variables ← write_word f.locals index word
  done (stored f variables 1 1)

-- What lstore_n and dstore_n do
unfoldable pub store_two_n : ℕ → Frame → Step Frame
store_two_n base f = do
  byte ← read_word f.code 1
  index ← counted_from base byte
  word2 ← read_word f.op_stack f.top
  a ← write_word f.locals (index + 1) word2
  word1 ← read_word f.op_stack (minus32 f.top 1)
  b ← write_word a index word1
  done (stored f b 2 1)

-- JvmRtByteCode_istore_n__Handler, ISTORE_0
unfoldable pub istore_n : Frame → Step Frame
istore_n f = store_n 59 f

-- JvmRtByteCode_lstore_n__Handler, LSTORE_0
unfoldable pub lstore_n : Frame → Step Frame
lstore_n f = store_two_n 63 f

-- JvmRtByteCode_fstore_n__Handler, FSTORE_0
unfoldable pub fstore_n : Frame → Step Frame
fstore_n f = store_n 67 f

-- JvmRtByteCode_dstore_n__Handler, DSTORE_0
unfoldable pub dstore_n : Frame → Step Frame
dstore_n f = store_two_n 71 f

-- The stack map of astore_n, which is read whether there is one or not
abbrev pub map_entries : Option (List ℕ) → Step (List ℕ)
map_entries none = fault
map_entries (some entries) = done entries

-- JvmRtByteCode_astore_n__Handler, ASTORE_0
unfoldable pub astore_n : Frame → Step Frame
astore_n f = do
  byte ← read_word f.code 1
  index ← counted_from 75 byte
  entries ← map_entries f.stack_map
  entry ← read_word entries index >>= checked_entry f
  word ← read_word f.op_stack f.top
  variables ← write_word f.locals index word
  done (stored f variables 1 1)

-- JvmRtByteCode_ret__Handler
unfoldable pub ret : Frame → Step Frame
ret f = do
  index ← read_word f.code 1
  target ← read_word f.locals index
  done (record f { pc = target })

-- JvmRtByteCode_iinc__Handler: the constant is an unsigned byte.
unfoldable pub iinc : Frame → Step Frame
iinc f = do
  index ← read_word f.code 1
  constant ← read_word f.code 2
  word ← read_word f.locals index
  variables ← write_word f.locals index (plus32 word constant)
  done (record f { locals = variables; pc = plus32 f.pc 3 })

-- The switch of JvmRtByteCode_wide__Handler
unfoldable pub wide_case : Frame → ℕ → Step Frame
wide_case f opcode =
    if (opcode == 21) || (opcode == 23)
    then ifload f
    else if (opcode == 22) || (opcode == 24)
    then ldload f
    else if opcode == 25
    then aload f
    else if (opcode == 54) || (opcode == 56)
    then ifstore f
    else if (opcode == 55) || (opcode == 57)
    then ldstore f
    else if opcode == 58
    then astore f
    else if opcode == 169
    then ret f
    else if opcode == 132
    then iinc f
    else raised java_virtual_machine_error f

-- JvmRtByteCode_wide__Handler
unfoldable pub wide : Frame → Step Frame
wide f = do opcode ← read_word f.code 1; wide_case f opcode
