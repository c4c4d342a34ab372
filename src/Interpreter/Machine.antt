-- ===== src/Interpreter/Machine.antt =====
-- The machine of the bytecode handlers (Jvmrt.h, Jvmrt.c): the stack frame together with the
-- execution environment that points at it. A word is 32 bits wide (JAVA_WORD), and its wrap-around
-- is written out. A read or write outside the operand stack, the local variables or the code is
-- `fault`. JVM_THROW_EXCEPTION jumps out of the handler; what the handler had already stored stays.
use jdepends.Common.{
  ℕ, zero, suc, ◌+◌, ◌-◌, ◌*◌, ◌%◌, ◌^◌, ◌<◌, ◌≡◌, refl, Option, none, some, List, [], ◌∷◌, ltb,
  if◌then◌else◌, length, get_elem?, get_or, get_or-set, get_or-set_other, set, true, arith,
}

-- eJVMExceptionType, without the prefix of its constants
pub data JvmException : Type 0 where
  no_exception : JvmException
  jvm_no_memory : JvmException
  jvm_file_io_error : JvmException
  jvm_version_not_supported : JvmException
  jvm_zero_byte_spring : JvmException
  class_not_present : JvmException
  class_incorrect_syntax : JvmException
  class_general_error : JvmException
  java_arithmetic : JvmException
  java_array_store : JvmException
  java_class_cast : JvmException
  java_illegal_monitor_state : JvmException
  java_array_index_out_of_bounds : JvmException
  java_negative_array_size : JvmException
  java_null_pointer : JvmException
  java_security : JvmException
  java_class_format_error : JvmException
  java_class_circularity_error : JvmException
  java_no_class_def_found_error : JvmException
  java_stack_overflow_error : JvmException
  java_instantiation_error : JvmException
  java_illegal_access_error : JvmException
  java_incompatible_class_change_error : JvmException
  java_abstract_method_error : JvmException
  java_unsatisfied_link_error : JvmException
  java_virtual_machine_error : JvmException
  illegal_access_error : JvmException
  all_exceptions : JvmException

-- _JVM_Stack_Frame, with ju32OpStackTop and pjbyCode of _JVM_Exec_Env. `code` are the bytes from
-- the current instruction on; `stack_map` is the stack map, where there is one.
pub record Frame : Type 0 where
  pub op_stack : List ℕ
  pub top : ℕ
  pub locals : List ℕ
  pub stack_map : Option (List ℕ)
  pub code : List ℕ
  pub code_length : ℕ
  pub pc : ℕ

-- What a handler does
pub data Step (A : Type 0) : Type 0 where
  done : A → Step A
  raised : JvmException → Frame → Step A
  fault : Step A

module _ {A B : Type 0} where
  infixl 5 ◌>>=◌
  abbrev pub ◌>>=◌ : Step A → (A → Step B) → Step B
  done a >>= rest = rest a
  raised exception frame >>= rest = raised exception frame
  fault >>= rest = fault

abbrev pub plus32 : ℕ → ℕ → ℕ
plus32 a b = (a + b) % 2 ^ 32

abbrev pub minus32 : ℕ → ℕ → ℕ
minus32 a b = (a + 2 ^ 32 - b) % 2 ^ 32

abbrev pub found : Option ℕ → Step ℕ
found none = fault
found (some word) = done word

-- A read of an array
unfoldable pub read_word : List ℕ → ℕ → Step ℕ
read_word cells i = found (get_elem? cells i)

-- An assignment to an element of an array
unfoldable pub write_word : List ℕ → ℕ → ℕ → Step (List ℕ)
write_word cells i word = if ltb i (length cells) then done (set cells i word) else fault

-- Two code bytes as an index or an offset, `(a << 8) | b`
abbrev pub short_of : ℕ → ℕ → ℕ
short_of a b = a * 256 + b

pub read_word-lt :
    (cells : List ℕ) (i d : ℕ) → i < length cells → read_word cells i ≡ done (get_or cells i d)
unfolding read_word
read_word-lt [] i d h = absurd (omega arith)
read_word-lt (x ∷ cells) zero d h = refl
read_word-lt (x ∷ cells) (suc i) d h = read_word-lt cells i d (omega arith)

pub write_word-lt :
    (cells : List ℕ) (i word : ℕ)
    → i < length cells
    → write_word cells i word ≡ done (set cells i word)
unfolding write_word
write_word-lt cells i word h = let fits : ltb i (length cells) ≡ true = ground arith in rw fits refl

-- The operands on a stack whose top has this index, the top first. The element 0 is never used.
unfoldable pub words : List ℕ → ℕ → List ℕ
words cells zero = []
words cells (suc n) = get_or cells (suc n) 0 ∷ words cells n

pub words-above :
    (cells : List ℕ) (i n word : ℕ) → n < i → words (set cells i word) n ≡ words cells n
unfolding words
words-above cells i zero word h = refl
words-above cells i (suc n) word h =
    rw
      (
        get_or-set_other cells i (suc n) word 0 (λ e. omega (arith, e)),
        words-above cells i n word (omega arith),
      )
      refl

pub words-set :
    (cells : List ℕ) (n word : ℕ)
    → suc n < length cells
    → words (set cells (suc n) word) (suc n) ≡ word ∷ words cells n
unfolding words
words-set cells n word h =
    rw (get_or-set cells (suc n) word 0 h, words-above cells (suc n) n word (omega arith)) refl

-- The operands of a frame
unfoldable pub operands : Frame → List ℕ
operands f = words f.op_stack f.top

-- The top of the stack stands in the array, whose elements have 32-bit indices.
pub record IsFrame (f : Frame) : Type 0 where
  pub top_inside : f.top < length f.op_stack
  pub indexed : length f.op_stack < 2 ^ 32
