-- ===== src/Interpreter/Examples.antt =====
-- Runs on concrete frames, and the theorems at concrete inputs.
use jdepends.Common.{
  zero, suc, ◌≤◌, replicate, ℕ, ◌+◌, ◌-◌, ◌%◌, ◌^◌, ◌≡◌, refl, some, List, [], ◌∷◌, arith,
}
use jdepends.Interpreter.Machine.{
  Frame, done, fault, read_word, write_word, words, operands, IsFrame,
}
use jdepends.Interpreter.Numbers.{long_of, hi_word}
use jdepends.Interpreter.Stack.{continue}
use jdepends.Interpreter.Arithmetic.{ladd, lsub, push, bipush}
use jdepends.Interpreter.Locals.{local_index, counted_from, load_two_n, dload_n}
use jdepends.Interpreter.Arrays.{
  type_int, memory_bytes, size_entry, size_of, create_new_array, Heap, find_array,
}
use jdepends.Interpreter.Elements.{IsArray, IsHeap, HasSize, Load, int_loading, load, iaload-Load}
use jdepends.Interpreter.NewArrays.{new_array-overrun}
use jdepends.Interpreter.Stores.{Stores, iastore-iaload}
use jdepends.Interpreter.Effects.{Effect}
use jdepends.Interpreter.Instructions.{dup2_x1_op, execute, effect}
use jdepends.Interpreter.Operations.{execute-Effect}
use jdepends.Interpreter.Variables.{NamesVariable}
use jdepends.Interpreter.Longs.{ladd-Effect}

-- Four operands, three local variables, and lstore with the variable 1
abbrev running : Frame
running = record {
  op_stack = 0 ∷ 10 ∷ 20 ∷ 30 ∷ 40 ∷ 0 ∷ 0 ∷ 0 ∷ [];
  top = 4;
  locals = 5 ∷ 6 ∷ 7 ∷ [];
  stack_map = some (1 ∷ 0 ∷ 0 ∷ []);
  code = 55 ∷ 1 ∷ 3 ∷ [];
  code_length = 90;
  pc = 12;
}

running-IsFrame : IsFrame running
running-IsFrame = record { top_inside = omega arith; indexed = omega arith }

running-operands : operands running ≡ 40 ∷ 30 ∷ 20 ∷ 10 ∷ []
unfolding operands words
running-operands = refl

running-NamesVariable : NamesVariable running.code 1
unfolding local_index read_word
running-NamesVariable = record { opcode = 55; first = refl; variable = refl }

-- Runs: bipush of -1, and dload_0
pushed_bytes :
    bipush (record running { code = 16 ∷ 255 ∷ [] })
    ≡ done (record running {
      op_stack = 0 ∷ 10 ∷ 20 ∷ 30 ∷ 40 ∷ 255 ∷ 0 ∷ 0 ∷ [];
      top = 5;
      code = 16 ∷ 255 ∷ [];
      pc = 14;
    })
unfolding bipush push continue read_word write_word
pushed_bytes = refl

dload_0_run : dload_n (record running { code = 38 ∷ [] }) ≡ fault
unfolding dload_n load_two_n read_word counted_from
dload_0_run = refl

-- wide lload with the variable 1
abbrev wide_lload : List ℕ
wide_lload = 196 ∷ 22 ∷ 0 ∷ 1 ∷ []

wide_lload-NamesVariable : NamesVariable wide_lload 1
unfolding local_index read_word
wide_lload-NamesVariable = record { opcode = 196; first = refl; variable = refl }

execute-Effect_example :
    Effect running 1 (execute dup2_x1_op running) (effect dup2_x1_op (operands running))
execute-Effect_example =
    execute-Effect dup2_x1_op running running-IsFrame (omega arith) (omega arith)

ladd-Effect_example :
    let first = long_of 10 20 in
    let second = long_of 30 40 in
    Effect running 1 (ladd running) (hi_word ((first + second) % 2 ^ 64) ∷ [])
    × Effect running 1 (lsub running) (hi_word ((first + 2 ^ 64 - second) % 2 ^ 64) ∷ [])
ladd-Effect_example = ladd-Effect running 40 30 20 10 [] running-IsFrame running-operands

-- An array of three ints, and one of no ints
abbrev heap : Heap
heap = create_new_array type_int 3 ∷ create_new_array type_int 0 ∷ []

abbrev ints : Heap
ints = create_new_array type_int 3 ∷ []

ints-IsArray : IsArray (create_new_array type_int 3)
unfolding create_new_array memory_bytes size_entry size_of
ints-IsArray = record {
  memory = replicate (memory_bytes type_int 3) 0;
  has_memory = refl;
  from_zero = refl;
  enough = omega arith;
}

ints_bound : 2 ≤ (create_new_array type_int 3).upper_bound
unfolding create_new_array
ints_bound = omega arith

ints_size : size_of (create_new_array type_int 3).type ≡ 4
unfolding create_new_array size_of
ints_size = refl

ints-HasSize : HasSize ints 1 4
unfolding find_array create_new_array size_of
ints-HasSize array e = let same : array ≡ create_new_array type_int 3 = cc in rw same refl

empty_found : find_array heap 2 ≡ done (create_new_array type_int 0)
unfolding find_array
empty_found = refl

ints-IsHeap : IsHeap ints
ints-IsHeap zero h = (create_new_array type_int 3, refl, ints-IsArray)
ints-IsHeap (suc n) h = absurd (omega arith)

-- The operands of iaload and iastore: the value 9, the index 2, and the references 1 and 2
abbrev at_element : Frame
at_element = record running { op_stack = 0 ∷ 1 ∷ 2 ∷ 9 ∷ []; top = 2 }

abbrev at_store : Frame
at_store = record at_element { top = 3 }

abbrev behind_empty : Frame
behind_empty = record running { op_stack = 0 ∷ 2 ∷ 500 ∷ []; top = 2 }

abbrev at_count : Frame
at_count = record running { op_stack = 0 ∷ 3 ∷ []; top = 1; code = 188 ∷ 5 ∷ [] }

at_element-operands : operands at_element ≡ 2 ∷ 1 ∷ []
unfolding operands words
at_element-operands = refl

at_store-operands : operands at_store ≡ 9 ∷ 2 ∷ 1 ∷ []
unfolding operands words
at_store-operands = refl

behind_empty-operands : operands behind_empty ≡ 500 ∷ 2 ∷ []
unfolding operands words
behind_empty-operands = refl

at_count-operands : operands at_count ≡ 3 ∷ []
unfolding operands words
at_count-operands = refl

at_count-code : read_word at_count.code 1 ≡ done 5
unfolding read_word
at_count-code = refl

iaload-Load_example : Load ints at_element 1 2 4 (λ e. e) [] (load int_loading ints at_element)
iaload-Load_example =
    iaload-Load int_loading ints at_element 2 1 [] ints-IsHeap
      (record { top_inside = omega arith; indexed = omega arith }) at_element-operands (omega arith)
      ints-HasSize

new_array-overrun_example : load int_loading heap behind_empty ≡ fault
new_array-overrun_example =
    new_array-overrun int_loading heap behind_empty type_int 0 500 1 []
      (record { top_inside = omega arith; indexed = omega arith }) behind_empty-operands empty_found
      (refl, refl, omega arith, omega arith)

iastore-iaload_example : Stores ints at_store 9 2 0 []
iastore-iaload_example =
    iastore-iaload ints at_store 9 2 0 [] (create_new_array type_int 3) ints-IsHeap
      (record { top_inside = omega arith; indexed = omega arith }) at_store-operands refl ints_bound
      ints_size
