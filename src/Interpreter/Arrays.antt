-- ===== src/Interpreter/Arrays.antt =====
-- The arrays of Jvmrt.c: JvmRtCreateNewArray for one dimension of a primitive type, and the handlers
-- that read and write elements. A reference is the number of an object, from 1 on in the order of
-- their making, and 0 is JAVA_NULL. The memory that u points to is a list of bytes, which each handler
-- reads and writes in elements of its own size, whatever the type of the array is. Memory is never
-- short.
use jdepends.Common.{
  ℕ, zero, suc, ◌+◌, ◌*◌, ◌%◌, ◌^◌, ◌||◌, Option, none, some, List, [], ◌∷◌, ◌++◌, ltb, ◌==◌,
  if◌then◌else◌, length, get_elem?, set, replicate,
}
use jdepends.Interpreter.Machine.{
  java_array_index_out_of_bounds, java_negative_array_size, java_null_pointer,
  java_virtual_machine_error, Frame, Step, done, raised, fault, ◌>>=◌, plus32, minus32, read_word,
  write_word,
}
use jdepends.Interpreter.Memory.{read_bytes, write_bytes}
use jdepends.Interpreter.Numbers.{long_of, hi_word, lo_word, narrow}
use jdepends.Interpreter.Stack.{continue}

-- The primitive JAVA_TYPE_... constants that arrays are made of
pub data ElementType : Type 0 where
  type_char : ElementType
  type_byte : ElementType
  type_short : ElementType
  type_int : ElementType
  type_long : ElementType
  type_float : ElementType
  type_double : ElementType

-- _ajuGSizes, as JvmRtInit fills it; the memory is zero, and the entry of JAVA_TYPE_BYTE is not set.
unfoldable pub size_entry : ElementType → ℕ
size_entry type_char = 2
size_entry type_byte = 0
size_entry type_short = 2
size_entry type_int = 4
size_entry type_long = 8
size_entry type_float = 4
size_entry type_double = 8

-- The sizes of the types themselves
unfoldable pub size_of : ElementType → ℕ
size_of type_char = 2
size_of type_byte = 1
size_of type_short = 2
size_of type_int = 4
size_of type_long = 8
size_of type_float = 4
size_of type_double = 8

-- _JVM_Array_Object: `type` is juType, `elements` are the bytes that u points to, none where u is
-- JVM_NULL. The dimension is 1.
pub record JavaArray : Type 0 where
  pub type : ElementType
  pub lower_bound : ℕ
  pub upper_bound : ℕ
  pub array_length : ℕ
  pub elements : Option (List ℕ)

abbrev pub Heap : Type 0
Heap = List JavaArray

-- The bytes of the memory of an array, sizeof(_JVM_Object_ID) more than the elements need
unfoldable pub memory_bytes : ElementType → ℕ → ℕ
memory_bytes type count = (plus32 1 count * size_entry type + 8) % 2 ^ 32

-- JvmRtCreateNewArray
unfoldable pub create_new_array : ElementType → ℕ → JavaArray
create_new_array type count = record {
  type = type;
  lower_bound = 0;
  upper_bound = minus32 count 1;
  array_length = plus32 1 count;
  elements = some (replicate (memory_bytes type count) 0);
}

abbrev pub array_found : Option JavaArray → Step JavaArray
array_found none = fault
array_found (some array) = done array

-- The array that a reference leads to
unfoldable pub find_array : Heap → ℕ → Step JavaArray
find_array heap zero = fault
find_array heap (suc n) = array_found (get_elem? heap n)

-- The tests of a handler: the reference and its memory are there, and the index is in bounds.
unfoldable pub in_bounds : Frame → JavaArray → ℕ → Option (List ℕ) → Step (List ℕ)
in_bounds f array index none = raised java_null_pointer f
in_bounds f array index (some elements) =
    if ltb index array.lower_bound || ltb array.upper_bound index
    then raised java_array_index_out_of_bounds f
    else done elements

unfoldable pub checked : Heap → Frame → ℕ → ℕ → Step (List ℕ)
checked heap f zero index = raised java_null_pointer f
checked heap f (suc n) index = do
  array ← find_array heap (suc n)
  in_bounds f array index array.elements

-- What the handlers that load one word do, for elements of `size` bytes
unfoldable pub load_element : ℕ → (ℕ → ℕ) → Heap → Frame → Step Frame
load_element size conversion heap f = do
  index ← read_word f.op_stack f.top
  reference ← read_word f.op_stack (minus32 f.top 1)
  elements ← checked heap f reference index
  element ← read_bytes size elements (index * size)
  cells ← write_word f.op_stack (minus32 f.top 1) (conversion element)
  done (continue f cells (minus32 f.top 1) 1)

-- JvmRtByteCode_iaload__Handler
unfoldable pub iaload : Heap → Frame → Step Frame
iaload heap f = load_element (size_of type_int) (λ e. e) heap f

-- JvmRtByteCode_baload__Handler
unfoldable pub baload : Heap → Frame → Step Frame
baload heap f = load_element (size_of type_byte) (narrow 7) heap f

-- JvmRtByteCode_caload__Handler
unfoldable pub caload : Heap → Frame → Step Frame
caload heap f = load_element (size_of type_char) (λ e. e % 2 ^ 16) heap f

-- JvmRtByteCode_saload__Handler
unfoldable pub saload : Heap → Frame → Step Frame
saload heap f = load_element (size_of type_short) (narrow 15) heap f

-- JvmRtByteCode_laload__Handler
unfoldable pub laload : Heap → Frame → Step Frame
laload heap f = do
  index ← read_word f.op_stack f.top
  reference ← read_word f.op_stack (minus32 f.top 1)
  elements ← checked heap f reference index
  element ← read_bytes (size_of type_long) elements (index * size_of type_long)
  a ← write_word f.op_stack (minus32 f.top 1) (hi_word element)
  b ← write_word a f.top (lo_word element)
  done (continue f b f.top 1)

-- The heap with other elements in an array
unfoldable pub with_elements : Heap → ℕ → JavaArray → List ℕ → Heap
with_elements heap zero array elements = heap
with_elements heap (suc n) array elements = set heap n (record array { elements = some elements })

-- A store of `size` bytes, with the reference, the index and the value at hand, that takes `taken`
-- operands
unfoldable pub store_element : ℕ → Heap → Frame → ℕ → ℕ → ℕ → ℕ → Step (Frame × Heap)
store_element size heap f taken reference index value = do
  elements ← checked heap f reference index
  array ← find_array heap reference
  stored ← write_bytes size elements (index * size) value
  done (continue f f.op_stack (minus32 f.top taken) 1, with_elements heap reference array stored)

-- JvmRtByteCode_iastore__Handler
unfoldable pub iastore : Heap → Frame → Step (Frame × Heap)
iastore heap f = do
  reference ← read_word f.op_stack (minus32 f.top 2)
  index ← read_word f.op_stack (minus32 f.top 1)
  value ← read_word f.op_stack f.top
  store_element (size_of type_int) heap f 3 reference index value

-- JvmRtByteCode_lastore__Handler, with MAKE_64
unfoldable pub lastore : Heap → Frame → Step (Frame × Heap)
lastore heap f = do
  reference ← read_word f.op_stack (minus32 f.top 3)
  index ← read_word f.op_stack (minus32 f.top 2)
  hi ← read_word f.op_stack (minus32 f.top 1)
  lo ← read_word f.op_stack f.top
  store_element (size_of type_long) heap f 4 reference index (long_of hi lo)

-- JvmRtByteCode_arraylength__Handler, on references to arrays
unfoldable pub length_of : Heap → Frame → ℕ → Step ℕ
length_of heap f zero = raised java_null_pointer f
length_of heap f (suc n) = do array ← find_array heap (suc n); done array.array_length

unfoldable pub arraylength : Heap → Frame → Step Frame
arraylength heap f = do
  reference ← read_word f.op_stack f.top
  size ← length_of heap f reference
  cells ← write_word f.op_stack f.top size
  done (continue f cells f.top 1)

-- pfnArrayFactory, by the operand of newarray from T_BOOLEAN on: a boolean is stored as a byte.
unfoldable pub factory : Frame → ℕ → Step ElementType
factory f code =
    if ltb 7 code
    then raised java_virtual_machine_error f
    else if ltb code 4
    then fault
    else done (
        if code == 4
        then type_byte
        else if code == 5
        then type_char
        else if code == 6
        then type_float
        else type_double)

-- JvmRtByteCode_newarray__Handler; the class of the array is found.
unfoldable pub newarray : Heap → Frame → Step (Frame × Heap)
newarray heap f = do
  count ← read_word f.op_stack f.top
  checked_count ← (if ltb count (2 ^ 31) then done count else raised java_negative_array_size f)
  code ← read_word f.code 1
  type ← factory f code
  cells ← write_word f.op_stack f.top (length heap + 1)
  done (continue f cells f.top 2, heap ++ create_new_array type count ∷ [])
