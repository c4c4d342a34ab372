-- ===== src/Interpreter/Elements.antt =====
-- The loads of array elements (iaload, baload, caload and saload of Jvmrt.c) on well-formed arrays.
use jdepends.Common.{
  ℕ, zero, suc, ◌+◌, ◌*◌, ◌%◌, ◌^◌, ◌≤◌, ◌<◌, ◌≡◌, refl, inl, inr, false, Bool-cases, ltb, some,
  List, [], ◌∷◌, length, get_elem?, get_or, arith,
}
use jdepends.Interpreter.Machine.{
  java_array_index_out_of_bounds, java_null_pointer, Frame, Step, done, raised, ◌>>=◌, minus32,
  read_word, read_word-lt, write_word, words, operands, IsFrame,
}
use native.Mathlib.Nat.{mul-le-mul_right, suc-mul}
use jdepends.Interpreter.Numbers.{narrow}
use jdepends.Interpreter.Memory.{read_bytes-le, bytes_at}
use jdepends.Interpreter.Instructions.{byte_extended, short_extended}
use jdepends.Interpreter.Sums.{narrow-byte_extended, narrow-short_extended}
use jdepends.Interpreter.Stack.{continue}
use jdepends.Interpreter.Effects.{Effect, writes_then-Effect, minus32_is, with_top}
use jdepends.Interpreter.Arrays.{
  size_of, JavaArray, Heap, find_array, in_bounds, checked, load_element, iaload, baload, caload,
  saload,
}

-- Every element up to the upper bound lies in the memory.
pub record IsArray (array : JavaArray) : Type 0 where
  pub memory : List ℕ
  pub has_memory : array.elements ≡ some memory
  pub from_zero : array.lower_bound ≡ 0
  pub enough : (array.upper_bound + 1) * size_of array.type ≤ length memory

abbrev pub IsHeap : Heap → Type 0
IsHeap heap = (n : ℕ) → n < length heap → (a : JavaArray) × (get_elem? heap n ≡ some a) × IsArray a

-- Two operands on the stack, which a handler replaces by one word
pub record TwoOperands (f : Frame) (upper lower : ℕ) (s : List ℕ) : Type 0 where
  pub upper_word : read_word f.op_stack f.top ≡ done upper
  pub lower_word : read_word f.op_stack (minus32 f.top 1) ≡ done lower
  pub replaced :
      (w : ℕ)
      → Effect f 1
          (write_word f.op_stack (minus32 f.top 1) w >>= λ cells.
            done (continue f cells (minus32 f.top 1) 1))
          (w ∷ s)

TwoOperands-words :
    (f : Frame) (n : ℕ)
    → suc (suc n) < length f.op_stack
    → length f.op_stack < 2 ^ 32
    → let c = f.op_stack in
      TwoOperands
        (with_top f (suc (suc n)))
        (get_or c (suc (suc n)) 0)
        (get_or c (suc n) 0)
        (words c n)
TwoOperands-words f n h l =
    let c = f.op_stack in
    let down = minus32_is (suc (suc n)) 1 (suc n) (omega arith) (omega arith) in
    record {
      upper_word = read_word-lt c (suc (suc n)) 0 h;
      lower_word = rw down (read_word-lt c (suc n) 0 (omega arith));
      replaced =
          λ w. rw down (writes_then-Effect (with_top f (suc (suc n))) 1 n (w ∷ []) (omega arith) l);
    }

module _ (f : Frame) (upper lower : ℕ) (s : List ℕ) where
  operands-cases :
      (t : ℕ)
      → t < length f.op_stack
      → length f.op_stack < 2 ^ 32
      → words f.op_stack t ≡ upper ∷ lower ∷ s
      → TwoOperands (with_top f t) upper lower s
  unfolding words
  operands-cases zero h l e = cc
  operands-cases (suc zero) h l e = cc
  operands-cases (suc (suc n)) h l e =
      let c = f.op_stack in
      let e1 : upper ≡ get_or c (suc (suc n)) 0 = cc in
      let e2 : lower ≡ get_or c (suc n) 0 = cc in
      let e3 : s ≡ words c n = cc in rw (e1, e2, e3) (TwoOperands-words f n h l)

  pub TwoOperands-of : IsFrame f → operands f ≡ upper ∷ lower ∷ s → TwoOperands f upper lower s
  unfolding operands
  TwoOperands-of w e = operands-cases f.top w.top_inside w.indexed e

-- The element at an index up to the upper bound lies in the memory.
pub element-le :
    (array : JavaArray) (index size : ℕ) (w : IsArray array)
    → size_of array.type ≡ size
    → index ≤ array.upper_bound
    → index * size + size ≤ length w.memory
element-le array index size w same up =
    let room : (array.upper_bound + 1) * size ≤ length w.memory = rw same at w.enough in
    let up' : suc index ≤ array.upper_bound + 1 = omega arith in
    let scaled : suc index * size ≤ (array.upper_bound + 1) * size = mul-le-mul_right size up' in
    let parts : suc index * size ≡ index * size + size = suc-mul index size in
    omega (arith, room, scaled, parts)

-- An access with an index up to the upper bound, or beyond
data Access (f : Frame) (array : JavaArray) (index size : ℕ) (r : Step (List ℕ)) : Type 0 where
  inside :
      (es : List ℕ)
      → index * size + size ≤ length es
      → index ≤ array.upper_bound
      → array.elements ≡ some es
      → r ≡ done es
      → Access f array index size r
  outside :
      array.upper_bound < index
      → r ≡ raised java_array_index_out_of_bounds f
      → Access f array index size r

in_bounds-Access :
    (f : Frame) (array : JavaArray) (index size : ℕ)
    → IsArray array
    → size_of array.type ≡ size
    → Access f array index size (in_bounds f array index array.elements)
unfolding in_bounds
in_bounds-Access f array index size w same =
    let below : ltb index array.lower_bound ≡ false = rw w.from_zero (ground arith) in
    elim (Bool-cases (ltb array.upper_bound index)) [
      | inl e ↦ outside (ground arith) (rw (w.has_memory, below, e) refl)
      | inr e ↦
          inside w.memory (element-le array index size w same (ground arith)) (ground arith)
            w.has_memory (rw (w.has_memory, below, e) refl)
    ]

pub find_array-lem :
    (heap : Heap) (n : ℕ) {array : JavaArray}
    → get_elem? heap n ≡ some array
    → find_array heap (suc n) ≡ done array
unfolding find_array
find_array-lem heap n e = rw e refl

-- What a load of so many bytes does at a reference and an index, with what it makes of the element
pub data Load (heap : Heap) (f : Frame) (reference index size : ℕ) (conversion : ℕ → ℕ) (s : List ℕ)
    (r : Step Frame) : Type 0 where
  at_null :
      reference ≡ 0
      → r ≡ raised java_null_pointer f
      → Load heap f reference index size conversion s r
  in_memory :
      (array : JavaArray) (es : List ℕ)
      → find_array heap reference ≡ done array
      → array.elements ≡ some es
      → index ≤ array.upper_bound
      → index * size + size ≤ length es
      → Effect f 1 r (conversion (bytes_at size es (index * size)) ∷ s)
      → Load heap f reference index size conversion s r
  out_of_bounds :
      (array : JavaArray)
      → find_array heap reference ≡ done array
      → array.upper_bound < index
      → r ≡ raised java_array_index_out_of_bounds f
      → Load heap f reference index size conversion s r

-- The array that a reference leads to, if there is one, has elements of so many bytes.
abbrev pub HasSize : Heap → ℕ → ℕ → Type 0
HasSize heap reference size =
    (array : JavaArray) → find_array heap reference ≡ done array → size_of array.type ≡ size

load_element-Load :
    (size : ℕ) (conversion extended : ℕ → ℕ) (heap : Heap) (f : Frame) (index reference : ℕ)
    (s : List ℕ)
    → ((e : ℕ) → conversion e ≡ extended e)
    → IsHeap heap
    → TwoOperands f index reference s
    → reference ≤ length heap
    → HasSize heap reference size
    → Load heap f reference index size extended s (load_element size conversion heap f)
unfolding load_element checked
load_element-Load size conversion extended heap f index zero s same w two h sized =
    at_null refl (rw (two.upper_word, two.lower_word) refl)
load_element-Load size conversion extended heap f index (suc n) s same w two h sized =
    let (array, at, ok) = w n h in
    let found : find_array heap (suc n) ≡ done array = find_array-lem heap n at in
    elim (in_bounds-Access f array index size ok (sized array found)) [
      | inside es less up e r ↦
          let element = bytes_at size es (index * size) in
          in_memory array es found e up less (
            rw
              (
                two.upper_word,
                two.lower_word,
                found,
                r,
                read_bytes-le size es (index * size) less,
                same element,
              )
              (two.replaced (extended element)))
      | outside up r ↦
          out_of_bounds array found up (rw (two.upper_word, two.lower_word, found, r) refl)
    ]

-- The loads of one word
pub data Loading : Type 0 where
  int_loading : Loading
  byte_loading : Loading
  char_loading : Loading
  short_loading : Loading

abbrev pub load : Loading → Heap → Frame → Step Frame
load int_loading = iaload
load byte_loading = baload
load char_loading = caload
load short_loading = saload

-- The bytes of an element
abbrev pub loaded_size : Loading → ℕ
loaded_size int_loading = 4
loaded_size byte_loading = 1
loaded_size char_loading = 2
loaded_size short_loading = 2

-- The word that the bytes of an element stand for
abbrev pub loaded_word : Loading → ℕ → ℕ
loaded_word int_loading e = e
loaded_word byte_loading e = byte_extended e
loaded_word char_loading e = e % 2 ^ 16
loaded_word short_loading e = short_extended e

-- On a heap of well-formed arrays, with an index and below it JAVA_NULL or a reference to an array
-- on the stack, whose elements have as many bytes as the instruction loads, iaload, baload, caload
-- and saload raise a null pointer exception at JAVA_NULL, replace the two operands by the element if
-- the index is at most the upper bound, and else raise an index exception. The bytes that are read
-- lie inside the memory of the array; a byte and a short are extended with their sign.
pub iaload-Load :
    (op : Loading) (heap : Heap) (f : Frame) (index reference : ℕ) (s : List ℕ)
    → IsHeap heap
    → IsFrame f
    → operands f ≡ index ∷ reference ∷ s
    → reference ≤ length heap
    → HasSize heap reference (loaded_size op)
    → Load heap f reference index (loaded_size op) (loaded_word op) s (load op heap f)
unfolding iaload baload caload saload size_of
iaload-Load int_loading heap f index reference s w frame e h sized =
    load_element-Load 4 (λ e. e) (λ e. e) heap f index reference s (λ e. refl) w
      (TwoOperands-of f index reference s frame e) h sized
iaload-Load byte_loading heap f index reference s w frame e h sized =
    load_element-Load 1 (narrow 7) byte_extended heap f index reference s narrow-byte_extended w
      (TwoOperands-of f index reference s frame e) h sized
iaload-Load char_loading heap f index reference s w frame e h sized =
    load_element-Load 2 (λ e. e % 2 ^ 16) (λ e. e % 2 ^ 16) heap f index reference s (λ e. refl) w
      (TwoOperands-of f index reference s frame e) h sized
iaload-Load short_loading heap f index reference s w frame e h sized =
    load_element-Load 2 (narrow 15) short_extended heap f index reference s narrow-short_extended w
      (TwoOperands-of f index reference s frame e) h sized
