-- ===== src/Interpreter/NewArrays.antt =====
-- New arrays: which of them have memory for all their elements.
use jdepends.Common.{
  ℕ, zero, suc, ◌+◌, ◌*◌, ◌^◌, ◌≤◌, ◌<◌, ◌≡◌, ◌≢◌, refl, sym, ap, ◌∙◌, inl, inr, true, false,
  Bool-cases, ltb, ◌==◌, if◌then◌else◌, some, List, [], ◌∷◌, ◌++◌, length, length-append, get_elem?,
  get_or, set, length-set, replicate, arith,
}
use jdepends.Interpreter.Machine.{
  Frame, done, fault, minus32, read_word, read_word-lt, write_word, write_word-lt, words, words-set,
  operands, IsFrame,
}
use jdepends.Interpreter.Numbers.{narrow}
use jdepends.Interpreter.Stack.{continue}
use jdepends.Interpreter.Effects.{with_top}
use jdepends.Interpreter.Arrays.{
  ElementType, type_char, type_byte, type_short, type_int, type_long, type_float, type_double,
  size_entry, size_of, memory_bytes, create_new_array, JavaArray, Heap, find_array, in_bounds,
  checked, load_element, iaload, baload, factory, newarray,
}
use jdepends.Interpreter.Memory.{read_bytes}
use jdepends.Interpreter.Elements.{
  IsArray, IsHeap, TwoOperands-of, Loading, int_loading, byte_loading, char_loading, short_loading,
  load,
}

length-replicate : (n : ℕ) (x : ℕ) → length (replicate n x) ≡ n
length-replicate zero x = refl
length-replicate (suc n) x = ap suc (length-replicate n x)

-- The memory is enough for the elements.
memory_bytes-le :
    (type : ElementType) (count : ℕ)
    → 1 ≤ count
    → count * 8 + 16 < 2 ^ 32
    → type ≢ type_byte
    → (minus32 count 1 + 1) * size_of type ≤ memory_bytes type count
unfolding memory_bytes size_entry size_of
memory_bytes-le type_char count p h n = omega arith
memory_bytes-le type_byte count p h n = absurd (n refl)
memory_bytes-le type_short count p h n = omega arith
memory_bytes-le type_int count p h n = omega arith
memory_bytes-le type_long count p h n = omega arith
memory_bytes-le type_float count p h n = omega arith
memory_bytes-le type_double count p h n = omega arith

-- A new array is well-formed, unless it is empty, of bytes, or too long for a 32-bit size.
create_new_array-IsArray :
    (type : ElementType) (count : ℕ)
    → 1 ≤ count
    → count * 8 + 16 < 2 ^ 32
    → type ≢ type_byte
    → IsArray (create_new_array type count)
unfolding create_new_array
create_new_array-IsArray type count h l n = record {
  memory = replicate (memory_bytes type count) 0;
  has_memory = refl;
  from_zero = refl;
  enough = rw (length-replicate (memory_bytes type count) 0) (memory_bytes-le type count h l n);
}

get_elem?-append :
    (heap : Heap) (array : JavaArray) (n : ℕ)
    → n < length heap
    → get_elem? (heap ++ array ∷ []) n ≡ get_elem? heap n
get_elem?-append [] array n h = absurd (omega arith)
get_elem?-append (a ∷ heap) array zero h = refl
get_elem?-append (a ∷ heap) array (suc n) h = get_elem?-append heap array n (omega arith)

get_elem?-last :
    (heap : Heap) (array : JavaArray) → get_elem? (heap ++ array ∷ []) (length heap) ≡ some array
get_elem?-last [] array = refl
get_elem?-last (a ∷ heap) array = get_elem?-last heap array

append-IsHeap :
    (heap : Heap) (array : JavaArray) → IsHeap heap → IsArray array → IsHeap (heap ++ array ∷ [])
append-IsHeap heap array w a n h = elim (Bool-cases (ltb n (length heap))) [
  | inl e ↦
      let (x, at, ok) = w n (ground arith) in
      (x, get_elem?-append heap array n (ground arith) ∙ at, ok)
  | inr e ↦
      let last : n ≡ length heap = ground (arith, length-append heap (array ∷ [])) in
      (array, rw last (get_elem?-last heap array), a)
]

-- One operand, which a handler replaces by one word
record OneOperand (f : Frame) (bytes operand : ℕ) (s : List ℕ) : Type 0 where
  top_word : read_word f.op_stack f.top ≡ done operand
  cells : ℕ → List ℕ
  written : (w : ℕ) → write_word f.op_stack f.top w ≡ done (cells w)
  replaced :
      (w : ℕ)
      → (operands (continue f (cells w) f.top bytes) ≡ w ∷ s)
        × IsFrame (continue f (cells w) f.top bytes)

module _ (f : Frame) (bytes operand : ℕ) (s : List ℕ) where
  one_cases :
      (t : ℕ)
      → t < length f.op_stack
      → length f.op_stack < 2 ^ 32
      → words f.op_stack t ≡ operand ∷ s
      → OneOperand (with_top f t) bytes operand s
  unfolding words continue operands
  one_cases zero h l e = cc
  one_cases (suc n) h l e =
      let c = f.op_stack in
      let e1 : operand ≡ get_or c (suc n) 0 = cc in
      let e2 : s ≡ words c n = cc in
      record {
        top_word = read_word-lt c (suc n) 0 h ∙ ap done (sym e1);
        cells = λ w. set c (suc n) w;
        written = λ w. write_word-lt c (suc n) w h;
        replaced = λ w. (
          words-set c n w h ∙ ap (◌∷◌ w) (sym e2),
          record {
            top_inside = omega (arith, length-set c (suc n) w);
            indexed = omega (arith, length-set c (suc n) w);
          },
        );
      }

  OneOperand-of : IsFrame f → operands f ≡ operand ∷ s → OneOperand f bytes operand s
  unfolding operands
  OneOperand-of w e = one_cases f.top w.top_inside w.indexed e

-- What newarray makes of its operand: chars, floats or doubles
abbrev pub made_of : ℕ → ElementType
made_of code = if code == 5 then type_char else if code == 6 then type_float else type_double

factory-made_of :
    (f : Frame) (code : ℕ)
    → 5 ≤ code
    → code ≤ 7
    → (factory f code ≡ done (made_of code)) × (made_of code ≢ type_byte)
unfolding factory
factory-made_of f code h l =
    let high : ltb 7 code ≡ false = ground arith in
    let low : ltb code 4 ≡ false = ground arith in
    let bool : (code == 4) ≡ false = ground arith in
    elim (Bool-cases (code == 5)) [
      | inl e ↦ rw (high, low, bool, e) (refl, λ c. cc)
      | inr e ↦ elim (Bool-cases (code == 6)) [
        | inl e' ↦ rw (high, low, bool, e, e') (refl, λ c. cc)
        | inr e' ↦ rw (high, low, bool, e, e') (refl, λ c. cc)
      ]
    ]

-- The handler ends with a frame and a heap that are well-formed, and a reference on the stack.
pub record Makes (heap : Heap) (f : Frame) (array : JavaArray) (s : List ℕ) : Type 0 where
  pub after : Frame
  pub result : newarray heap f ≡ done (after, heap ++ array ∷ [])
  pub stack : operands after ≡ (length heap + 1) ∷ s
  pub frame : IsFrame after
  pub well_formed : IsHeap (heap ++ array ∷ [])

-- With a count on the stack of at least 1 whose elements fit in the memory, newarray of chars,
-- floats or doubles puts a well-formed array behind the well-formed heap, and its reference in place
-- of the count.
newarray-Makes :
    (heap : Heap) (f : Frame) (count code : ℕ) (s : List ℕ)
    → IsHeap heap
    → IsFrame f
    → operands f ≡ count ∷ s
    → read_word f.code 1 ≡ done code
    → 5 ≤ code
    → code ≤ 7
    → 1 ≤ count
    → count * 8 + 16 < 2 ^ 32
    → Makes heap f (create_new_array (made_of code) count) s
unfolding newarray
newarray-Makes heap f count code s w frame e at h l positive small =
    let one = OneOperand-of f 2 count s frame e in
    let (makes, not_bytes) = factory-made_of f code h l in
    let signed_count : ltb count (2 ^ 31) ≡ true = ground arith in
    let reference = length heap + 1 in
    record {
      after = continue f (one.cells reference) f.top 2;
      result = rw (one.top_word, signed_count, at, makes, one.written reference) refl;
      stack = (one.replaced reference).0;
      frame = (one.replaced reference).1;
      well_formed =
          append-IsHeap heap (create_new_array (made_of code) count) w
            (create_new_array-IsArray (made_of code) count positive small not_bytes);
    }

read_word-behind : (cells : List ℕ) (i : ℕ) → length cells ≤ i → read_word cells i ≡ fault
unfolding read_word
read_word-behind [] i h = refl
read_word-behind (x ∷ cells) zero h = absurd (omega arith)
read_word-behind (x ∷ cells) (suc i) h = read_word-behind cells i (omega arith)

-- A load behind the memory of a new array, with an index that the bounds allow
load_element-overrun :
    (size : ℕ) (conversion : ℕ → ℕ) (heap : Heap) (f : Frame) (type : ElementType)
    (count index n : ℕ) (s : List ℕ)
    → IsFrame f
    → operands f ≡ index ∷ suc n ∷ s
    → find_array heap (suc n) ≡ done (create_new_array type count)
    → memory_bytes type count ≤ index * suc size
    → index ≤ minus32 count 1
    → load_element (suc size) conversion heap f ≡ fault
unfolding load_element checked in_bounds create_new_array read_bytes
load_element-overrun size conversion heap f type count index n s frame e at behind up =
    let two = TwoOperands-of f index (suc n) s frame e in
    let low : ltb index 0 ≡ false = ground arith in
    let high : ltb (minus32 count 1) index ≡ false = ground arith in
    let memory : List ℕ = replicate (memory_bytes type count) 0 in
    let no_room : length memory ≤ index * suc size =
      omega (arith, length-replicate (memory_bytes type count) 0) in
    rw
      (
        two.upper_word,
        two.lower_word,
        at,
        low,
        high,
        read_word-behind memory (index * suc size) no_room,
      )
      refl

-- A load, the type and the count of an array, and an index that passes the test of the bounds
-- without being one of the memory: of an array of no ints, or of an array of bytes
abbrev pub Unguarded : Loading → ElementType → ℕ → ℕ → Type 0
Unguarded int_loading type count index =
    (type ≡ type_int) × (count ≡ 0) × (3 ≤ index) × (index < 2 ^ 32)
Unguarded byte_loading type count index =
    (type ≡ type_byte) × (8 ≤ index) × (index < count) × (count < 2 ^ 31)
Unguarded _ type count index = ⊥

int-overrun :
    (type : ElementType) (count index : ℕ)
    → Unguarded int_loading type count index
    → (memory_bytes type count ≤ index * 4) × (index ≤ minus32 count 1)
unfolding memory_bytes size_entry
int-overrun type count index (t, c, h, l) = rw (t, c) (omega arith, omega arith)

byte-overrun :
    (type : ElementType) (count index : ℕ)
    → Unguarded byte_loading type count index
    → (memory_bytes type count ≤ index * 1) × (index ≤ minus32 count 1)
unfolding memory_bytes size_entry
byte-overrun type count index (t, h, l, m) = rw t (omega arith, omega arith)

-- With an index on the stack and below it a reference to a new array of no ints and an index from 3
-- on, iaload passes the test of the bounds and reads outside the memory of the array. So does baload
-- for a new array of bytes and an index from 8 on that is less than the count.
pub new_array-overrun :
    (op : Loading) (heap : Heap) (f : Frame) (type : ElementType) (count index n : ℕ) (s : List ℕ)
    → IsFrame f
    → operands f ≡ index ∷ suc n ∷ s
    → find_array heap (suc n) ≡ done (create_new_array type count)
    → Unguarded op type count index
    → load op heap f ≡ fault
unfolding iaload baload size_of
new_array-overrun int_loading heap f type count index n s frame e at u =
    let (behind, up) = int-overrun type count index u in
    load_element-overrun 3 (λ e. e) heap f type count index n s frame e at behind up
new_array-overrun byte_loading heap f type count index n s frame e at u =
    let (behind, up) = byte-overrun type count index u in
    load_element-overrun 0 (narrow 7) heap f type count index n s frame e at behind up
new_array-overrun char_loading heap f type count index n s frame e at u = absurd u
new_array-overrun short_loading heap f type count index n s frame e at u = absurd u
