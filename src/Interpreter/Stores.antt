-- ===== src/Interpreter/Stores.antt =====
-- iastore of Jvmrt.c, and iaload behind it.
use jdepends.Common.{
  ℕ, zero, suc, ◌*◌, ◌%◌, ◌^◌, ◌≤◌, ◌<◌, ◌≡◌, ◌≢◌, refl, ap, ◌∙◌, inl, inr, false, Bool-cases, ltb,
  ◌==◌, ==→eq, some, List, [], ◌∷◌, length, get_elem?, get_elem?-lt, get_or, set, length-set, arith,
}
use jdepends.Interpreter.Machine.{
  Frame, Step, done, minus32, read_word, read_word-lt, words, operands, IsFrame,
}
use jdepends.Interpreter.Stack.{continue}
use jdepends.Interpreter.Effects.{Effect, minus32_is, with_top}
use jdepends.Interpreter.Arrays.{
  size_of, JavaArray, Heap, in_bounds, checked, load_element, iaload, with_elements, store_element,
  iastore,
}
use jdepends.Interpreter.Elements.{
  IsArray, IsHeap, TwoOperands, TwoOperands-of, find_array-lem, element-le,
}
use jdepends.Interpreter.Memory.{
  read_bytes-le, bytes_at, set_bytes, length-set_bytes, write_bytes-le, bytes_at-set_word,
}

-- Three operands, and what is left below them
record ThreeOperands (f : Frame) (a b c : ℕ) (s : List ℕ) : Type 0 where
  top_word : read_word f.op_stack f.top ≡ done a
  second_word : read_word f.op_stack (minus32 f.top 1) ≡ done b
  third_word : read_word f.op_stack (minus32 f.top 2) ≡ done c
  below : operands (with_top f (minus32 f.top 3)) ≡ s
  below_inside : minus32 f.top 3 < length f.op_stack

ThreeOperands-words :
    (f : Frame) (n : ℕ)
    → suc (suc (suc n)) < length f.op_stack
    → length f.op_stack < 2 ^ 32
    → let c = f.op_stack in
      ThreeOperands
        (with_top f (suc (suc (suc n))))
        (get_or c (suc (suc (suc n))) 0)
        (get_or c (suc (suc n)) 0)
        (get_or c (suc n) 0)
        (words c n)
unfolding operands
ThreeOperands-words f n h l =
    let c = f.op_stack in
    let m1 = minus32_is (suc (suc (suc n))) 1 (suc (suc n)) (omega arith) (omega arith) in
    let m2 = minus32_is (suc (suc (suc n))) 2 (suc n) (omega arith) (omega arith) in
    let m3 = minus32_is (suc (suc (suc n))) 3 n (omega arith) (omega arith) in
    record {
      top_word = read_word-lt c (suc (suc (suc n))) 0 h;
      second_word = rw m1 (read_word-lt c (suc (suc n)) 0 (omega arith));
      third_word = rw m2 (read_word-lt c (suc n) 0 (omega arith));
      below = rw m3 refl;
      below_inside = rw m3 (omega arith);
    }

module _ (f : Frame) (a b c : ℕ) (s : List ℕ) where
  three_cases :
      (t : ℕ)
      → t < length f.op_stack
      → length f.op_stack < 2 ^ 32
      → words f.op_stack t ≡ a ∷ b ∷ c ∷ s
      → ThreeOperands (with_top f t) a b c s
  unfolding words
  three_cases zero h l e = cc
  three_cases (suc zero) h l e = cc
  three_cases (suc (suc zero)) h l e = cc
  three_cases (suc (suc (suc n))) h l e =
      let cells = f.op_stack in
      let e1 : a ≡ get_or cells (suc (suc (suc n))) 0 = cc in
      let e2 : b ≡ get_or cells (suc (suc n)) 0 = cc in
      let e3 : c ≡ get_or cells (suc n) 0 = cc in
      let e4 : s ≡ words cells n = cc in rw (e1, e2, e3, e4) (ThreeOperands-words f n h l)

  ThreeOperands-of : IsFrame f → operands f ≡ a ∷ b ∷ c ∷ s → ThreeOperands f a b c s
  unfolding operands
  ThreeOperands-of w e = three_cases f.top w.top_inside w.indexed e

-- An array of the heap, with an index inside its bounds
record Element (heap : Heap) (n index : ℕ) (array : JavaArray) : Type 0 where
  at : get_elem? heap n ≡ some array
  ok : IsArray array
  inside : index ≤ array.upper_bound

checked-Element :
    (heap : Heap) (n index : ℕ) (array : JavaArray) (f : Frame) (e : Element heap n index array)
    → checked heap f (suc n) index ≡ done e.ok.memory
unfolding checked in_bounds
checked-Element heap n index array f e =
    let low : ltb index array.lower_bound ≡ false = rw e.ok.from_zero (ground arith) in
    let high : ltb array.upper_bound index ≡ false = ground (arith, e.inside) in
    rw (find_array-lem heap n e.at, e.ok.has_memory, low, high) refl

iaload-Element :
    (heap : Heap) (n index : ℕ) (array : JavaArray) (g : Frame) (s : List ℕ)
    (e : Element heap n index array)
    → size_of array.type ≡ 4
    → TwoOperands g index (suc n) s
    → Effect g 1 (iaload heap g) (bytes_at 4 e.ok.memory (index * 4) ∷ s)
unfolding iaload load_element size_of
iaload-Element heap n index array g s e same two =
    let less = element-le array index 4 e.ok same e.inside in
    rw
      (
        two.upper_word,
        two.lower_word,
        checked-Element heap n index array g e,
        read_bytes-le 4 e.ok.memory (index * 4) less,
      )
      (two.replaced (bytes_at 4 e.ok.memory (index * 4)))

module _ {A : Type 0} where
  get_elem?-set : (xs : List A) (n : ℕ) (v : A) → n < length xs → get_elem? (set xs n v) n ≡ some v
  get_elem?-set [] n v h = absurd (omega arith)
  get_elem?-set (x ∷ xs) zero v h = refl
  get_elem?-set (x ∷ xs) (suc n) v h = get_elem?-set xs n v (omega arith)

  get_elem?-set_other :
      (xs : List A) (n m : ℕ) (v : A) → n ≢ m → get_elem? (set xs n v) m ≡ get_elem? xs m
  get_elem?-set_other [] n m v d = refl
  get_elem?-set_other (x ∷ xs) zero zero v d = absurd (d refl)
  get_elem?-set_other (x ∷ xs) zero (suc m) v d = refl
  get_elem?-set_other (x ∷ xs) (suc n) zero v d = refl
  get_elem?-set_other (x ∷ xs) (suc n) (suc m) v d = get_elem?-set_other xs n m v λ e. d (ap suc e)

Element-of :
    (heap : Heap) (n index : ℕ) (array : JavaArray)
    → IsHeap heap
    → get_elem? heap n ≡ some array
    → index ≤ array.upper_bound
    → Element heap n index array
Element-of heap n index array w at up =
    let (x, x_at, ok) = w n (get_elem?-lt heap n at) in
    let same : x ≡ array = cc in record { at = at; ok = rw⁻¹ same ok; inside = up }

set-IsHeap :
    (heap : Heap) (n : ℕ) (array : JavaArray)
    → IsHeap heap
    → IsArray array
    → IsHeap (set heap n array)
set-IsHeap heap n array w a m h =
    let size = length-set heap n array in
    elim (Bool-cases (n == m)) [
      | inl e ↦
          let same = ==→eq n m e in
          (array, rw⁻¹ same (get_elem?-set heap n array (omega (arith, same))), a)
      | inr e ↦
          let (x, at, ok) = w m (omega arith) in
          (x, get_elem?-set_other heap n m array (λ c. ground arith) ∙ at, ok)
    ]

same_word :
    {f : Frame} {bytes a b : ℕ} {r : Step Frame} {s : List ℕ}
    → a ≡ b
    → Effect f bytes r (a ∷ s)
    → Effect f bytes r (b ∷ s)
same_word e effect = rw⁻¹ e effect

-- The store ends with the operands off the stack and a well-formed heap, and a later load of the
-- same element gives the value.
pub record Stores (heap : Heap) (f : Frame) (value index n : ℕ) (s : List ℕ) : Type 0 where
  pub after : Frame
  pub heap' : Heap
  pub result : iastore heap f ≡ done (after, heap')
  pub stack : operands after ≡ s
  pub frame : IsFrame after
  pub well_formed : IsHeap heap'
  pub loaded :
      (g : Frame) (s' : List ℕ)
      → IsFrame g
      → operands g ≡ index ∷ suc n ∷ s'
      → Effect g 1 (iaload heap' g) (value % 2 ^ 32 ∷ s')

-- On a well-formed heap, with a value, an index within the bounds of an array with elements of four
-- bytes, and the reference of the array on the stack, iastore takes the three off and leaves a
-- well-formed heap, on which iaload of the same element gives the value modulo 2 ^ 32.
pub iastore-iaload :
    (heap : Heap) (f : Frame) (value index n : ℕ) (s : List ℕ) (array : JavaArray)
    → IsHeap heap
    → IsFrame f
    → operands f ≡ value ∷ index ∷ suc n ∷ s
    → get_elem? heap n ≡ some array
    → index ≤ array.upper_bound
    → size_of array.type ≡ 4
    → Stores heap f value index n s
unfolding iastore store_element with_elements continue operands size_of
iastore-iaload heap f value index n s array w frame e at up same =
    let three = ThreeOperands-of f value index (suc n) s frame e in
    let old = Element-of heap n index array w at up in
    let es = set_bytes 4 old.ok.memory (index * 4) value in
    let less = element-le array index 4 old.ok same up in
    let kept_size = length-set_bytes 4 old.ok.memory (index * 4) value in
    let new : JavaArray = record array { elements = some es } in
    let new_ok : IsArray new = record {
      memory = es;
      has_memory = refl;
      from_zero = old.ok.from_zero;
      enough = rw kept_size old.ok.enough;
    } in
    let there : Element (set heap n new) n index new = record {
      at = get_elem?-set heap n new (get_elem?-lt heap n at);
      ok = new_ok;
      inside = up;
    } in
    record {
      after = continue f f.op_stack (minus32 f.top 3) 1;
      heap' = set heap n new;
      result =
          rw
            (
              three.third_word,
              three.second_word,
              three.top_word,
              checked-Element heap n index array f old,
              find_array-lem heap n at,
              write_bytes-le 4 old.ok.memory (index * 4) value less,
            )
            refl;
      stack = three.below;
      frame = record { top_inside = three.below_inside; indexed = frame.indexed };
      well_formed = set-IsHeap heap n new w new_ok;
      loaded = λ g s' frame' e'.
          same_word (bytes_at-set_word old.ok.memory (index * 4) value less) (
            iaload-Element (set heap n new) n index new g s' there same
              (TwoOperands-of g index (suc n) s' frame' e'));
    }
