-- ===== src/StackMap/Marks.antt =====
-- What the loops of the stack map leave in it.
use jdepends.Common.{
  ℕ, zero, suc, ◌+◌, ◌%◌, ◌^◌, ◌<◌, ◌≡◌, refl, sym, ap, ◌∙◌, true, Bool-cases, List, [], ◌∷◌, ◌++◌,
  append_assoc, length, length-append, set, replicate, ltb, inl, inr, if◌then◌else◌, arith,
}
use jdepends.Common.Run.{ok}
use jdepends.Descriptor.Defs.{FieldInfo}
use jdepends.StackMap.Defs.{mark, mark_words, mark_parameters, mark_locals}

-- The mark of a field
abbrev pub mark_of : FieldInfo → ℕ
mark_of f = if f.is_object then 1 else 0

-- Each field has as many marks as it has words.
abbrev pub marks_by_words : List FieldInfo → List ℕ
marks_by_words [] = []
marks_by_words (f ∷ fields) = replicate f.width_in_words (mark_of f) ++ marks_by_words fields

-- Each field has one mark.
abbrev pub single_marks : List FieldInfo → List ℕ
single_marks [] = []
single_marks (f ∷ fields) = mark_of f ∷ single_marks fields

pub length-replicate : (n x : ℕ) → length (replicate n x) ≡ n
length-replicate zero x = refl
length-replicate (suc n) x = ap suc (length-replicate n x)

replicate-append : (m n x : ℕ) → replicate m x ++ replicate n x ≡ replicate (m + n) x
replicate-append zero n x = ap (λ k. replicate k x) (omega arith)
replicate-append (suc m) n x =
    let grown : suc m + n ≡ suc (m + n) = omega arith in
    rw grown (ap (λ s. x ∷ s) (replicate-append m n x))

set-append :
    (front : List ℕ) (y x : ℕ) (rest : List ℕ)
    → set (front ++ y ∷ rest) (length front) x ≡ front ++ x ∷ rest
set-append [] y x rest = refl
set-append (z ∷ front) y x rest = ap (λ s. z ∷ s) (set-append front y x rest)

pub mark-append :
    (front : List ℕ) (y : ℕ) (rest : List ℕ)
    → mark (front ++ y ∷ rest) (length front) ≡ ok (front ++ 1 ∷ rest)
unfolding mark
mark-append front y rest =
    let inside : ltb (length front) (length (front ++ y ∷ rest)) ≡ true =
      ground (arith, length-append front (y ∷ rest)) in
    rw (inside, set-append front y 1 rest) refl

-- The front of a list takes the element behind it.
front_takes :
    (front : List ℕ) (x : ℕ) (rest : List ℕ) → (front ++ (x ∷ [])) ++ rest ≡ front ++ (x ∷ rest)
front_takes [] x rest = refl
front_takes (y ∷ front) x rest = ap (λ s. y ∷ s) (front_takes front x rest)

length-front_takes : (front : List ℕ) (x : ℕ) → length (front ++ (x ∷ [])) ≡ length front + 1
length-front_takes front x = omega (arith, length-append front (x ∷ []))

mark_words-append :
    (words : ℕ) (front rest : List ℕ)
    → mark_words (front ++ (replicate words 0 ++ rest)) (length front) words
      ≡ ok (front ++ (replicate words 1 ++ rest))
unfolding mark_words
mark_words-append zero front rest = refl
mark_words-append (suc words) front rest =
    let further = mark_words-append words (front ++ (1 ∷ [])) rest in
    let step : mark_words (front ++ (1 ∷ (replicate words 0 ++ rest))) (length front + 1) words
        ≡ ok (front ++ (1 ∷ (replicate words 1 ++ rest))) =
      rw⁻¹
        (
          front_takes front 1 (replicate words 0 ++ rest),
          front_takes front 1 (replicate words 1 ++ rest),
          length-front_takes front 1,
        )
        further in
    rw (mark-append front 0 (replicate words 0 ++ rest)) step

field_step :
    (f : FieldInfo) (front rest : List ℕ)
    → (if f.is_object
        then mark_words
            (front ++ (replicate f.width_in_words 0 ++ rest))
            (length front)
            f.width_in_words
        else ok (front ++ (replicate f.width_in_words 0 ++ rest)))
      ≡ ok (front ++ (replicate f.width_in_words (mark_of f) ++ rest))
field_step f front rest = elim (Bool-cases f.is_object) [
  | inl e ↦ rw e (mark_words-append f.width_in_words front rest)
  | inr e ↦ rw e refl
]

-- The zeros that the words of a field and those behind them take up
zeros_split :
    (w n k : ℕ) (marks : List ℕ)
    → length marks ≡ w + n
    → replicate {A = ℕ} (length marks + k) 0 ≡ replicate w 0 ++ replicate (n + k) 0
zeros_split w n k marks e =
    let sum : length marks + k ≡ w + (n + k) = omega (arith, e) in
    rw (sum, replicate-append w (n + k) 0) refl

length-marks :
    (f : FieldInfo) (fields : List FieldInfo)
    → length (marks_by_words (f ∷ fields)) ≡ f.width_in_words + length (marks_by_words fields)
length-marks f fields = omega (
  arith,
  length-append (replicate f.width_in_words (mark_of f)) (marks_by_words fields),
  length-replicate f.width_in_words (mark_of f),
)

pub mark_parameters-marks :
    (fields : List FieldInfo) (front : List ℕ) (n : ℕ)
    → length front + length (marks_by_words fields) < 2 ^ 16
    → mark_parameters
        (length fields)
        fields
        (front ++ replicate (length (marks_by_words fields) + n) 0)
        (length front)
      ≡ ok (
        front ++ (marks_by_words fields ++ replicate n 0),
        length front + length (marks_by_words fields),
      )
unfolding mark_parameters
mark_parameters-marks [] front n h =
    let none_used : 0 + n ≡ n = omega arith in
    let same : length front + 0 ≡ length front = omega arith in rw (none_used, same) refl
mark_parameters-marks (f ∷ fields) front n h =
    let w = f.width_in_words in
    let mine = replicate w (mark_of f) in
    let others = marks_by_words fields in
    let rest : List ℕ = replicate (length others + n) 0 in
    let zeros : List ℕ = replicate n 0 in
    let split = zeros_split w (length others) n (mine ++ others) (length-marks f fields) in
    let size : length (front ++ mine) ≡ length front + w =
      omega (arith, length-append front mine, length-replicate w (mark_of f)) in
    let small : length (front ++ mine) + length others < 2 ^ 16 =
      omega (arith, h, size, length-marks f fields) in
    let index : (length front + w) % 2 ^ 16 ≡ length (front ++ mine) = omega (arith, size, small) in
    let total : length (front ++ mine) + length others ≡ length front + length (mine ++ others) =
      omega (arith, size, length-marks f fields) in
    let moved : front ++ (mine ++ rest) ≡ (front ++ mine) ++ rest =
      sym (append_assoc front mine rest) in
    let joined : (front ++ mine) ++ (others ++ zeros) ≡ front ++ ((mine ++ others) ++ zeros) =
      append_assoc front mine (others ++ zeros)
      ∙ ap (λ s. front ++ s) (sym (append_assoc mine others zeros)) in
    rw
      (
        split,
        field_step f front rest,
        moved,
        index,
        mark_parameters-marks fields (front ++ mine) n small,
        joined,
        total,
      )
      refl

local_step :
    (f : FieldInfo) (front rest : List ℕ)
    → (if f.is_object then mark (front ++ (0 ∷ rest)) (length front) else ok (front ++ (0 ∷ rest)))
      ≡ ok (front ++ (mark_of f ∷ rest))
local_step f front rest = elim (Bool-cases f.is_object) [
  | inl e ↦ rw e (mark-append front 0 rest)
  | inr e ↦ rw e refl
]

pub mark_locals-marks :
    (fields : List FieldInfo) (front : List ℕ) (n : ℕ)
    → length front + length fields < 2 ^ 16
    → mark_locals fields (front ++ replicate (length fields + n) 0) (length front)
      ≡ ok (front ++ (single_marks fields ++ replicate n 0))
unfolding mark_locals
mark_locals-marks [] front n h = let none_used : 0 + n ≡ n = omega arith in rw none_used refl
mark_locals-marks (f ∷ fields) front n h =
    let rest : List ℕ = replicate (length fields + n) 0 in
    let zeros : List ℕ = replicate n 0 in
    let more : suc (length fields) + n ≡ suc (length fields + n) = omega arith in
    let small : length (front ++ (mark_of f ∷ [])) + length fields < 2 ^ 16 =
      omega (arith, h, length-front_takes front (mark_of f)) in
    let index : (length front + 1) % 2 ^ 16 ≡ length (front ++ (mark_of f ∷ [])) =
      omega (arith, h, length-front_takes front (mark_of f)) in
    rw
      (
        more,
        local_step f front rest,
        sym (front_takes front (mark_of f) rest),
        index,
        mark_locals-marks fields (front ++ (mark_of f ∷ [])) n small,
        front_takes front (mark_of f) (single_marks fields ++ zeros),
      )
      refl
