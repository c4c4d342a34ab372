-- ===== src/StackMap/Parsed.antt =====
-- The descriptor parser and the stack map together.
use jdepends.Common.{
  ℕ, suc, ◌+◌, ◌-◌, ◌^◌, ◌≤◌, ◌<◌, ◌≡◌, refl, sym, ap, ◌∙◌, Option, some, List, [], ◌∷◌, ◌++◌, map,
  length, length-append, replicate, if◌then◌else◌, arith,
}
use jdepends.Common.Run.{ok, ◌>>=◌}
use jdepends.Descriptor.Defs.{Stream, parse_method}
use jdepends.Descriptor.Grammar.{FieldType, describe, width, is_object_element}
use jdepends.Descriptor.Method.{
  AreValid, IsValidReturn, describe_method, new_method, print_method, total_width,
  parse_method-print,
}
use jdepends.StackMap.Defs.{CodeInfo, set_up_locals}
use jdepends.StackMap.Marks.{marks_by_words, single_marks, length-replicate}
use jdepends.StackMap.SetUp.{IsCounted, set_up_locals-marks}

-- The words of the parameters of a descriptor: 1 for each word of a class type or of an array of
-- one, 0 for each word of another type
abbrev pub type_marks : List FieldType → List ℕ
type_marks [] = []
type_marks (t ∷ ts) = replicate (width t) (if is_object_element t then 1 else 0) ++ type_marks ts

marks_by_words-describe : (ts : List FieldType) → marks_by_words (map describe ts) ≡ type_marks ts
marks_by_words-describe [] = refl
marks_by_words-describe (t ∷ ts) = rw (marks_by_words-describe ts) refl

length-type_marks : (ts : List FieldType) → length (type_marks ts) ≡ total_width ts
length-type_marks [] = refl
length-type_marks (t ∷ ts) =
    let mine : List ℕ = replicate (width t) (if is_object_element t then 1 else 0) in
    omega (
      arith,
      length-type_marks ts,
      length-append mine (type_marks ts),
      length-replicate (width t) (if is_object_element t then 1 else 0),
    )

length-describe : (ts : List FieldType) → length (map describe ts) ≡ length ts
length-describe [] = refl
length-describe (t ∷ ts) = ap suc (length-describe ts)

describe_method-IsCounted :
    (ts : List FieldType) (r : Option FieldType) → IsCounted (describe_method ts r)
describe_method-IsCounted ts r = record {
  counted = sym (length-describe ts);
  added_up = sym (length-type_marks ts) ∙ ap length (sym (marks_by_words-describe ts));
}

-- For a method descriptor of the grammar, and code whose locals fit, the parser's result gives a
-- frame whose stack map holds a reference for `this`, then the marks of the parameters of the
-- descriptor in their order, a long or a double taking two words, then one mark for each local
-- variable, and zeros up to the length of the locals. An array of a base type is not marked.
pub parse_method-set_up_locals :
    (ts : List FieldType) (r : Option FieldType) (rest : Stream) (code : CodeInfo)
    → AreValid ts
    → IsValidReturn r
    → length code.local_vars ≤ code.local_vars_width
    → 1 + total_width ts + code.local_vars_width < 2 ^ 16
    → (parse_method (print_method ts r ++ rest) new_method >>= λ p. set_up_locals p.1 (some code))
      ≡ ok (
        replicate (1 + total_width ts + code.local_vars_width) 0,
        (1 ∷ type_marks ts)
            ++ (single_marks code.local_vars
                ++ replicate (code.local_vars_width - length code.local_vars) 0),
      )
parse_method-set_up_locals ts r rest code v w few small =
    rw
      (
        parse_method-print ts r rest v w,
        (set_up_locals-marks (describe_method ts r) code (describe_method-IsCounted ts r) few
            small).0,
        marks_by_words-describe ts,
      )
      refl
