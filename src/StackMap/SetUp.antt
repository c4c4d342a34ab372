-- ===== src/StackMap/SetUp.antt =====
-- The stack map of a frame fits the locals that are allocated for it.
use jdepends.Common.{
  ℕ, suc, ◌+◌, ◌-◌, ◌%◌, ◌^◌, ◌≤◌, ◌<◌, ◌≡◌, refl, Option, none, some, List, [], ◌∷◌, ◌++◌, length,
  replicate, arith,
}
use jdepends.Common.Run.{ok, fault}
use jdepends.Descriptor.Defs.{FieldInfo, MethodInfo}
use jdepends.StackMap.Defs.{
  CodeInfo, mark, mark_locals, mark_code, create_stack_map, local_vars_size, set_up_locals,
}
use jdepends.StackMap.Marks.{
  marks_by_words, single_marks, mark-append, mark_parameters-marks, mark_locals-marks,
}

-- A method whose parameters are counted, and have as many words as the parser has added up
pub record IsCounted (m : MethodInfo) : Type 0 where
  pub counted : m.parameter_count ≡ length m.parameter_fields
  pub added_up : m.params_width_in_words ≡ length (marks_by_words m.parameter_fields)

create_stack_map-parameters :
    (m : MethodInfo) (code : Option CodeInfo) (size k : ℕ)
    → IsCounted m
    → size ≡ suc (m.params_width_in_words + k)
    → size < 2 ^ 16
    → create_stack_map m code size
      ≡ mark_code code
          ((1 ∷ marks_by_words m.parameter_fields) ++ replicate k 0)
          (1 + length (marks_by_words m.parameter_fields))
unfolding create_stack_map
create_stack_map-parameters m code size k h e small =
    let zeros : List ℕ = replicate (length (marks_by_words m.parameter_fields) + k) 0 in
    let wide : size ≡ suc (length (marks_by_words m.parameter_fields) + k) =
      omega (arith, e, h.added_up) in
    let first : mark (0 ∷ zeros) 0 ≡ ok (1 ∷ zeros) = mark-append [] 0 zeros in
    let fits : 1 + length (marks_by_words m.parameter_fields) < 2 ^ 16 =
      omega (arith, wide, small) in
    rw (wide, first, h.counted, mark_parameters-marks m.parameter_fields (1 ∷ []) k fits) refl

mark_locals-behind :
    (fields : List FieldInfo) (front : List ℕ) (k spare index : ℕ)
    → index ≡ length front
    → k ≡ length fields + spare
    → length front + length fields < 2 ^ 16
    → mark_locals fields (front ++ replicate k 0) index
      ≡ ok (front ++ (single_marks fields ++ replicate spare 0))
mark_locals-behind fields front k spare index e room small =
    rw (e, room) (mark_locals-marks fields front spare small)

-- For a method whose parameters are counted, whose locals are fewer than 65536 words and whose table
-- of local variables has no more entries than words, JvmRtSetUpStackFrame allocates its locals and a
-- stack map of the same length, and no mark falls outside: the map holds a reference for `this`, the
-- marks of the words of the parameters, one mark for each entry of the table, and zeros. For a method
-- without code the call reads through a null pointer.
pub set_up_locals-marks :
    (m : MethodInfo) (code : CodeInfo)
    → IsCounted m
    → length code.local_vars ≤ code.local_vars_width
    → 1 + m.params_width_in_words + code.local_vars_width < 2 ^ 16
    → (set_up_locals m (some code)
        ≡ ok (
          replicate (1 + m.params_width_in_words + code.local_vars_width) 0,
          (1 ∷ marks_by_words m.parameter_fields)
              ++ (single_marks code.local_vars
                  ++ replicate (code.local_vars_width - length code.local_vars) 0),
        ))
      × (set_up_locals m none ≡ fault)
unfolding set_up_locals local_vars_size mark_code
set_up_locals-marks m code h few small =
    let k = code.local_vars_width in
    let others = marks_by_words m.parameter_fields in
    let spare = k - length code.local_vars in
    let size : (1 + m.params_width_in_words + k) % 2 ^ 32 ≡ 1 + m.params_width_in_words + k =
      omega (arith, small) in
    let bare : (1 + m.params_width_in_words) % 2 ^ 32 ≡ 1 + m.params_width_in_words =
      omega (arith, small) in
    let room : k ≡ length code.local_vars + spare = omega (arith, few) in
    let inside : length (1 ∷ others) + length code.local_vars < 2 ^ 16 =
      omega (arith, small, h.added_up, few) in
    let counts : 1 + length others ≡ length (1 ∷ others) = omega arith in
    let map_here : mark_locals code.local_vars ((1 ∷ others) ++ replicate k 0) (1 + length others)
        ≡ ok ((1 ∷ others) ++ (single_marks code.local_vars ++ replicate spare 0)) =
      mark_locals-behind code.local_vars (1 ∷ others) k spare (1 + length others) counts room
        inside in
    (
      rw
          (
            size,
            create_stack_map-parameters m (some code) (1 + m.params_width_in_words + k) k h
                (omega arith) small,
            map_here,
          )
          refl,
      rw
          (
            bare,
            create_stack_map-parameters m none (1 + m.params_width_in_words) 0 h (omega arith)
                (omega (arith, small)),
          )
          refl,
    )
