-- ===== src/StackMap/Defs.antt =====
-- JvmCreateStackMap of Jvmrt.c, and what JvmRtSetUpStackFrame allocates for it. The fields are those
-- that the descriptor parser fills; a JVM_WORD has 16 bits.
use jdepends.Common.{
  ℕ, zero, suc, ◌+◌, ◌%◌, ◌^◌, Option, none, some, List, [], ◌∷◌, length, set, replicate, ltb,
  if◌then◌else◌,
}
use jdepends.Common.Run.{Run, ok, fault, ◌>>=◌}
use jdepends.Descriptor.Defs.{FieldInfo, MethodInfo}

-- The types of the entries of ppjltiLocalVarTable, and jiLocalVarsWidthInWords
pub record CodeInfo : Type 0 where
  pub local_vars : List FieldInfo
  pub local_vars_width : ℕ

-- `(*ppju32StackMap)[ index ] = IS_A_REFERENCE`
unfoldable pub mark : List ℕ → ℕ → Run (List ℕ)
mark map index = if ltb index (length map) then ok (set map index 1) else fault

-- The inner loop of the parameters, for the words that are left
unfoldable pub mark_words : List ℕ → ℕ → ℕ → Run (List ℕ)
mark_words map index zero = ok map
mark_words map index (suc words) = do marked ← mark map index; mark_words marked (index + 1) words

-- The loop of the parameters: the map and the index after it
unfoldable pub mark_parameters : ℕ → List FieldInfo → List ℕ → ℕ → Run (List ℕ × ℕ)
mark_parameters zero fields map index = ok (map, index)
mark_parameters (suc count) [] map index = fault
mark_parameters (suc count) (f ∷ fields) map index = do
  marked ← (if f.is_object then mark_words map index f.width_in_words else ok map)
  mark_parameters count fields marked ((index + f.width_in_words) % 2 ^ 16)

-- The loop of the local variables
unfoldable pub mark_locals : List FieldInfo → List ℕ → ℕ → Run (List ℕ)
mark_locals [] map index = ok map
mark_locals (f ∷ fields) map index = do
  marked ← (if f.is_object then mark map index else ok map)
  mark_locals fields marked ((index + 1) % 2 ^ 16)

-- pjciCodeInfo is read without a test.
unfoldable pub mark_code : Option CodeInfo → List ℕ → ℕ → Run (List ℕ)
mark_code none map index = fault
mark_code (some code) map index = mark_locals code.local_vars map index

-- JvmCreateStackMap, for an allocation that does not fail
unfoldable pub create_stack_map : MethodInfo → Option CodeInfo → ℕ → Run (List ℕ)
create_stack_map m code count = do
  this_marked ← mark (replicate count 0) 0
  r ← mark_parameters m.parameter_count m.parameter_fields this_marked 1
  mark_code code r.0 r.1

-- ju32LocalVarsSize of JvmRtSetUpStackFrame
unfoldable pub local_vars_size : MethodInfo → Option CodeInfo → ℕ
local_vars_size m none = (1 + m.params_width_in_words) % 2 ^ 32
local_vars_size m (some code) = (1 + m.params_width_in_words + code.local_vars_width) % 2 ^ 32

-- The locals and the stack map of the frame of a method that is not native
unfoldable pub set_up_locals : MethodInfo → Option CodeInfo → Run (List ℕ × List ℕ)
set_up_locals m code =
    let size = local_vars_size m code in
    do map ← create_stack_map m code size; ok (replicate size 0, map)
