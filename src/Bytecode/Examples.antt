-- ===== src/Bytecode/Examples.antt =====
-- Small code arrays.
use jdepends.Common.{ℕ, ◌≡◌, refl, some, List, [], ◌∷◌, arith}
use jdepends.Common.Run.{Run, ok}
use jdepends.Bytecode.Defs.{
  op_tab, byte_at, or_of_four, lookup_skip, table_skip, wide_skip, skip_calc, skip_of,
  call_offsets_loop, call_offsets, get_call_offsets,
}
use jdepends.Bytecode.Layout.{operand_bytes, Calls, end, plain, call, table}
use jdepends.Bytecode.Walk.{call_offsets-Calls}

-- iconst_0; tableswitch with two bytes of padding, from 0 to 0; invokestatic; return
abbrev code : List ℕ
code =
    3 ∷ 170 ∷ 0 ∷ 0 ∷ 0 ∷ 0 ∷ 0 ∷ 1 ∷ 0 ∷ 0 ∷ 0 ∷ 0 ∷ 0 ∷ 0 ∷ 0 ∷ 0 ∷ 0 ∷ 0 ∷ 0 ∷ 19 ∷ 184 ∷ 0 ∷ 7
    ∷ 177 ∷ []

run : List ℕ → Run (List ℕ)
unfolding op_tab byte_at or_of_four lookup_skip table_skip wide_skip skip_calc skip_of
    call_offsets_loop call_offsets get_call_offsets
run c = get_call_offsets (some c)

finds_call : run code ≡ ok (20 ∷ [])
unfolding run
finds_call = refl

-- wide iload 182: the low byte of the index is taken for an invokevirtual.
takes_operand_for_call : run (196 ∷ 21 ∷ 0 ∷ 182 ∷ 177 ∷ 0 ∷ []) ≡ ok (3 ∷ [])
unfolding run
takes_operand_for_call = refl

code-Calls : Calls code 0 (20 ∷ [])
unfolding operand_bytes
code-Calls = plain 3 refl (omega arith) refl refl (
    table 0 0 refl
      (record { byte_0 = refl; byte_1 = refl; byte_2 = refl; byte_3 = refl; small = omega arith })
      (record { byte_0 = refl; byte_1 = refl; byte_2 = refl; byte_3 = refl; small = omega arith })
      (omega arith)
      (call 184 refl refl (plain 177 refl (omega arith) refl refl (end (omega arith)))))

call_offsets-Calls_example : get_call_offsets (some code) ≡ ok (20 ∷ [])
call_offsets-Calls_example = call_offsets-Calls code (20 ∷ []) code-Calls

-- 256 pairs
abbrev switch : List ℕ
switch = 171 ∷ 0 ∷ 0 ∷ 0 ∷ 0 ∷ 0 ∷ 0 ∷ 9 ∷ 0 ∷ 0 ∷ 1 ∷ 0 ∷ []
