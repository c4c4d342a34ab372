-- ===== src/Interpreter/Variables.antt =====
-- Words that go to the local variables and come back.
use jdepends.Common.{
  ℕ, zero, suc, ◌+◌, ◌^◌, ◌≤◌, ◌<◌, ◌≡◌, ◌≢◌, refl, ap, ◌∙◌, ◌⊎◌, inl, inr, false, Bool-cases, none,
  some, List, [], ◌∷◌, ◌==◌, ==→eq, length, length-set, get_or, get_or-set, get_or-set_other, set,
  arith,
}
use jdepends.Interpreter.Machine.{
  java_virtual_machine_error, Frame, Step, done, raised, plus32, read_word, read_word-lt,
  write_word-lt, words, operands, IsFrame,
}
use jdepends.Interpreter.Arithmetic.{push_two}
use jdepends.Interpreter.Locals.{
  local_index, bytes_of, check_reference, ifload, ldload, aload, stored, ldstore,
}
use jdepends.Interpreter.Effects.{Effect, writes_then-Effect, plus32_is, minus32_is, with_top}

-- The instruction at the start of the code names this local variable.
pub record NamesVariable (code : List ℕ) (index : ℕ) : Type 0 where
  pub opcode : ℕ
  pub first : read_word code 0 ≡ done opcode
  pub variable : local_index code opcode ≡ done index

push_two-Effect :
    (f : Frame) (word1 word2 bytes : ℕ)
    → suc (suc f.top) < length f.op_stack
    → length f.op_stack < 2 ^ 32
    → Effect f bytes (push_two f word1 word2 bytes) (word2 ∷ word1 ∷ words f.op_stack f.top)
unfolding push_two
push_two-Effect f word1 word2 bytes h l =
    rw
      (
        plus32_is f.top 1 (suc f.top) (omega arith) (omega arith),
        plus32_is f.top 2 (suc (suc f.top)) (omega arith) (omega arith),
      )
      (writes_then-Effect f bytes f.top (word1 ∷ word2 ∷ []) h l)

ldload-Effect :
    (f : Frame) (index : ℕ) (at : NamesVariable f.code index)
    → suc (suc f.top) < length f.op_stack
    → length f.op_stack < 2 ^ 32
    → index + 1 < length f.locals
    → Effect f
        (bytes_of at.opcode)
        (ldload f)
        (get_or f.locals (index + 1) 0 ∷ get_or f.locals index 0 ∷ words f.op_stack f.top)
unfolding ldload
ldload-Effect f index at h l i =
    rw
      (
        at.first,
        at.variable,
        read_word-lt f.locals index 0 (omega arith),
        read_word-lt f.locals (index + 1) 0 i,
      )
      (push_two-Effect f (get_or f.locals index 0) (get_or f.locals (index + 1) 0)
        (bytes_of at.opcode) h l)

abbrev two_stored : Frame → ℕ → ℕ → ℕ → List ℕ
two_stored f index word1 word2 = set (set f.locals (index + 1) word2) index word1

ldstore-lem :
    (f : Frame) (n index : ℕ) (at : NamesVariable f.code index)
    → suc (suc n) < length f.op_stack
    → length f.op_stack < 2 ^ 32
    → index + 1 < length f.locals
    → let c = f.op_stack in
      let g = with_top f (suc (suc n)) in
      ldstore g
      ≡ done (record f {
        locals = two_stored f index (get_or c (suc n) 0) (get_or c (suc (suc n)) 0);
        top = n;
        pc = plus32 f.pc (bytes_of at.opcode);
      })
unfolding ldstore stored
ldstore-lem f n index at h l i =
    let c = f.op_stack in
    rw
      (
        at.first,
        at.variable,
        read_word-lt c (suc (suc n)) 0 h,
        write_word-lt f.locals (index + 1) (get_or c (suc (suc n)) 0) i,
        minus32_is (suc (suc n)) 1 (suc n) (omega arith) (omega arith),
        minus32_is (suc (suc n)) 2 n (omega arith) (omega arith),
        read_word-lt c (suc n) 0 (omega arith),
        write_word-lt (set f.locals (index + 1) (get_or c (suc (suc n)) 0)) index
            (get_or c (suc n) 0)
            (omega (arith, length-set f.locals (index + 1) (get_or c (suc (suc n)) 0))),
      )
      refl

-- What two_stored holds
two_stored-words :
    (f : Frame) (index word1 word2 : ℕ)
    → index + 1 < length f.locals
    → (get_or (two_stored f index word1 word2) index 0 ≡ word1)
      × (get_or (two_stored f index word1 word2) (index + 1) 0 ≡ word2)
two_stored-words f index word1 word2 i =
    let size = length-set f.locals (index + 1) word2 in
    (
      get_or-set (set f.locals (index + 1) word2) index word1 0 (omega (arith, size)),
      get_or-set_other (set f.locals (index + 1) word2) index (index + 1) word1 0
            (λ e. omega (arith, e))
          ∙ get_or-set f.locals (index + 1) word2 0 i,
    )

two_words : {a a' b b' : ℕ} {s : List ℕ} → a ≡ a' → b ≡ b' → a ∷ b ∷ s ≡ a' ∷ b' ∷ s
two_words e e' = cc

same_operands :
    {f : Frame} {bytes : ℕ} {r : Step Frame} {ws ws' : List ℕ}
    → ws ≡ ws'
    → Effect f bytes r ws
    → Effect f bytes r ws'
same_operands e effect = rw⁻¹ e effect

-- The store ends, and the load behind it leaves these operands.
pub record Restores (f : Frame) (next : List ℕ) (bytes : ℕ) (ws : List ℕ) : Type 0 where
  pub between : Frame
  pub stored_two : ldstore f ≡ done between
  pub two_fewer : between.top + 2 ≡ f.top
  pub loaded :
      Effect (record between { code = next }) bytes (ldload (record between { code = next })) ws

ldstore-cases :
    (f : Frame) (next : List ℕ) (index t : ℕ) (at : NamesVariable f.code index)
    (at' : NamesVariable next index)
    → t < length f.op_stack
    → length f.op_stack < 2 ^ 32
    → 2 ≤ t
    → index + 1 < length f.locals
    → Restores (with_top f t) next (bytes_of at'.opcode) (words f.op_stack t)
unfolding words
ldstore-cases f next index zero at at' h l two i = absurd (omega arith)
ldstore-cases f next index (suc zero) at at' h l two i = absurd (omega arith)
ldstore-cases f next index (suc (suc n)) at at' h l two i =
    let c = f.op_stack in
    let word1 = get_or c (suc n) 0 in
    let word2 = get_or c (suc (suc n)) 0 in
    let variables = two_stored f index word1 word2 in
    let between = record f { locals = variables; top = n; pc = plus32 f.pc (bytes_of at.opcode) } in
    let size : length variables ≡ length f.locals =
      length-set (set f.locals (index + 1) word2) index word1
      ∙ length-set f.locals (index + 1) word2 in
    let back = two_stored-words f index word1 word2 i in
    record {
      between = between;
      stored_two = ldstore-lem f n index at h l i;
      two_fewer = omega arith;
      loaded =
          same_operands (two_words back.1 back.0)
            (ldload-Effect (record between { code = next }) index at' h l (omega (arith, size)));
    }

-- With two operands on the stack and room for them in the local variables, what ldstore puts into
-- two local variables comes back by a ldload of the same variables: the operands are the same
-- again. Either instruction may have the wide prefix.
ldstore-ldload :
    (f : Frame) (next : List ℕ) (index : ℕ) (at : NamesVariable f.code index)
    (at' : NamesVariable next index)
    → IsFrame f
    → 2 ≤ f.top
    → index + 1 < length f.locals
    → Restores f next (bytes_of at'.opcode) (operands f)
unfolding operands
ldstore-ldload f next index at at' w two i =
    ldstore-cases f next index f.top at at' w.top_inside w.indexed two i

==→ne : (a b : ℕ) → (a == b) ≡ false → a ≢ b
==→ne a b h e = ground arith

-- What aload asks of a variable
abbrev pub MayLoad : Frame → ℕ → Type 0
MayLoad f index =
    (f.stack_map ≡ none) ⊎ ((es : List ℕ) × (f.stack_map ≡ some es) × (read_word es index ≡ done 1))

-- The variable stands in the stack map as something else than a reference.
abbrev pub NotReference : Frame → ℕ → Type 0
NotReference f index =
    (es : List ℕ) × (e : ℕ) × (f.stack_map ≡ some es) × (read_word es index ≡ done e) × (e ≢ 1)

-- With an instruction that names a local variable, which is in the stack map where there is one,
-- either aload does what ifload does and there is no stack map or the variable is a reference in it,
-- or the variable is something else there, and aload raises an exception with the frame as it was.
aload-ifload :
    (f : Frame) (index entry : ℕ)
    → NamesVariable f.code index
    → (f.stack_map ≡ none)
      ⊎ ((es : List ℕ) × (f.stack_map ≡ some es) × (read_word es index ≡ done entry))
    → MayLoad f index × (aload f ≡ ifload f)
      ⊎ NotReference f index × (aload f ≡ raised java_virtual_machine_error f)
unfolding aload ifload check_reference
aload-ifload f index entry at (inl e) = inl (inl e, rw (at.first, at.variable, e) refl)
aload-ifload f index entry at (inr (es, e, r)) = elim (Bool-cases (entry == 1)) [
  | inl t ↦
      let r' : read_word es index ≡ done 1 = r ∙ ap done (==→eq entry 1 t) in
      inl (inr (es, e, r'), rw (at.first, at.variable, e, r') refl)
  | inr t ↦ inr ((es, entry, e, r, ==→ne entry 1 t), rw (at.first, at.variable, e, r, t) refl)
]
