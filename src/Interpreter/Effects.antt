-- ===== src/Interpreter/Effects.antt =====
-- What the handlers that only work on the operand stack do to the operands.
use jdepends.Common.{
  ℕ, suc, ◌+◌, ◌^◌, ◌≤◌, ◌<◌, ◌≡◌, refl, ap, ◌∙◌, List, [], ◌∷◌, length, length-set, set, arith,
}
use jdepends.Interpreter.Machine.{
  Frame, Step, done, ◌>>=◌, plus32, minus32, write_word, write_word-lt, words, words-set, operands,
  IsFrame,
}
use jdepends.Interpreter.Stack.{continue}

pub plus32_is : (a b c : ℕ) → a + b ≡ c → c < 2 ^ 32 → plus32 a b ≡ c
plus32_is a b c e h = omega arith

pub minus32_is : (a b c : ℕ) → c + b ≡ a → a < 2 ^ 32 → minus32 a b ≡ c
minus32_is a b c e h = omega arith

-- Assignments to the elements above `n`, one after the other, and what follows them
abbrev pub writes_then : List ℕ → ℕ → List ℕ → (List ℕ → Step Frame) → Step Frame
writes_then cells n [] rest = rest cells
writes_then cells n (w ∷ ws) rest =
    write_word cells (suc n) w >>= λ c. writes_then c (suc n) ws rest

abbrev pub above : ℕ → List ℕ → ℕ
above n [] = n
above n (w ∷ ws) = above (suc n) ws

abbrev pub pushed : List ℕ → List ℕ → List ℕ
pushed [] stack = stack
pushed (w ∷ ws) stack = pushed ws (w ∷ stack)

record Written (cells : List ℕ) (n : ℕ) (ws : List ℕ) (rest : List ℕ → Step Frame) : Type 0 where
  cells' : List ℕ
  result : writes_then cells n ws rest ≡ rest cells'
  stack : words cells' (above n ws) ≡ pushed ws (words cells n)
  same_length : length cells' ≡ length cells

above-le : (n : ℕ) (ws : List ℕ) → n ≤ above n ws
above-le n [] = omega arith
above-le n (w ∷ ws) = omega (arith, above-le (suc n) ws)

writes_then-Written :
    (cells : List ℕ) (n : ℕ) (ws : List ℕ) (rest : List ℕ → Step Frame)
    → above n ws < length cells
    → Written cells n ws rest
writes_then-Written cells n [] rest h = record {
  cells' = cells;
  result = refl;
  stack = refl;
  same_length = refl;
}
writes_then-Written cells n (w ∷ ws) rest h =
    let room : suc n < length cells = omega (arith, above-le (suc n) ws, h) in
    let c = set cells (suc n) w in
    let ih = writes_then-Written c (suc n) ws rest (omega (arith, length-set cells (suc n) w)) in
    record {
      cells' = ih.cells';
      result = rw (write_word-lt cells (suc n) w room) ih.result;
      stack = ih.stack ∙ ap (pushed ws) (words-set cells n w room);
      same_length = ih.same_length ∙ length-set cells (suc n) w;
    }

-- A handler comes to an end, with these operands and `bytes` further in the code; of the frame
-- nothing else changes.
pub record Effect (f : Frame) (bytes : ℕ) (r : Step Frame) (ws : List ℕ) : Type 0 where
  pub after : Frame
  pub result : r ≡ done after
  pub stack : operands after ≡ ws
  pub frame : IsFrame after
  pub next : after.pc ≡ plus32 f.pc bytes
  pub same : record f { op_stack = after.op_stack; top = after.top; pc = after.pc } ≡ after

pub writes_then-Effect :
    (f : Frame) (bytes n : ℕ) (ws : List ℕ)
    → above n ws < length f.op_stack
    → length f.op_stack < 2 ^ 32
    → Effect f bytes
        (writes_then f.op_stack n ws λ cells. done (continue f cells (above n ws) bytes))
        (pushed ws (words f.op_stack n))
unfolding continue operands
writes_then-Effect f bytes n ws h l =
    let w =
      writes_then-Written f.op_stack n ws (λ cells. done (continue f cells (above n ws) bytes)) h in
    record {
      after = record f { op_stack = w.cells'; top = above n ws; pc = plus32 f.pc bytes };
      result = w.result;
      stack = w.stack;
      frame = record {
        top_inside = omega (arith, w.same_length);
        indexed = omega (arith, w.same_length);
      };
      next = refl;
      same = refl;
    }

abbrev pub with_top : Frame → ℕ → Frame
with_top f n = record f { top = n }
