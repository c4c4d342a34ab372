-- ===== src/Interpreter/Memory.antt =====
-- Numbers of several bytes in the memory of an array, low byte first as on the machine that Jvmrt.c
-- is for.
use jdepends.Common.{
  ℕ, zero, suc, ◌+◌, ◌*◌, ◌/◌, ◌%◌, ◌^◌, ◌≤◌, ◌<◌, ◌≡◌, refl, ◌∙◌, List, length, get_or, get_or-set,
  get_or-set_other, set, length-set, arith,
}
use jdepends.Interpreter.Machine.{
  Step, done, ◌>>=◌, read_word, read_word-lt, write_word, write_word-lt,
}

-- A number of so many bytes from a place on
unfoldable pub read_bytes : ℕ → List ℕ → ℕ → Step ℕ
read_bytes zero memory at = done 0
read_bytes (suc w) memory at = do
  low ← read_word memory at
  high ← read_bytes w memory (at + 1)
  done (low + 256 * high)

unfoldable pub write_bytes : ℕ → List ℕ → ℕ → ℕ → Step (List ℕ)
write_bytes zero memory at v = done memory
write_bytes (suc w) memory at v = do
  memory' ← write_word memory at (v % 256)
  write_bytes w memory' (at + 1) (v / 256)

-- The number that the bytes from a place on stand for
abbrev pub bytes_at : ℕ → List ℕ → ℕ → ℕ
bytes_at zero memory at = 0
bytes_at (suc w) memory at = get_or memory at 0 + 256 * bytes_at w memory (at + 1)

abbrev pub set_bytes : ℕ → List ℕ → ℕ → ℕ → List ℕ
set_bytes zero memory at v = memory
set_bytes (suc w) memory at v = set_bytes w (set memory at (v % 256)) (at + 1) (v / 256)

pub read_bytes-le :
    (w : ℕ) (memory : List ℕ) (at : ℕ)
    → at + w ≤ length memory
    → read_bytes w memory at ≡ done (bytes_at w memory at)
unfolding read_bytes
read_bytes-le zero memory at h = refl
read_bytes-le (suc w) memory at h =
    rw (read_word-lt memory at 0 (omega arith), read_bytes-le w memory (at + 1) (omega arith)) refl

pub length-set_bytes :
    (w : ℕ) (memory : List ℕ) (at v : ℕ) → length (set_bytes w memory at v) ≡ length memory
length-set_bytes zero memory at v = refl
length-set_bytes (suc w) memory at v =
    length-set_bytes w (set memory at (v % 256)) (at + 1) (v / 256) ∙ length-set memory at (v % 256)

pub write_bytes-le :
    (w : ℕ) (memory : List ℕ) (at v : ℕ)
    → at + w ≤ length memory
    → write_bytes w memory at v ≡ done (set_bytes w memory at v)
unfolding write_bytes
write_bytes-le zero memory at v h = refl
write_bytes-le (suc w) memory at v h = rw (write_word-lt memory at (v % 256) (omega arith)) (
    write_bytes-le w (set memory at (v % 256)) (at + 1) (v / 256)
      (omega (arith, length-set memory at (v % 256))))

set_bytes-below :
    (w : ℕ) (memory : List ℕ) (at v i : ℕ)
    → i < at
    → get_or (set_bytes w memory at v) i 0 ≡ get_or memory i 0
set_bytes-below zero memory at v i h = refl
set_bytes-below (suc w) memory at v i h =
    set_bytes-below w (set memory at (v % 256)) (at + 1) (v / 256) i (omega arith)
    ∙ get_or-set_other memory at i (v % 256) 0 (λ e. omega (arith, e))

-- What is left of a number in so many bytes
abbrev kept : ℕ → ℕ → ℕ
kept zero v = 0
kept (suc w) v = v % 256 + 256 * kept w (v / 256)

bytes_at-set_bytes :
    (w : ℕ) (memory : List ℕ) (at v : ℕ)
    → at + w ≤ length memory
    → bytes_at w (set_bytes w memory at v) at ≡ kept w v
bytes_at-set_bytes zero memory at v h = refl
bytes_at-set_bytes (suc w) memory at v h =
    let memory' = set memory at (v % 256) in
    rw
      (
        set_bytes-below w memory' (at + 1) (v / 256) at (omega arith),
        get_or-set memory at (v % 256) 0 (omega arith),
        bytes_at-set_bytes w memory' (at + 1) (v / 256)
            (omega (arith, length-set memory at (v % 256))),
      )
      refl

pub bytes_at-set_word :
    (memory : List ℕ) (at v : ℕ)
    → at + 4 ≤ length memory
    → bytes_at 4 (set_bytes 4 memory at v) at ≡ v % 2 ^ 32
bytes_at-set_word memory at v h = bytes_at-set_bytes 4 memory at v h ∙ omega arith
