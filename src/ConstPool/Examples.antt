-- ===== src/ConstPool/Examples.antt =====
-- The reader of the constant pool on one small class file.
use jdepends.Common.{ℕ, ◌≡◌, List, [], ◌∷◌, ◌++◌, arith}
use jdepends.Common.Run.{ok}
use jdepends.ConstPool.Defs.{load_head, loaded}
use jdepends.ConstPool.Format.{
  Bytes2, Constant, utf8, long, class_ref, write_head, write_pool, write_constants, all_entries,
  dummy, AreValidConstants,
}
use jdepends.ConstPool.RoundTrip.{full, load_head-write}
use jdepends.ConstPool.Accepted.{Accepted, load_head-Accepted}

abbrev word : ℕ → ℕ → Bytes2
word a b = record { hi = a; lo = b }

-- A class named "A", and a long.
abbrev constants : List Constant
constants =
    utf8 (b'A' ∷ []) ∷ class_ref (word 0 1) ∷ long (word 0 0) (word 0 0) (word 1 2) (word 3 4) ∷ []

constants-valid : AreValidConstants constants
constants-valid = (omega arith, (tt, (tt, tt)))

load_head-write_example :
    load_head (write_head (word 0 3) (word 0 45) (write_pool constants (7 ∷ [])))
    ≡ ok (loaded (full (dummy ∷ all_entries constants), 7 ∷ []))
load_head-write_example =
    load_head-write (word 0 3) (word 0 45) constants (7 ∷ []) constants-valid (omega arith)

load_head-Accepted_example :
    Accepted 5 (
      load_head (write_head (word 0 3) (word 0 45) (0 ∷ 5 ∷ (write_constants constants ++ 7 ∷ []))))
load_head-Accepted_example =
    load_head-Accepted (word 0 3) (word 0 45) 0 5 (write_constants constants ++ 7 ∷ [])
      (omega arith)
