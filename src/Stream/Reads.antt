-- ===== src/Stream/Reads.antt =====
-- What a read gives: within what was written, and beyond it.
use jdepends.Common.{
  ℕ, zero, suc, ◌+◌, ◌-◌, ◌^◌, ◌≤◌, ◌<◌, ◌≡◌, refl, ap, inl, inr, Bool-cases, true, false, none,
  List, [], ◌∷◌, ◌++◌, ltb, leb, length, take, drop, get_or, arith,
}
use jdepends.Common.Run.{ok}
use jdepends.Stream.Defs.{Cells, ByteStream, last_wanted, adjusted, copy_out, read}
use jdepends.Stream.Writes.{IsStream, contents}

module _ {A : Type 0} where
  take-take : (xs : List A) (n c : ℕ) → n ≤ c → take n (take c xs) ≡ take n xs
  take-take xs zero c h = refl
  take-take xs (suc n) zero h = absurd (omega arith)
  take-take [] (suc n) (suc c) h = refl
  take-take (x ∷ xs) (suc n) (suc c) h = ap (◌∷◌ x) (take-take xs n c (omega arith))

  take-drop-take :
      (xs : List A) (i n c : ℕ) → i + n ≤ c → take n (drop i (take c xs)) ≡ take n (drop i xs)
  take-drop-take xs zero n c h = take-take xs n c (omega arith)
  take-drop-take xs (suc i) n zero h = absurd (omega arith)
  take-drop-take [] (suc i) n (suc c) h = refl
  take-drop-take (x ∷ xs) (suc i) n (suc c) h = take-drop-take xs i n c (omega arith)

  past_end_start :
      (xs : List A) (c : ℕ) (d : A)
      → c < length xs
      → take (suc c) xs ≡ take c xs ++ get_or xs c d ∷ []
  past_end_start [] c d l = absurd (omega arith)
  past_end_start (x ∷ xs) zero d l = refl
  past_end_start (x ∷ xs) (suc c) d l = ap (◌∷◌ x) (past_end_start xs c d (omega arith))

  past_end :
      (xs : List A) (i c : ℕ) (d : A)
      → i ≤ c
      → c < length xs
      → take (suc (c - i)) (drop i xs) ≡ drop i (take c xs) ++ get_or xs c d ∷ []
  past_end xs zero c d h l =
      let whole : c - 0 ≡ c = omega arith in rw whole (past_end_start xs c d l)
  past_end [] (suc i) c d h l = absurd (omega arith)
  past_end (x ∷ xs) (suc i) zero d h l = absurd (omega arith)
  past_end (x ∷ xs) (suc i) (suc c) d h l =
      let fewer : suc c - suc i ≡ c - i = omega arith in
      rw fewer (past_end xs i c d (omega arith) (omega arith))

copy_out-fits :
    (cells : Cells) (at len room : ℕ)
    → at + len ≤ length cells
    → len ≤ room
    → copy_out cells at len room ≡ ok (take len (drop at cells))
unfolding copy_out
copy_out-fits cells at len room h r =
    let inside : leb (at + len) (length cells) ≡ true = ground arith in
    let fits : leb len room ≡ true = ground arith in rw (inside, fits) refl

module _ (s : ByteStream) (len : ℕ) (w : IsStream s) (left : s.read_size < s.cur_size) where
  more_left : leb s.cur_size s.read_size ≡ false
  more_left = ground arith

  -- A read of no more bytes than are left, and of one at least, gives the next ones that were
  -- written, and counts them as read.
  pub read-contents :
      0 < len
      → s.read_size + len ≤ s.cur_size
      → s.cur_size < 2 ^ 32
      → read s len
        ≡ ok (take len (drop s.read_size (contents s)), record s { read_size = s.read_size + len })
  unfolding read adjusted
  read-contents p h b =
      let kept : ltb s.cur_size (last_wanted s.read_size len) ≡ false = ground arith in
      rw
        (
          more_left,
          kept,
          copy_out-fits s.buffer s.read_size len len (omega (arith, w.allocated, w.room))
              (omega arith),
          take-drop-take s.buffer s.read_size len s.cur_size h,
        )
        refl

  adjusted-past_end :
      s.cur_size < s.read_size + len
      → s.read_size + len < 2 ^ 32
      → adjusted s len ≡ suc (s.cur_size - s.read_size)
  unfolding adjusted
  adjusted-past_end h b = elim (Bool-cases (ltb s.cur_size (last_wanted s.read_size len))) [
    | inl e ↦ rw e (omega arith)
    | inr e ↦ rw e (ground arith)
  ]

  -- A read of more bytes than are left gives all that are left, and one cell behind them that was
  -- not written to the stream, which is counted as read too.
  read-past_end :
      s.cur_size < s.read_size + len
      → s.read_size + len < 2 ^ 32
      → read s len
        ≡ ok (
          drop s.read_size (contents s) ++ get_or s.buffer s.cur_size none ∷ [],
          record s { read_size = s.cur_size + 1 },
        )
  unfolding read
  read-past_end h b =
      let total : s.read_size + suc (s.cur_size - s.read_size) ≡ s.cur_size + 1 = omega arith in
      rw
        (
          more_left,
          adjusted-past_end h b,
          copy_out-fits s.buffer s.read_size (suc (s.cur_size - s.read_size)) len
              (omega (arith, w.allocated, w.room)) (omega arith),
          past_end s.buffer s.read_size s.cur_size none (omega arith)
              (omega (arith, w.allocated, w.room)),
          total,
        )
        refl
