-- ===== src/Stream/Writes.antt =====
-- What is written stands in the stream, and there is always room behind it.
use jdepends.Common.{
  ℕ, zero, suc, ◌+◌, ◌-◌, ◌%◌, ◌≤◌, ◌<◌, ◌≡◌, refl, ap, ◌∙◌, inl, inr, true, Bool-cases, Option,
  none, some, List, [], ◌∷◌, ◌++◌, map, ltb, leb, length, length-append, length-set, take, drop,
  set, replicate, arith,
}
use jdepends.Common.Run.{ok}
use jdepends.Stream.Defs.{cache_size, Cells, ByteStream, copy_in, expand, write, get_buffer}

-- The buffer is as long as is said, and holds two bytes more than what was written.
pub record IsStream (s : ByteStream) : Type 0 where
  pub allocated : length s.buffer ≡ s.alloc_size
  pub room : s.cur_size + 2 < s.alloc_size

-- What was written
abbrev pub contents : ByteStream → Cells
contents s = take s.cur_size s.buffer

module _ {A : Type 0} where
  pub length-take : (n : ℕ) (xs : List A) → n ≤ length xs → length (take n xs) ≡ n
  length-take zero xs h = refl
  length-take (suc n) [] h = absurd (omega arith)
  length-take (suc n) (x ∷ xs) h = ap suc (length-take n xs (omega arith))

  pub length-drop : (n : ℕ) (xs : List A) → length (drop n xs) ≡ length xs - n
  length-drop zero xs = omega arith
  length-drop (suc n) [] = omega arith
  length-drop (suc n) (x ∷ xs) = omega (arith, length-drop n xs)

  length-replicate : (n : ℕ) (x : A) → length (replicate n x) ≡ n
  length-replicate zero x = refl
  length-replicate (suc n) x = ap suc (length-replicate n x)

  length-map : {B : Type 0} (f : B → A) (xs : List B) → length (map f xs) ≡ length xs
  length-map f [] = refl
  length-map f (x ∷ xs) = ap suc (length-map f xs)

  take-append : (n : ℕ) (xs ys : List A) → n ≤ length xs → take n (xs ++ ys) ≡ take n xs
  take-append zero xs ys h = refl
  take-append (suc n) [] ys h = absurd (omega arith)
  take-append (suc n) (x ∷ xs) ys h = ap (◌∷◌ x) (take-append n xs ys (omega arith))

  take-exact : (n : ℕ) (xs ys : List A) → length xs ≡ n → take n (xs ++ ys) ≡ xs
  take-exact zero [] ys h = refl
  take-exact zero (x ∷ xs) ys h = absurd (omega arith)
  take-exact (suc n) [] ys h = absurd (omega arith)
  take-exact (suc n) (x ∷ xs) ys h = ap (◌∷◌ x) (take-exact n xs ys (omega arith))

  take-set :
      (xs : List A) (n : ℕ) (v : A)
      → n < length xs
      → take (suc n) (set xs n v) ≡ take n xs ++ v ∷ []
  take-set [] n v h = absurd (omega arith)
  take-set (x ∷ xs) zero v h = refl
  take-set (x ∷ xs) (suc n) v h = ap (◌∷◌ x) (take-set xs n v (omega arith))

-- Making room keeps the contents, and leaves room for the bytes and two more.
record HasRoom (s s' : ByteStream) (len : ℕ) : Type 0 where
  allocated : length s'.buffer ≡ s'.alloc_size
  room : s.cur_size + len + 2 < s'.alloc_size
  same : take s.cur_size s'.buffer ≡ contents s
  same_read : s'.read_size ≡ s.read_size

expand-HasRoom : (s : ByteStream) (len : ℕ) → IsStream s → HasRoom s (expand s len) len
unfolding expand
expand-HasRoom s len w = elim (Bool-cases (leb s.alloc_size (s.cur_size + len + 2))) [
  | inl e ↦
      let more = len - len % cache_size + cache_size in
      rw e (record {
        allocated = omega (
          arith,
          w.allocated,
          length-append s.buffer (replicate more none),
          length-replicate {A = Option ℕ} more none,
        );
        room = omega (arith, w.room);
        same =
            take-append s.cur_size s.buffer (replicate more none)
              (omega (arith, w.allocated, w.room));
        same_read = refl;
      })
  | inr e ↦
      rw e (record { allocated = w.allocated; room = ground arith; same = refl; same_read = refl })
]

copy_in-fits :
    (cells : Cells) (at : ℕ) (bytes : List ℕ)
    → at + length bytes ≤ length cells
    → copy_in cells at bytes
      ≡ ok (take at cells ++ map some bytes ++ drop (at + length bytes) cells)
unfolding copy_in
copy_in-fits cells at bytes h =
    let fits : leb (at + length bytes) (length cells) ≡ true = ground arith in rw fits refl

-- A write to a well-formed stream succeeds: the bytes stand behind what was written before, what
-- was read stays read, and the stream is well-formed again.
pub write-contents :
    (s : ByteStream) (bytes : List ℕ)
    → IsStream s
    → (s' : ByteStream) × (write s bytes ≡ ok s')
      × IsStream s'
      × (contents s' ≡ contents s ++ map some bytes)
      × (s'.read_size ≡ s.read_size)
unfolding write
write-contents s bytes w =
    let n = length bytes in
    let c = s.cur_size in
    let t = expand s n in
    let e = expand-HasRoom s n w in
    let front = take c t.buffer ++ map some bytes in
    let rest = drop (c + n) t.buffer in
    let cells = front ++ rest in
    let fits : c + n ≤ length t.buffer = omega (arith, e.allocated, e.room) in
    let size_front : length front ≡ c + n = omega (
      arith,
      length-append (take c t.buffer) (map some bytes),
      length-take c t.buffer (omega arith),
      length-map some bytes,
    ) in
    let size : length cells ≡ t.alloc_size =
      omega
        (arith, length-append front rest, size_front, length-drop (c + n) t.buffer, e.allocated) in
    (
      record t { buffer = cells; cur_size = c + n },
      rw (copy_in-fits t.buffer c bytes fits) refl,
      record { allocated = size; room = e.room },
      take-exact (c + n) front rest size_front ∙ ap (λ xs. xs ++ map some bytes) e.same,
      e.same_read,
    )

-- stream_get_buffer succeeds on a well-formed stream: what was written, and a NUL behind it.
get_buffer-contents :
    (s : ByteStream)
    → IsStream s
    → (s' : ByteStream) × (get_buffer s ≡ ok s')
      × IsStream s'
      × (take (suc s.cur_size) s'.buffer ≡ contents s ++ some 0 ∷ [])
unfolding get_buffer
get_buffer-contents s w =
    let inside : s.cur_size < length s.buffer = omega (arith, w.allocated, w.room) in
    let test : ltb s.cur_size (length s.buffer) ≡ true = ground arith in
    (
      record s { buffer = set s.buffer s.cur_size (some 0) },
      rw test refl,
      record { allocated = length-set s.buffer s.cur_size (some 0) ∙ w.allocated; room = w.room },
      take-set s.buffer s.cur_size (some 0) inside,
    )
