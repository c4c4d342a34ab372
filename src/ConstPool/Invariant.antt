-- ===== src/ConstPool/Invariant.antt =====
-- What holds of every pool that the loader accepts, whatever the bytes were.
use jdepends.Common.{
  ℕ, zero, suc, ◌+◌, ◌*◌, ◌^◌, ◌≤◌, ◌<◌, ◌≡◌, refl, ap, not, ◌&&◌, ◌⊎◌, inl, inr, Bool, true, ◌||◌,
  List, [], ◌∷◌, ◌++◌, Bool-cases, arith, ltb, ◌==◌, if◌then◌else◌, length, length-append, take,
}
use jdepends.Common.Run.{Run, ok, fault, out_of_fuel, ◌>>=◌, Ends}
use jdepends.ConstPool.Defs.{
  Stream, Entry, Pool, tag_invalid, load_word, copy_bytes, add_entry, add_dummy, Read,
  add_new_cp_type, const_utf8, const_wide, read_entry, tag_utf8,
}

-- How many bytes the format gives a tag; a text has as many as its length says.
abbrev pub body_length : ℕ → ℕ → ℕ
body_length tag n =
    if tag == 1
    then n
    else if (tag == 5) || (tag == 6)
    then 8
    else if (tag == 7) || (tag == 8)
    then 2
    else 4

abbrev pub is_tag : ℕ → Bool
is_tag tag = ltb tag 13 && ltb 0 tag && not (tag == 2)

-- An empty entry, or a tag of the format with the bytes that belong to it.
abbrev pub IsEntry : Entry → Type 0
IsEntry e =
    ((e.tag ≡ tag_invalid) × (e.len ≡ 0) × (e.info ≡ []))
    ⊎ ((is_tag e.tag ≡ true) × (length e.info ≡ e.len) × (e.len ≡ body_length e.tag e.len))

abbrev pub AreEntries : List Entry → Type 0
AreEntries [] = Unit {0}
AreEntries (e ∷ es) = IsEntry e × AreEntries es

pub record IsPool (p : Pool) : Type 0 where
  pub counted : length p.entries ≡ p.size
  pub entries : AreEntries p.entries

take-all : {A : Type 0} (n : ℕ) (xs : List A) → length xs ≡ n → take n xs ≡ xs
take-all zero [] e = refl
take-all zero (x ∷ xs) e = absurd (omega arith)
take-all (suc n) [] e = refl
take-all (suc n) (x ∷ xs) e = ap (◌∷◌ x) (take-all n xs (omega arith))

AreEntries-append :
    (xs : List Entry) (e : Entry) → AreEntries xs → IsEntry e → AreEntries (xs ++ e ∷ [])
AreEntries-append [] e h i = (i, tt)
AreEntries-append (x ∷ xs) e h i = (h.0, AreEntries-append xs e h.1 i)

-- The pool `q` is valid and holds `n` entries more than `p`.
pub record Grown (p q : Pool) (n : ℕ) : Type 0 where
  pub valid : IsPool q
  pub size : q.size ≡ p.size + n

pub add_entry-Grown :
    (p : Pool) (e : Entry) → IsPool p → IsEntry e → p.size + 1 < 2 ^ 16 → Grown p (add_entry p e) 1
unfolding add_entry
add_entry-Grown p e v i h = rw (take-all p.size p.entries v.counted) (record {
  valid = record {
    counted = omega (arith, v.counted, length-append p.entries (e ∷ []));
    entries = AreEntries-append p.entries e v.entries i;
  };
  size = omega arith;
})

-- A read that succeeds has grown the pool by at most two entries, and left no more than `n` bytes.
abbrev pub Reads : Pool → ℕ → Run Read → Type 0
Reads p n (ok r) = (m : ℕ) × (Grown p r.0 m) × (0 < m) × (m ≤ 2) × (length r.1 ≤ n)
Reads p n fault = Unit {0}
Reads p n out_of_fuel = ⊥

abbrev Copied : ℕ → ℕ → Run (List ℕ × Stream) → Type 0
Copied n l (ok r) = (length r.0 ≡ n) × (length r.1 ≤ l)
Copied n l fault = Unit {0}
Copied n l out_of_fuel = ⊥

copy_bytes-Copied : (n : ℕ) (s : Stream) → Copied n (length s) (copy_bytes n s)
unfolding copy_bytes
copy_bytes-Copied zero s = omega arith
copy_bytes-Copied (suc n) [] = tt
copy_bytes-Copied (suc n) (b ∷ s) = more (copy_bytes n s) (copy_bytes-Copied n s)
  where
    more :
        (r : Run (List ℕ × Stream))
        → Copied n (length s) r
        → Copied (suc n) (suc (length s)) (r >>= λ p. ok (b ∷ p.0, p.1))
    more (ok r) h = omega (arith, h.0, h.1)
    more fault h = tt
    more out_of_fuel h = h

-- The entry that a copy of `n` bytes makes.
abbrev copied_entry : Pool → ℕ → ℕ → Run (List ℕ × Stream) → Run Read
copied_entry p tag n r =
    r >>= λ c. ok (add_entry p (record { tag = tag; len = n; info = c.0 }), c.1)

copied_entry-Reads :
    (p : Pool) (tag n l : ℕ) (r : Run (List ℕ × Stream))
    → IsPool p
    → p.size + 1 < 2 ^ 16
    → is_tag tag ≡ true
    → n ≡ body_length tag n
    → Copied n l r
    → Reads p l (copied_entry p tag n r)
copied_entry-Reads p tag n l (ok c) v h t b e =
    (1, add_entry-Grown p _ v (inr (t, e.0, b)) h, omega arith, omega arith, e.1)
copied_entry-Reads p tag n l fault v h t b e = tt
copied_entry-Reads p tag n l out_of_fuel v h t b e = e

Reads-mono : (p : Pool) (n m : ℕ) (r : Run Read) → n ≤ m → Reads p n r → Reads p m r
Reads-mono p n m (ok r) l (i, g, a, b, c) = (i, g, a, b, omega arith)
Reads-mono p n m fault l h = tt
Reads-mono p n m out_of_fuel l h = h

dummy-Reads :
    (p : Pool) (n : ℕ) (r : Run Read)
    → p.size + 2 < 2 ^ 16
    → ((q : Pool) (s : Stream) → r ≡ ok (q, s) → Grown p q 1 × (length s ≤ n))
    → Ends r
    → Reads p n (r >>= λ c. ok (add_dummy c.0, c.1))
unfolding add_dummy
dummy-Reads p n (ok (q, s)) h g e =
    let (grown, short) = g q s refl in
    let more =
      add_entry-Grown q (record { tag = tag_invalid; len = 0; info = [] }) grown.valid
        (inl (refl, refl, refl)) (omega (arith, grown.size)) in
    (
      2,
      record { valid = more.valid; size = omega (arith, more.size, grown.size) },
      omega arith,
      omega arith,
      short,
    )
dummy-Reads p n fault h g e = tt
dummy-Reads p n out_of_fuel h g e = e

module _ (p : Pool) (v : IsPool p) (h : p.size + 2 < 2 ^ 16) where
  add_new_cp_type-Reads :
      (tag n : ℕ) (s : Stream)
      → is_tag tag ≡ true
      → n ≡ body_length tag n
      → Reads p (length s) (add_new_cp_type tag n s p)
  unfolding add_new_cp_type
  add_new_cp_type-Reads tag n s t b =
      copied_entry-Reads p tag n (length s) _ v (omega arith) t b (copy_bytes-Copied n s)

  const_utf8-Reads : (s : Stream) → Reads p (length s) (const_utf8 s p)
  unfolding const_utf8 load_word
  const_utf8-Reads [] = tt
  const_utf8-Reads (a ∷ []) = tt
  const_utf8-Reads (a ∷ b ∷ s) =
      let n = a * 256 + b in
      Reads-mono p (length s) (suc (suc (length s))) _ (omega arith) (
        copied_entry-Reads p tag_utf8 n (length s) _ v (omega arith) refl refl
          (copy_bytes-Copied n s))

  wide-Reads :
      (tag : ℕ) (s : Stream) (r : Run (List ℕ × Stream))
      → is_tag tag ≡ true
      → 8 ≡ body_length tag 8
      → Copied 8 (length s) r
      → Reads p (length s) (copied_entry p tag 8 r >>= λ c. ok (add_dummy c.0, c.1))
  wide-Reads tag s (ok c) t b e =
      dummy-Reads p (length s) (copied_entry p tag 8 (ok c)) h
        (λ q s' eq.
          rw (← ap pool_of eq, ← ap rest_of eq)
            (add_entry-Grown p _ v (inr (t, e.0, b)) (omega arith), e.1))
        tt
    where
      pool_of : Run Read → Pool
      pool_of (ok r) = r.0
      pool_of _ = p

      rest_of : Run Read → Stream
      rest_of (ok r) = r.1
      rest_of _ = s
  wide-Reads tag s fault t b e = tt
  wide-Reads tag s out_of_fuel t b e = e

  const_wide-Reads :
      (tag : ℕ) (s : Stream)
      → is_tag tag ≡ true
      → 8 ≡ body_length tag 8
      → Reads p (length s) (const_wide tag s p)
  unfolding const_wide add_new_cp_type
  const_wide-Reads tag s t b = wide-Reads tag s (copy_bytes 8 s) t b (copy_bytes-Copied 8 s)

  pub read_entry-Reads : (tag : ℕ) (s : Stream) → Reads p (length s) (read_entry tag s p)
  unfolding read_entry
  read_entry-Reads tag s = elim (Bool-cases (tag == 1)) [
    | inl e ↦ rw e (const_utf8-Reads s)
    | inr e ↦ rw e (elim (Bool-cases ((tag == 3) || (tag == 4))) [
      | inl f ↦ rw f (add_new_cp_type-Reads tag 4 s (ground arith) (ground arith))
      | inr f ↦ rw f (elim (Bool-cases ((tag == 5) || (tag == 6))) [
        | inl g ↦ rw g (const_wide-Reads tag s (ground arith) (ground arith))
        | inr g ↦ rw g (elim (Bool-cases ((tag == 7) || (tag == 8))) [
          | inl i ↦ rw i (add_new_cp_type-Reads tag 2 s (ground arith) (ground arith))
          | inr i ↦
              rw i (elim (Bool-cases ((tag == 9) || (tag == 10) || (tag == 11) || (tag == 12))) [
                | inl j ↦ rw j (add_new_cp_type-Reads tag 4 s (ground arith) (ground arith))
                | inr j ↦ rw j tt
              ])
        ])
      ])
    ])
  ]
