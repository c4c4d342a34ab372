-- ===== src/HashTable/Laws.antt =====
-- The table as a map: what is found after an addition and after a removal.
use jdepends.Common.{
  ℕ, ◌<◌, ◌≡◌, ◌≢◌, refl, ap, ◌∙◌, sym, ◌⊎◌, inl, inr, false, Option, none, some, List, [], ◌∷◌,
  arith, length, get_or, set, get_or-set, get_or-set_other, set-set, set-get_or,
}
use jdepends.HashTable.Defs.{
  Keying, Table, chain_of, set_chain, add, get, getval, unlink, remove, remove_from, remove_result,
}
use jdepends.HashTable.Chain.{IsKeying, getval-unlink, HasNoKey, getval-absent, unlink-absent}

-- Every key has its bucket in the table.
abbrev pub IsTable : {K : Type 0} → Keying K → Table K → Type 0
IsTable {K} by t = (key : K) → by.slot key < length t.buckets

chain_of-set_chain :
    {K : Type 0} (by : Keying K) (t : Table K) (key : K) (ns : List (K × ℕ))
    → IsTable by t
    → chain_of by (set_chain by t key ns) key ≡ ns
chain_of-set_chain by t key ns w = get_or-set t.buckets (by.slot key) ns [] (w key)

chain_of-set_chain_other :
    {K : Type 0} (by : Keying K) (t : Table K) (key other : K) (ns : List (K × ℕ))
    → by.slot key ≢ by.slot other
    → chain_of by (set_chain by t key ns) other ≡ chain_of by t other
chain_of-set_chain_other by t key other ns n =
    get_or-set_other t.buckets (by.slot key) (by.slot other) ns [] n

slot-cases : (a b : ℕ) → (a ≡ b) ⊎ (a ≢ b)
slot-cases a b = ground arith

-- A chain is exchanged for one in which a key is found just as before.
get-set_chain :
    {K : Type 0} (by : Keying K) (t : Table K) (key other : K) (ns : List (K × ℕ))
    → IsTable by t
    → (getval by ns other t.invalid_ret ≡ getval by (chain_of by t key) other t.invalid_ret)
    → get by (set_chain by t key ns) other ≡ get by t other
unfolding get
get-set_chain by t key other ns w h = elim (slot-cases (by.slot key) (by.slot other)) [
  | inl e ↦
      let shared : chain_of by t key ≡ chain_of by t other = ap (λ i. get_or t.buckets i []) e in
      let new : chain_of by (set_chain by t key ns) other ≡ ns =
        ap (λ i. get_or (set t.buckets (by.slot key) ns) i []) (sym e)
        ∙ chain_of-set_chain by t key ns w in
      rw new (h ∙ ap (λ c. getval by c other t.invalid_ret) shared)
  | inr n ↦ rw (chain_of-set_chain_other by t key other ns n) refl
]

-- After an addition the key is found with the new value, and every key that is not the same is
-- found as before, in a table of any hash and comparison, where a key is the same as itself.
pub get-add :
    {K : Type 0} (by : Keying K) (t : Table K) (key : K) (val : ℕ)
    → IsKeying by
    → IsTable by t
    → (get by (add by t key val) key ≡ val)
      × ((other : K) → by.same key other ≡ false → get by (add by t key val) other ≡ get by t other)
unfolding add getval get
get-add by t key val laws w =
    (found, λ other f. get-set_chain by t key other ((key, val) ∷ chain_of by t key) w (rw f refl))
  where
    found : get by (add by t key val) key ≡ val
    found =
        rw (chain_of-set_chain by t key ((key, val) ∷ chain_of by t key) w, laws.reflexive key) refl

-- A key whose bucket is another one is found as before, even where the comparison takes the two
-- keys for the same.
get-add_other_bucket :
    {K : Type 0} (by : Keying K) (t : Table K) (key other : K) (val : ℕ)
    → by.slot key ≢ by.slot other
    → get by (add by t key val) other ≡ get by t other
unfolding add get
get-add_other_bucket by t key other val n =
    rw (chain_of-set_chain_other by t key other ((key, val) ∷ chain_of by t key) n) refl

-- A removal takes back the last addition of its key: it returns 1, runs the added value down, and
-- leaves the table as it was.
remove-add :
    {K : Type 0} (by : Keying K) (t : Table K) (key : K) (val : ℕ)
    → IsKeying by
    → IsTable by t
    → remove by (add by t key val) key ≡ (1, some val, t)
unfolding remove add unlink
remove-add by t key val laws w =
    rw
      (
        chain_of-set_chain by t key ((key, val) ∷ chain_of by t key) w,
        laws.reflexive key,
        set-set t.buckets (by.slot key),
        set-get_or t.buckets (by.slot key) [],
      )
      refl

get-remove_result :
    {K : Type 0} (by : Keying K) (t : Table K) (key other : K) (r : Option ℕ × List (K × ℕ))
    → IsTable by t
    → getval by r.1 other t.invalid_ret ≡ getval by (chain_of by t key) other t.invalid_ret
    → get by (remove_result by t key r).2 other ≡ get by t other
get-remove_result by t key other (none, ns) w h = refl
get-remove_result by t key other (some val, ns) w h = get-set_chain by t key other ns w h

get-remove_from :
    {K : Type 0} (by : Keying K) (t : Table K) (key other : K) (ns : List (K × ℕ))
    → IsKeying by
    → IsTable by t
    → by.same key other ≡ false
    → ns ≡ chain_of by t key
    → get by (remove_from by t key ns).2 other ≡ get by t other
get-remove_from by t key other [] laws w f e = refl
get-remove_from by t key other (n ∷ ns) laws w f e =
    get-remove_result by t key other (unlink by (n ∷ ns) key) w (
      getval-unlink by laws (n ∷ ns) key other t.invalid_ret f
      ∙ ap (λ c. getval by c other t.invalid_ret) e)

remove_from-absent :
    {K : Type 0} (by : Keying K) (t : Table K) (key : K) (ns : List (K × ℕ))
    → HasNoKey by ns key
    → remove_from by t key ns ≡ ((elim ns [ [] ↦ t.invalid_ret | m ∷ ms ↦ 0 ]), none, t)
remove_from-absent by t key [] h = refl
remove_from-absent by t key (n ∷ ns) h =
    ap (remove_result by t key) (unlink-absent by (n ∷ ns) key h)

-- Every key that is not the same is found as before a removal, whatever the removal found.
get-remove :
    {K : Type 0} (by : Keying K) (t : Table K) (key other : K)
    → IsKeying by
    → IsTable by t
    → by.same key other ≡ false
    → get by (remove by t key).2 other ≡ get by t other
unfolding remove
get-remove by t key other laws w f =
    get-remove_from by t key other (chain_of by t key) laws w f refl

-- Where no node of its bucket has the key, a search gives the invalid value, and a removal changes
-- nothing, runs nothing down, and returns 0; but for an empty bucket it returns the invalid value.
remove-absent :
    {K : Type 0} (by : Keying K) (t : Table K) (key : K)
    → HasNoKey by (chain_of by t key) key
    → (get by t key ≡ t.invalid_ret)
      × (remove by t key
          ≡ ((elim (chain_of by t key) [ [] ↦ t.invalid_ret | n ∷ ns ↦ 0 ]), none, t))
unfolding remove get
remove-absent by t key h = (
  getval-absent by (chain_of by t key) key t.invalid_ret h,
  remove_from-absent by t key (chain_of by t key) h,
)
