-- ===== src/HashTable/Defs.antt =====
-- The bucket table of Hashtabl.c. A bucket is the list of its nodes from the head on, which the
-- `prev` links only mirror; a key that is a string is its bytes in front of the NUL, and never a
-- null pointer. stricmp, of the C library, is a parameter. Memory is never short.
use jdepends.Common.{
  ℕ, ◌+◌, ◌-◌, ◌*◌, ◌/◌, ◌%◌, ◌^◌, bit_and, bit_xor, Bool, Option, none, some, List, [], ◌∷◌, ◌++◌,
  map, ltb, ◌==◌, if◌then◌else◌, get_or, set, replicate,
}

abbrev pub bucket_size : ℕ
bucket_size = 211

-- A `char` as an unsigned 32-bit summand: it is signed.
abbrev pub char_summand : ℕ → ℕ
char_summand c = if ltb c 128 then c else 2 ^ 32 - 256 + c

-- One round of `hash`
unfoldable pub hash_step : ℕ → ℕ → ℕ
hash_step hash_val c =
    let sum = (hash_val * 16 % 2 ^ 32 + char_summand c) % 2 ^ 32 in
    let u = bit_and sum 0xf0000000 in if u == 0 then sum else bit_xor (bit_xor sum (u / 2 ^ 24)) u

unfoldable pub hash_loop : ℕ → List ℕ → ℕ
hash_loop hash_val [] = hash_val
hash_loop hash_val (c ∷ s) = if c == 0 then hash_val else hash_loop (hash_step hash_val c) s

-- hash( str, strlen( str ))
unfoldable pub hash : List ℕ → ℕ
hash s = hash_loop 0 s % bucket_size

-- What is_dict decides: the bucket of a key, and when the key of a node is the one looked for.
pub record Keying (K : Type 0) : Type 0 where
  pub slot : K → ℕ
  pub same : K → K → Bool

-- A dictionary keeps all nodes in the first bucket.
abbrev pub dict_keying : Keying ℕ
dict_keying = record { slot = λ key. 0; same = λ node_key key. node_key == key }

-- `stricmp( a, b ) == 0` is the test.
abbrev pub string_keying : (List ℕ → List ℕ → Bool) → Keying (List ℕ)
string_keying stricmp = record { slot = hash; same = stricmp }

-- hash_table_t: aHashValueArray with the values' bits, and invalid_ret
pub record Table (K : Type 0) : Type 0 where
  pub buckets : List (List (K × ℕ))
  pub invalid_ret : ℕ

-- hash_table_create, and dict_create with an invalid value
abbrev pub create : {K : Type 0} → ℕ → Table K
create invalid = record { buckets = replicate bucket_size []; invalid_ret = invalid }

-- dict_getval and hash_table_getval
unfoldable pub getval : {K : Type 0} → Keying K → List (K × ℕ) → K → ℕ → ℕ
getval by [] key invalid = invalid
getval by (n ∷ ns) key invalid = if by.same n.0 key then n.1 else getval by ns key invalid

-- The loop of hash_table_remove_ex: the value of the node that is unlinked, and what is left.
unfoldable pub unlink : {K : Type 0} → Keying K → List (K × ℕ) → K → Option ℕ × List (K × ℕ)
unlink by [] key = (none, [])
unlink by (n ∷ ns) key =
    let rest = unlink by ns key in if by.same n.0 key then (some n.1, ns) else (rest.0, n ∷ rest.1)

-- The chain that a key belongs to.
abbrev pub chain_of : {K : Type 0} → Keying K → Table K → K → List (K × ℕ)
chain_of by t key = get_or t.buckets (by.slot key) []

abbrev pub set_chain : {K : Type 0} → Keying K → Table K → K → List (K × ℕ) → Table K
set_chain by t key ns = record t { buckets = set t.buckets (by.slot key) ns }

-- hash_table_add_ex
unfoldable pub add : {K : Type 0} → Keying K → Table K → K → ℕ → Table K
add by t key val = set_chain by t key ((key, val) ∷ chain_of by t key)

-- hash_table_get_ex
unfoldable pub get : {K : Type 0} → Keying K → Table K → K → ℕ
unfolding getval
get by t key = getval by (chain_of by t key) key t.invalid_ret

-- The outcome of hash_table_remove_ex: what it returns, the value that pfn_rundown is called with,
-- and the table.
abbrev pub Removed : Type 0 → Type 0
Removed K = ℕ × Option ℕ × Table K

abbrev pub remove_result :
    {K : Type 0} → Keying K → Table K → K → Option ℕ × List (K × ℕ) → Removed K
remove_result by t key (none, ns) = (0, none, t)
remove_result by t key (some val, ns) = (1, some val, set_chain by t key ns)

-- An empty bucket makes it return invalid_ret.
abbrev pub remove_from : {K : Type 0} → Keying K → Table K → K → List (K × ℕ) → Removed K
remove_from by t key [] = (t.invalid_ret, none, t)
remove_from by t key (n ∷ ns) = remove_result by t key (unlink by (n ∷ ns) key)

-- hash_table_remove_ex
unfoldable pub remove : {K : Type 0} → Keying K → Table K → K → Removed K
unfolding unlink
remove by t key = remove_from by t key (chain_of by t key)

-- The values of the nodes, chain by chain.
unfoldable pub destroy_chains : {K : Type 0} → List (List (K × ℕ)) → List ℕ
destroy_chains [] = []
destroy_chains (ns ∷ rest) = map (λ n. n.1) ns ++ destroy_chains rest

-- hash_table_destroy: the values that pfn_rundown is called with, in order
unfoldable pub destroy : {K : Type 0} → Table K → List ℕ
unfolding destroy_chains
destroy t = destroy_chains t.buckets
