-- ===== src/LinkList/Misses.antt =====
-- link_list_delete_data of linklist.c, where no node holds the datum.
use jdepends.Common.{
  ◌≢◌, ◌⊎◌, inl, inr, sym, ◌==◌, ==→eq, Bool-cases, true, ℕ, zero, suc, ◌+◌, ◌-◌, ◌%◌, ◌^◌, ◌<◌,
  true, false, List, [], ◌∷◌, length, ==_refl, ◌≡◌, refl, arith,
}
use jdepends.Common.Run.{ok}
use jdepends.LinkList.Defs.{
  NodeHeap, LinkList, data_type_ulong, data_type_ptr, get_next, compare_data, delete_from,
  delete_data,
}
use jdepends.LinkList.Circle.{Chain, IsCircle}

-- No node holds the datum.
abbrev pub AreOthers : NodeHeap → ℕ → List ℕ → Type 0
AreOthers h datum [] = Unit {0}
AreOthers h datum (a ∷ rest) = (h.u a ≢ datum) × AreOthers h datum rest

-- A list of numbers or of pointers
abbrev pub HoldsWords : LinkList → Type 0
HoldsWords l = (l.data_type ≡ data_type_ulong) ⊎ (l.data_type ≡ data_type_ptr)

other_words : (stored datum : ℕ) → stored ≢ datum → (datum == stored) ≡ false
other_words stored datum other = elim (Bool-cases (datum == stored)) [
  | inl e ↦ absurd (other (sym (==→eq datum stored e)))
  | inr e ↦ e
]

compare_data-other :
    (l : LinkList) (stored datum : ℕ)
    → HoldsWords l
    → stored ≢ datum
    → compare_data l stored datum ≡ false
unfolding compare_data
compare_data-other l stored datum (inl e) other =
    let ne : (datum == stored) ≡ false = other_words stored datum other in rw e ne
compare_data-other l stored datum (inr e) other =
    let ne : (datum == stored) ≡ false = other_words stored datum other in rw e ne

delete_from-Chain :
    (h : NodeHeap) (l : LinkList) (datum fuel a : ℕ) (rest : List ℕ)
    → length rest < fuel
    → h.live a ≡ true
    → Chain h l.head (h.next a) rest
    → HoldsWords l
    → AreOthers h datum (a ∷ rest)
    → delete_from fuel h l datum a ≡ ok (h, l)
unfolding delete_from get_next
delete_from-Chain h l datum zero a rest less alive chain word others = absurd (omega arith)
delete_from-Chain h l datum (suc fuel) a [] less alive back word (other, _) =
    rw (alive, compare_data-other l (h.u a) datum word other, back, ==_refl l.head) refl
delete_from-Chain h l datum (suc fuel) a (b ∷ rest) less alive (next, ne, alive', chain) word
      (other, others) =
    do
      let again = delete_from-Chain h l datum fuel b rest (omega arith) alive' chain word others
      rw (alive, compare_data-other l (h.u a) datum word other, next, ne, again) refl

-- In a list of numbers or pointers whose nodes form a circle of one node at least, none of which
-- holds the datum, link_list_delete_data leaves the nodes as they are and takes one off the count all
-- the same, modulo 2 ^ 32.
pub delete_data-miss :
    (h : NodeHeap) (l : LinkList) (datum fuel a : ℕ) (rest : List ℕ)
    → length rest < fuel
    → IsCircle h l (a ∷ rest)
    → HoldsWords l
    → AreOthers h datum (a ∷ rest)
    → delete_data fuel h l datum ≡ ok (h, record l { count = (l.count + (2 ^ 32 - 1)) % 2 ^ 32 })
unfolding delete_data
delete_data-miss h l datum fuel a rest less (at, some_head, alive, chain) word (other, others) = do
  let first : h.u l.head ≢ datum = rw at at other
  rw (some_head, delete_from-Chain h l datum fuel l.head rest less alive chain word (first, others))
      refl
