-- ===== src/LinkList/Circle.antt =====
-- The circle of nodes of a list of linklist.c, with link_list_add_data and link_list_find_data.
use jdepends.Common.{
  ℕ, zero, suc, ◌+◌, ◌%◌, ◌^◌, Bool, true, false, List, [], ◌∷◌, ◌==◌, leb, if◌then◌else◌, length,
  ◌<◌, ==_refl, ◌≡◌, refl, arith, ==→eq, Bool-cases, inl, inr,
}
use jdepends.Common.Run.{ok}
use jdepends.LinkList.Defs.{
  NodeHeap, LinkList, update, get_next, set_next, set_prev, alloc_node, note_second,
  link_behind_head, link_in, add_data, key_case, compare_data_with_key, find_from, find_data,
}

-- The nodes from p on, up to the one whose `next` is the head
abbrev pub Chain : NodeHeap → ℕ → ℕ → List ℕ → Type 0
Chain h head p [] = p ≡ head
Chain h head p (a ∷ rest) =
    (p ≡ a) × (a == head ≡ false) × (h.live a ≡ true) × Chain h head (h.next a) rest

-- The nodes of a list, the head first
abbrev pub IsCircle : NodeHeap → LinkList → List ℕ → Type 0
IsCircle h l [] = l.head ≡ 0
IsCircle h l (a ∷ rest) =
    (a ≡ l.head)
    × (l.head == 0 ≡ false)
    × (h.live l.head ≡ true)
    × Chain h l.head (h.next l.head) rest

-- No node lies where mem_alloc will put one.
abbrev pub HasRoom : NodeHeap → Type 0
HasRoom h =
    ((a : ℕ) → leb h.fresh a ≡ true → h.live a ≡ false)
    × (h.fresh == 0 ≡ false)
    × (h.live 0 ≡ false)

-- A new node goes behind the head.
unfoldable pub insert_second : ℕ → List ℕ → List ℕ
insert_second node [] = node ∷ []
insert_second node (a ∷ rest) = a ∷ node ∷ rest

-- The first answer of link_list_compare_data_with_key that is not null
unfoldable pub first_answer : NodeHeap → LinkList → ℕ → List ℕ → ℕ
first_answer h l key [] = 0
first_answer h l key (a ∷ rest) =
    let answer = key_case h l a key l.compare_link in
    let behind = first_answer h l key rest in if answer == 0 then behind else answer

if-ok {ℓ} :
    {A : Type ℓ} (test : Bool) (x y : A)
    → (if test then ok x else ok y) ≡ ok (if test then x else y)
if-ok true x y = refl
if-ok false x y = refl

find_from-Chain :
    (h : NodeHeap) (l : LinkList) (key fuel a : ℕ) (rest : List ℕ)
    → length rest < fuel
    → h.live a ≡ true
    → Chain h l.head (h.next a) rest
    → find_from fuel h l key a ≡ ok (first_answer h l key (a ∷ rest))
unfolding find_from first_answer compare_data_with_key get_next
find_from-Chain h l key zero a rest less alive chain = absurd (omega arith)
find_from-Chain h l key (suc fuel) a [] less alive back =
    rw (alive, back, ==_refl l.head) (if-ok _ _ _)
find_from-Chain h l key (suc fuel) a (b ∷ rest) less alive (next, other, alive', chain) =
    rw (alive, next, other, find_from-Chain h l key fuel b rest (omega arith) alive' chain)
      (if-ok _ _ _)

-- Where the nodes of a list form a circle and there is one at least, link_list_find_data comes to its
-- end in as many rounds as there are nodes, and returns the first answer of the comparison that is
-- not null, in the order of the circle, or null if there is none.
pub find_data-first_answer :
    (h : NodeHeap) (l : LinkList) (key fuel a : ℕ) (rest : List ℕ)
    → length rest < fuel
    → IsCircle h l (a ∷ rest)
    → find_data fuel h l key ≡ ok (first_answer h l key (a ∷ rest))
unfolding find_data
find_data-first_answer h l key fuel a rest less (at, other, alive, chain) =
    rw at (find_from-Chain h l key fuel l.head rest less alive chain)

other_than_fresh : (h : NodeHeap) (a : ℕ) → HasRoom h → h.live a ≡ true → (a == h.fresh) ≡ false
other_than_fresh h a (room, _, _) alive = ground (arith, room a, ==→eq a h.fresh)

Chain-frame :
    (h h' : NodeHeap) (head p : ℕ) (rest : List ℕ)
    → ((a : ℕ) → a == head ≡ false → h.live a ≡ true → (h'.live a ≡ true) × (h'.next a ≡ h.next a))
    → Chain h head p rest
    → Chain h' head p rest
Chain-frame h h' head p [] same chain = chain
Chain-frame h h' head p (a ∷ rest) same (at, other, alive, chain) = (
  at,
  other,
  (same a other alive).0,
  rw ((same a other alive).1) (Chain-frame h h' head (h.next a) rest same chain),
)

link_behind_head-links :
    (h : NodeHeap) (l : LinkList) (node : ℕ)
    → h.live node ≡ true
    → h.live l.head ≡ true
    → h.live (h.next l.head) ≡ true
    → link_behind_head h l node
      ≡ ok (
        record h {
          next = update (update h.next node (h.next l.head)) l.head node;
          prev = update (update h.prev (h.next l.head) node) node l.head;
        },
        l,
      )
unfolding link_behind_head get_next set_next set_prev
link_behind_head-links h l node alive head next = rw (head, alive, next, alive, head) refl

note_second-links :
    (h : NodeHeap) (l : LinkList) (node : ℕ)
    → h.live node ≡ true
    → h.live l.head ≡ true
    → (before : ℕ → ℕ) × (last : ℕ) × (note_second h l node
        ≡ ok (record h { prev = before }, record l { tail = last }))
unfolding note_second get_next set_prev
note_second-links h l node alive head = elim (Bool-cases (h.next l.head == l.head)) [
  | inl only ↦ (update h.prev node l.head, node, rw (head, alive, only) refl)
  | inr more ↦ (h.prev, l.tail, rw (head, alive, more) refl)
]

link_in-links :
    (h : NodeHeap) (l : LinkList) (node : ℕ)
    → l.head == 0 ≡ false
    → h.live node ≡ true
    → h.live l.head ≡ true
    → h.live (h.next l.head) ≡ true
    → (before : ℕ → ℕ) × (last : ℕ) × (link_in h l node
        ≡ ok (
          record h {
            next = update (update h.next node (h.next l.head)) l.head node;
            prev = before;
          },
          record l { tail = last; count = (l.count + 1) % 2 ^ 32 },
        ))
unfolding link_in
link_in-links h l node some_head alive head next = do
  let (before, last, noted) = note_second-links h l node alive head
  let h' : NodeHeap = record h { prev = before }
  let l' : LinkList = record l { tail = last }
  (
    update (update before (h.next l.head) node) node l.head,
    last,
    rw (some_head, noted, link_behind_head-links h' l' node alive head next) refl,
  )

alloc_node-HasRoom : (h : NodeHeap) (datum : ℕ) → HasRoom h → HasRoom (alloc_node h datum)
unfolding alloc_node update
alloc_node-HasRoom h datum (room, some_address, no_null) =
    (λ a beyond. ground (arith, room a), ground arith, ground arith)

old_node :
    (h : NodeHeap) (datum a : ℕ)
    → HasRoom h
    → h.live a ≡ true
    → ((alloc_node h datum).live a ≡ true) × ((alloc_node h datum).next a ≡ h.next a)
unfolding alloc_node update
old_node h datum a has_room alive =
    (rw (other_than_fresh h a has_room alive) alive, rw (other_than_fresh h a has_room alive) refl)

-- The first node of a chain, or the head behind it, is live.
Chain-live :
    (h : NodeHeap) (head p : ℕ) (rest : List ℕ)
    → h.live head ≡ true
    → Chain h head p rest
    → h.live p ≡ true
Chain-live h head p [] alive chain = rw chain alive
Chain-live h head p (a ∷ rest) alive (at, _, alive', _) = rw at alive'

-- The heap in which a new node stands behind the head
abbrev with_second : NodeHeap → ℕ → ℕ → (ℕ → ℕ) → NodeHeap
with_second h datum head before = record (alloc_node h datum) {
  next =
      update (update (alloc_node h datum).next h.fresh ((alloc_node h datum).next head)) head
        h.fresh;
  prev = before;
}

with_second-Chain :
    (h : NodeHeap) (datum head : ℕ) (before : ℕ → ℕ) (rest : List ℕ)
    → HasRoom h
    → h.live head ≡ true
    → Chain h head (h.next head) rest
    → Chain
        (with_second h datum head before)
        head
        ((with_second h datum head before).next head)
        (h.fresh ∷ rest)
unfolding alloc_node update
with_second-Chain h datum head before rest has_room alive chain = do
  let head_ne = other_than_fresh h head has_room alive
  let ne_head : (h.fresh == head) ≡ false = ground arith
  let h' = with_second h datum head before
  let same : (a : ℕ)
        → a == head ≡ false
        → h.live a ≡ true
        → (h'.live a ≡ true) × (h'.next a ≡ h.next a) =
      λ a other live.
        let old = other_than_fresh h a has_room live in (rw old live, rw (other, old) refl)
  (
    rw (==_refl head) refl,
    ne_head,
    rw (==_refl h.fresh) refl,
    rw (ne_head, ==_refl h.fresh, head_ne) (Chain-frame h h' head (h.next head) rest same chain),
  )

-- Where the nodes of a list form a circle, link_list_add_data does not fault, and they form one again:
-- the new node is alone in a list that was empty, and stands behind the head, before the others, in
-- any other. There is still room for more nodes, the new one holds the datum, every other node holds
-- what it held, and the count goes up by one.
pub add_data-IsCircle :
    (h : NodeHeap) (l : LinkList) (datum : ℕ) (nodes : List ℕ)
    → HasRoom h
    → IsCircle h l nodes
    → (h' : NodeHeap) × (l' : LinkList) × (add_data h l datum ≡ ok (h', l'))
      × IsCircle h' l' (insert_second h.fresh nodes)
      × HasRoom h'
      × (h'.u ≡ update h.u h.fresh datum)
      × (l'.count ≡ (l.count + 1) % 2 ^ 32)
unfolding add_data insert_second alloc_node update link_in
add_data-IsCircle h l datum [] has_room empty = (
  alloc_node h datum,
  record l { head = h.fresh; tail = h.fresh; count = (l.count + 1) % 2 ^ 32 },
  rw (empty, ==_refl 0) refl,
  (refl, has_room.1, rw (==_refl h.fresh) refl, rw (==_refl h.fresh) refl),
  alloc_node-HasRoom h datum has_room,
  refl,
  refl,
)
add_data-IsCircle h l datum (a ∷ rest) has_room (at, some_head, alive, chain) = do
  let h0 = alloc_node h datum
  let (head_lives, links) = old_node h datum l.head has_room alive
  let next_lives =
      (old_node h datum (h.next l.head) has_room
        (Chain-live h l.head (h.next l.head) rest alive chain)).0
  let (before, last, linked) =
      link_in-links h0 l h.fresh some_head (rw (==_refl h.fresh) refl) head_lives
        (rw links next_lives)
  (
    with_second h datum l.head before,
    record l { tail = last; count = (l.count + 1) % 2 ^ 32 },
    linked,
    (at, some_head, head_lives, with_second-Chain h datum l.head before rest has_room alive chain),
    alloc_node-HasRoom h datum has_room,
    refl,
    refl,
  )
