-- ===== src/LinkList/Walk.antt =====
-- Walks through the lists of linklist.c, and link_list_move_node of the only node of a list.
use jdepends.Common.{
  ℕ, zero, suc, ◌+◌, ◌-◌, ◌%◌, ◌^◌, ◌<◌, true, false, List, [], ◌∷◌, map, length, ◌==◌, ==_refl,
  ==→eq, ◌≡◌, refl, sym, arith,
}
use jdepends.Common.Run.{ok}
use jdepends.LinkList.Defs.{
  NodeHeap, LinkList, list_regular, update, get_next, set_next, get_prev, set_prev, link_in,
  key_case, compare_data_with_key,
}
use jdepends.LinkList.Cursor.{
  get_data, start, datum_at, get_first_data, step, advanced, get_next_data, walk_on, walk,
  take_head, take_out, move_over, move_from, move_node,
}
use jdepends.LinkList.Circle.{Chain, IsCircle, HasRoom}

live-some : (h : NodeHeap) (a : ℕ) → HasRoom h → h.live a ≡ true → (a == 0) ≡ false
live-some h a (_, _, no_null) alive = ground (arith, ==→eq a 0)

-- A regular list whose walk stands at p
abbrev standing : LinkList → ℕ → LinkList
standing l p = record l { list_type = list_regular; first = p; is_end_reached = false }

walk_on-Chain :
    (h : NodeHeap) (l : LinkList) (fuel p : ℕ) (rest : List ℕ)
    → HasRoom h
    → length rest < fuel
    → h.live p ≡ true
    → Chain h l.head (h.next p) rest
    → walk_on fuel h (standing l p) ≡ ok (map h.u rest)
unfolding walk_on get_next_data step advanced datum_at get_data get_next
walk_on-Chain h l zero p rest has_room less alive chain = absurd (omega arith)
walk_on-Chain h l (suc fuel) p [] has_room less alive back =
    rw (live-some h p has_room alive, alive, back, ==_refl l.head) refl
walk_on-Chain h l (suc fuel) p (b ∷ rest) has_room less alive (next, other, alive', chain) = do
  let again = walk_on-Chain h l fuel b rest has_room (omega arith) alive' chain
  let null = live-some h b has_room alive'
  rw (live-some h p has_room alive, alive, next, other, null, alive', again) refl

-- In a regular list whose nodes form a circle, link_list_get_first_data and the calls of
-- link_list_get_next_data behind it give the datum of each node once, in the order of the circle, and
-- come to the end after as many calls as there are nodes.
pub walk-regular :
    (h : NodeHeap) (l : LinkList) (fuel : ℕ) (nodes : List ℕ)
    → HasRoom h
    → IsCircle h l nodes
    → length nodes < fuel
    → walk fuel h (record l { list_type = list_regular }) ≡ ok (map h.u nodes)
unfolding walk get_first_data start datum_at get_data
walk-regular h l fuel [] has_room empty less = rw empty refl
walk-regular h l fuel (a ∷ rest) has_room (at, some_head, alive, chain) less = do
  let again = walk_on-Chain h l fuel l.head rest has_room (omega arith) alive chain
  rw (some_head, alive, again, at) refl

take_head-only :
    (h : NodeHeap) (l : LinkList) (a : ℕ)
    → h.live a ≡ true
    → h.next a ≡ a
    → h.prev a ≡ a
    → take_head h l a
      ≡ ok (
        record h { next = update (update h.next a a) a a; prev = update (update h.prev a a) a a },
        record l { head = a; count = (l.count + (2 ^ 32 - 1)) % 2 ^ 32 },
      )
unfolding take_head get_next set_next get_prev set_prev update
take_head-only h l a alive next prev =
    rw (alive, next, prev, alive, alive, ==_refl a, alive, next, alive, alive) refl

-- link_list_move_node of the only node of a list, where the comparison finds the key in it, to an
-- empty list: the node is the head of both lists behind the call.
pub move_node-last :
    (h : NodeHeap) (from to : LinkList) (key fuel a : ℕ)
    → IsCircle h from (a ∷ [])
    → h.prev from.head ≡ from.head
    → key_case h from from.head key from.compare_link == 0 ≡ false
    → to.head ≡ 0
    → (h' : NodeHeap) × (from' : LinkList) × (to' : LinkList) × (move_node (suc fuel) h from to key
        ≡ ok (h', from', to'))
      × (from'.head ≡ a)
      × (to'.head ≡ a)
unfolding move_node move_from compare_data_with_key get_next move_over take_out link_in
move_node-last h from to key fuel a (at, some_head, alive, next) prev found empty = (
  record h {
    next = update (update h.next from.head from.head) from.head from.head;
    prev = update (update h.prev from.head from.head) from.head from.head;
  },
  record from { count = (from.count + (2 ^ 32 - 1)) % 2 ^ 32 },
  record to { head = from.head; tail = from.head; count = (to.count + 1) % 2 ^ 32 },
  rw (alive, found, ==_refl from.head, take_head-only h from from.head alive next prev, empty) refl,
  sym at,
  sym at,
)
