-- ===== src/Locks/Waiting.antt =====
-- What waiting and notifying make of an object.
use jdepends.Common.{
  ℕ, zero, suc, ◌<◌, ◌≡◌, ◌≢◌, refl, sym, ap, inl, inr, true, Option, none, some, Option-cases,
  List, [], ◌∷◌, ◌++◌, ==_refl, length, get_elem?, set, replicate, arith,
}
use jdepends.Common.Run.{ok, fault}
use jdepends.Locks.Defs.{
  Monitor, Thread, is_owner, taken, acquire_case, acquire_lock, one_less, release_lock, returned,
  wait_at, wait, one_more, start_priority, wake_lists, wake_from, notify_case, notify_all,
}
use jdepends.Locks.Reachable.{IsMonitor, hand_over-fault}

get_elem?-lt_some :
    {A : Type 0} (xs : List A) (i : ℕ) → i < length xs → (a : A) × (get_elem? xs i ≡ some a)
get_elem?-lt_some [] i h = absurd (omega arith)
get_elem?-lt_some (x ∷ xs) zero h = (x, refl)
get_elem?-lt_some (x ∷ xs) (suc i) h = get_elem?-lt_some xs i (omega arith)

-- All threads of a wait set, in the order of their priorities
abbrev pub waiting : List (List ℕ) → List ℕ
waiting [] = []
waiting (list ∷ lists) = list ++ waiting lists

wake_lists-all :
    (lists : List (List ℕ)) → wake_lists lists ≡ (waiting lists, replicate (length lists) [])
unfolding wake_lists
wake_lists-all [] = refl
wake_lists-all (list ∷ lists) = rw (wake_lists-all lists) refl

one_more-ne_some : (o : Option ℕ) {start : ℕ} → o ≡ none → one_more o ≢ some start
one_more-ne_some none e c = cc
one_more-ne_some (some n) e c = cc

one_more-some :
    (o : Option ℕ) {first start : ℕ} → o ≡ some first → one_more o ≡ some start → start ≡ suc first
one_more-some none e c = cc
one_more-some (some n) e c = cc

one_more-none : (o : Option ℕ) → one_more o ≡ none → o ≡ none
one_more-none none e = refl
one_more-none (some n) e = cc

wake_from-all :
    (lists : List (List ℕ)) (start : ℕ)
    → start_priority lists ≡ some start
    → wake_from start lists ≡ (waiting lists, replicate (length lists) [])
unfolding start_priority wake_from wake_lists
wake_from-all [] start e = cc
wake_from-all ([] ∷ lists) start e = elim (Option-cases (start_priority lists)) [
  | inl n ↦ absurd (one_more-ne_some (start_priority lists) n e)
  | inr (first, s) ↦
      let later : start ≡ suc first = one_more-some (start_priority lists) s e in
      rw (later, wake_from-all lists first s) refl
]
wake_from-all ((id ∷ ids) ∷ lists) start e =
    let first : start ≡ 0 = cc in rw (first, wake_lists-all lists) refl

none-waiting :
    (lists : List (List ℕ))
    → start_priority lists ≡ none
    → (waiting lists ≡ []) × (lists ≡ replicate (length lists) [])
unfolding start_priority
none-waiting [] e = (refl, refl)
none-waiting ([] ∷ lists) e =
    let (a, b) = none-waiting lists (one_more-none (start_priority lists) e) in (a, ap (◌∷◌ []) b)
none-waiting ((id ∷ ids) ∷ lists) e = cc

-- For the owner of the lock, JvmNotifyAll resumes the waiting threads, each once, from priority 0
-- on, in a list the last that came first, and leaves the wait set empty and the rest as it was.
pub notify_all-waiting :
    (t : Thread) (m : Monitor)
    → m.lock.owner_thread ≡ some t.id
    → notify_all t m
      ≡ returned (waiting m.wait_set, record m { wait_set = replicate (length m.wait_set) [] })
unfolding notify_all notify_case is_owner
notify_all-waiting t m e = elim (Option-cases (start_priority m.wait_set)) [
  | inl n ↦
      let (nobody, same) = none-waiting m.wait_set n in
      rw (e, ==_refl t.id, n, nobody, sym same) refl
  | inr (start, s) ↦ rw (e, ==_refl t.id, s, wake_from-all m.wait_set start s) refl
]

-- The object behind JvmWait
abbrev given_up : Monitor → List (List ℕ) → Monitor
given_up m waiters = record m {
  lock = record { owner_thread = none; lock_count = 0; thread_count = 1 };
  wait_set = waiters;
}

-- The object with its lock taken after that
abbrev retaken : Monitor → List (List ℕ) → ℕ → Monitor
retaken m waiters id = record m {
  lock = record { owner_thread = some id; lock_count = 1; thread_count = 2 };
  wait_set = waiters;
}

acquire_lock-given_up :
    (u : Thread) (m : Monitor) (waiters : List (List ℕ))
    → acquire_lock u (given_up m waiters) ≡ ok (true, retaken m waiters u.id)
unfolding acquire_lock acquire_case taken
acquire_lock-given_up u m waiters = refl

release_lock-retaken :
    (u : Thread) (m : Monitor) (waiters : List (List ℕ))
    → IsMonitor m
    → release_lock u (retaken m waiters u.id) ≡ fault
unfolding release_lock is_owner one_less
release_lock-retaken u m waiters w =
    let left : Monitor = record (given_up m waiters) {
      lock = record { owner_thread = none; lock_count = 0; thread_count = 1 };
    } in
    rw (==_refl u.id, hand_over-fault u left w.no_entries) refl

-- On an object whose entry set is empty and whose counts are right: when the owner has called
-- JvmWait, the next thread that calls JvmAcquireLock gets the lock, and its call of JvmReleaseLock
-- follows a null pointer.
pub wait-acquire_lock :
    (t u : Thread) (m : Monitor)
    → IsMonitor m
    → m.lock.owner_thread ≡ some t.id
    → t.priority < length m.wait_set
    → (t' : Thread) × (m1 : Monitor) × (m2 : Monitor) × (wait t m ≡ returned (t', m1))
      × (acquire_lock u m1 ≡ ok (true, m2))
      × (release_lock u m2 ≡ fault)
unfolding wait wait_at is_owner
wait-acquire_lock t u m w e h =
    let (list, at) = get_elem?-lt_some m.wait_set t.priority h in
    let waiters = set m.wait_set t.priority (t.id ∷ list) in
    (
      record t { saved_count = m.lock.lock_count },
      given_up m waiters,
      retaken m waiters u.id,
      rw (e, ==_refl t.id, at, w.counted, e) refl,
      acquire_lock-given_up u m waiters,
      release_lock-retaken u m waiters w,
    )
