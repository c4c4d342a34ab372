-- ===== src/Locks/Reachable.antt =====
-- What acquiring and releasing make of an object, and of the threads that wait for it.
use jdepends.Common.{
  ℕ, zero, suc, ◌+◌, ◌-◌, ◌%◌, ◌^◌, ◌≤◌, ◌<◌, ◌≡◌, ◌≢◌, refl, ap, ◌∙◌, ◌⊎◌, inl, inr, Bool, true,
  false, Bool-cases, Option, none, some, [], ◌∷◌, ◌++◌, ltb, ◌==◌, ==→eq, get_elem?, drop, set,
  replicate, arith,
}
use jdepends.Common.Run.{ok, fault}
use jdepends.Locks.Defs.{
  Lock, Monitor, Thread, max_priority, no_threads, new_monitor, is_owner, taken, enqueue, new_node,
  wait_for_lock, acquire_case, acquire_lock, highest, resume, hand_over, one_less, release_lock,
}

abbrev pub holders : Option ℕ → ℕ
holders none = 0
holders (some owner) = 1

-- No thread is in the entry set, only the owner is counted, and a free lock has no entries.
pub record IsMonitor (m : Monitor) : Type 0 where
  pub no_entries : m.entry_set ≡ replicate max_priority no_threads
  pub counted : m.lock.thread_count ≡ holders m.lock.owner_thread
  pub unlocked : (m.lock.owner_thread ≢ none) ⊎ (m.lock.lock_count ≡ 0)

module _ {A : Type 0} (x : A) where
  get_elem?-replicate : (n i : ℕ) → i < n → get_elem? (replicate n x) i ≡ some x
  get_elem?-replicate zero i h = absurd (omega arith)
  get_elem?-replicate (suc n) zero h = refl
  get_elem?-replicate (suc n) (suc i) h = get_elem?-replicate n i (omega arith)

  set-replicate : (n i : ℕ) → set (replicate n x) i x ≡ replicate n x
  set-replicate zero i = refl
  set-replicate (suc n) zero = refl
  set-replicate (suc n) (suc i) = ap (◌∷◌ x) (set-replicate n i)

  drop-replicate : (n i : ℕ) → (k : ℕ) × (drop i (replicate n x) ≡ replicate k x)
  drop-replicate n zero = (n, refl)
  drop-replicate zero (suc i) = (zero, refl)
  drop-replicate (suc n) (suc i) = drop-replicate n i

highest-replicate : (priority n best : ℕ) → highest priority (replicate n no_threads) best ≡ best
unfolding highest
highest-replicate priority zero best = refl
highest-replicate priority (suc n) best = highest-replicate (suc priority) n best

-- What JvmAcquireLock does: the thread is the owner, or it is suspended and the lock is as it was.
pub record Acquires (t : Thread) (m : Monitor) : Type 0 where
  pub got : Bool
  pub after : Monitor
  pub result : acquire_lock t m ≡ ok (got, after)
  pub well_formed : IsMonitor after
  pub decided :
      (got ≡ true) × (after.lock.owner_thread ≡ some t.id) ⊎ (got ≡ false) × (after.lock ≡ m.lock)

acquire_case-Acquires :
    (t : Thread) (m : Monitor)
    → IsMonitor m
    → t.priority < max_priority
    → (owner : Option ℕ) → m.lock.owner_thread ≡ owner
    → Acquires t m
unfolding acquire_lock acquire_case wait_for_lock enqueue taken
acquire_case-Acquires t m w h none e = record {
  got = true;
  after = record m { lock = taken m.lock t.id ((m.lock.thread_count + 1) % 2 ^ 16) };
  result = rw e refl;
  well_formed = record {
    no_entries = w.no_entries;
    counted = rw (w.counted, e) refl;
    unlocked = inl λ c. cc;
  };
  decided = inl (refl, refl);
}
acquire_case-Acquires t m w h (some owner) e = elim (Bool-cases (owner == t.id)) [
  | inl same ↦ record {
    got = true;
    after = record m { lock = taken m.lock t.id m.lock.thread_count };
    result = rw (e, same) refl;
    well_formed = record {
      no_entries = w.no_entries;
      counted = rw (w.counted, e) refl;
      unlocked = inl λ c. cc;
    };
    decided = inl (refl, refl);
  }
  | inr other ↦
      let there : get_elem? m.entry_set t.priority ≡ some no_threads =
        rw w.no_entries (get_elem?-replicate no_threads max_priority t.priority h) in
      record {
        got = false;
        after = record m {
          nodes = m.nodes ++ new_node t.id ∷ [];
          entry_set = set m.entry_set t.priority no_threads;
        };
        result = rw (e, other, there) refl;
        well_formed = record {
          no_entries = rw w.no_entries (set-replicate no_threads max_priority t.priority);
          counted = w.counted;
          unlocked = w.unlocked;
        };
        decided = inr (refl, refl);
      }
]

-- On an object whose entry set is empty and whose counts are right, JvmAcquireLock of a thread with
-- a priority below 10 makes the thread the owner, or suspends it with the lock as it was; the entry
-- set is empty again and the counts are right.
pub acquire_lock-Acquires :
    (t : Thread) (m : Monitor) → IsMonitor m → t.priority < max_priority → Acquires t m
acquire_lock-Acquires t m w h = acquire_case-Acquires t m w h m.lock.owner_thread refl

pub hand_over-fault :
    (t : Thread) (m : Monitor)
    → m.entry_set ≡ replicate max_priority no_threads
    → hand_over t m ≡ fault
unfolding hand_over resume
hand_over-fault t m e =
    let (k, left) = drop-replicate no_threads max_priority t.priority in
    rw (e, left, highest-replicate t.priority k 0) refl

-- The lock after its last release
abbrev pub unlocked_lock : Lock
unlocked_lock = record { owner_thread = none; lock_count = 0; thread_count = 0 }

-- What JvmReleaseLock does
pub data Releases (t : Thread) (m : Monitor) : Type 0 where
  refused :
      m.lock.owner_thread ≢ some t.id → release_lock t m ≡ ok ((false, none), m) → Releases t m
  freed :
      m.lock.owner_thread ≡ some t.id
      → m.lock.lock_count ≤ 1
      → release_lock t m ≡ ok ((true, none), record m { lock = unlocked_lock })
      → Releases t m
  crashed :
      m.lock.owner_thread ≡ some t.id
      → 2 ≤ m.lock.lock_count
      → release_lock t m ≡ fault
      → Releases t m

one_less-last :
    (l : Lock) (owner : ℕ)
    → l.owner_thread ≡ some owner
    → l.thread_count ≡ holders l.owner_thread
    → l.lock_count ≤ 1
    → one_less l ≡ unlocked_lock
unfolding one_less
one_less-last l owner e c h = let last : l.lock_count - 1 ≡ 0 = omega arith in rw (last, c, e) refl

one_less-nested :
    (l : Lock) → 2 ≤ l.lock_count → one_less l ≡ record l { lock_count = l.lock_count - 1 }
unfolding one_less
one_less-nested l h = let more : (l.lock_count - 1 == 0) ≡ false = ground arith in rw more refl

owner-other : (a b : ℕ) → (a == b) ≡ false → a ≢ b
owner-other a b h e = ground arith

release_case-Releases :
    (t : Thread) (m : Monitor)
    → IsMonitor m
    → (owner : Option ℕ) → m.lock.owner_thread ≡ owner
    → Releases t m
unfolding release_lock is_owner
release_case-Releases t m w none e = refused (λ c. cc) (rw e refl)
release_case-Releases t m w (some owner) e = elim (Bool-cases (owner == t.id)) [
  | inr other ↦ refused (λ c. owner-other owner t.id other cc) (rw (e, other) refl)
  | inl same ↦
      let mine : m.lock.owner_thread ≡ some t.id = e ∙ ap some (==→eq owner t.id same) in
      elim (Bool-cases (ltb 1 m.lock.lock_count)) [
        | inr last ↦
            freed mine (ground arith)
              (rw (one_less-last m.lock owner e w.counted (ground arith), e, same) refl)
        | inl nested ↦
            let counted : m.lock.thread_count ≡ 1 = w.counted ∙ ap holders e in
            crashed mine (ground arith) (
              rw
                (
                  one_less-nested m.lock (ground arith),
                  counted,
                  e,
                  same,
                  hand_over-fault t
                      (record m {
                        lock = record {
                          owner_thread = some owner;
                          lock_count = m.lock.lock_count - 1;
                          thread_count = 1;
                        };
                      })
                      w.no_entries,
                )
                refl)
      ]
]

-- On an object whose entry set is empty and whose counts are right, JvmReleaseLock refuses a thread
-- that is not the owner, frees the lock at its last release, and follows a null pointer at the
-- release of a lock that its owner has taken more than once.
pub release_lock-Releases : (t : Thread) (m : Monitor) → IsMonitor m → Releases t m
release_lock-Releases t m w = release_case-Releases t m w m.lock.owner_thread refl

-- The objects that calls of JvmAcquireLock and JvmReleaseLock lead to from a new one
pub data Reach : Monitor → Type 0 where
  start : Reach new_monitor
  acquired :
      {m m' : Monitor} (t : Thread) (got : Bool)
      → t.priority < max_priority
      → Reach m
      → acquire_lock t m ≡ ok (got, m')
      → Reach m'
  released :
      {m m' : Monitor} (t : Thread) (r : Bool × Option ℕ)
      → Reach m
      → release_lock t m ≡ ok (r, m')
      → Reach m'

freed-IsMonitor : (m : Monitor) → IsMonitor m → IsMonitor (record m { lock = unlocked_lock })
freed-IsMonitor m w = record { no_entries = w.no_entries; counted = refl; unlocked = inr refl }

Releases-result :
    (t : Thread) (m m' : Monitor) (r : Bool × Option ℕ)
    → IsMonitor m
    → Releases t m
    → release_lock t m ≡ ok (r, m')
    → IsMonitor m' × (r.1 ≡ none)
Releases-result t m m' r w (refused n e) f =
    let same : (false, none) ≡ r = cc in let same' : m ≡ m' = cc in (rw⁻¹ same' w, rw⁻¹ same refl)
Releases-result t m m' r w (freed o l e) f =
    let same : (true, none) ≡ r = cc in
    let same' : record m { lock = unlocked_lock } ≡ m' = cc in
    (rw⁻¹ same' (freed-IsMonitor m w), rw⁻¹ same refl)
Releases-result t m m' r w (crashed o l e) f = cc

-- The counts of an object that was reached are right, and its entry set is empty.
pub Reach-IsMonitor : (m : Monitor) → Reach m → IsMonitor m
Reach-IsMonitor m start = record { no_entries = refl; counted = refl; unlocked = inr refl }
Reach-IsMonitor m' (acquired {m = m} t got h p e) =
    let a = acquire_lock-Acquires t m (Reach-IsMonitor m p) h in
    let same : a.after ≡ m' = cc in rw⁻¹ same a.well_formed
Reach-IsMonitor m' (released {m = m} t r p e) =
    let w = Reach-IsMonitor m p in (Releases-result t m m' r w (release_lock-Releases t m w) e).0

-- However JvmAcquireLock and JvmReleaseLock were called on a new object, by threads with priorities
-- below 10, a call of JvmReleaseLock that returns resumes no thread: one that was suspended in
-- JvmAcquireLock is not woken.
pub release_lock-resumes_none :
    (t : Thread) (m m' : Monitor) (r : Bool × Option ℕ)
    → Reach m
    → release_lock t m ≡ ok (r, m')
    → r.1 ≡ none
release_lock-resumes_none t m m' r p e =
    let w = Reach-IsMonitor m p in (Releases-result t m m' r w (release_lock-Releases t m w) e).1
