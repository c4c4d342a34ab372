-- ===== src/Locks/Examples.antt =====
-- Runs on concrete objects, and the theorems at concrete inputs.
use jdepends.Common.{ℕ, ◌≡◌, refl, true, false, Option, none, some, [], ◌∷◌, inl, replicate, arith}
use jdepends.Common.Run.{ok, fault}
use jdepends.Locks.Defs.{
  Monitor, Thread, max_priority, new_monitor, taken, acquire_case, wait_for_lock, enqueue, new_node,
  is_owner, one_less, acquire_lock, release_lock, returned, wait, notify_all,
}
use jdepends.Locks.Reachable.{
  IsMonitor, Releases, release_lock-Releases, start, acquired, release_lock-resumes_none,
  unlocked_lock,
}
use jdepends.Locks.Waiting.{notify_all-waiting, wait-acquire_lock}

abbrev one : Thread
one = record { id = 1; priority = 5; saved_count = 0 }

abbrev two : Thread
two = record { id = 2; priority = 7; saved_count = 0 }

-- The thread 1 holds the lock, and three threads wait.
abbrev held : Monitor
held = record new_monitor {
  lock = record { owner_thread = some 1; lock_count = 1; thread_count = 1 };
  wait_set = [] ∷ [] ∷ (4 ∷ 3 ∷ []) ∷ [] ∷ [] ∷ (6 ∷ []) ∷ [] ∷ [] ∷ [] ∷ [] ∷ [];
}

held-IsMonitor : IsMonitor held
held-IsMonitor = record { no_entries = refl; counted = refl; unlocked = inl λ c. cc }

-- The thread 1 has the lock of a new object, for which it has not waited.
abbrev entered : Monitor
entered = record new_monitor { lock = taken new_monitor.lock 1 1 }

acquire_lock-new : acquire_lock one new_monitor ≡ ok (true, entered)
unfolding acquire_lock acquire_case
acquire_lock-new = refl

-- The thread 2 is suspended, and its node is in no list.
abbrev queued : Monitor
queued = record entered { nodes = new_node 2 ∷ [] }

acquire_lock-entered : acquire_lock two entered ≡ ok (false, queued)
unfolding acquire_lock acquire_case wait_for_lock enqueue taken
acquire_lock-entered = refl

release_lock-queued :
    release_lock one queued ≡ ok ((true, none), record queued { lock = unlocked_lock })
unfolding release_lock is_owner one_less taken
release_lock-queued = refl

release_lock-Releases_example : Releases one held
release_lock-Releases_example = release_lock-Releases one held held-IsMonitor

release_lock-resumes_none_example : ◌≡◌ {A = Option ℕ} none none
release_lock-resumes_none_example =
    release_lock-resumes_none one queued (record queued { lock = unlocked_lock }) (true, none)
      (acquired two false (omega arith) (acquired one true (omega arith) start acquire_lock-new)
        acquire_lock-entered)
      release_lock-queued

notify_all-waiting_example :
    notify_all one held
    ≡ returned (4 ∷ 3 ∷ 6 ∷ [], record held { wait_set = replicate max_priority [] })
notify_all-waiting_example = notify_all-waiting one held refl

wait-acquire_lock_example :
    (t' : Thread) × (m1 : Monitor) × (m2 : Monitor) × (wait one held ≡ returned (t', m1))
    × (acquire_lock two m1 ≡ ok (true, m2))
    × (release_lock two m2 ≡ fault)
wait-acquire_lock_example = wait-acquire_lock one two held held-IsMonitor refl (omega arith)
