-- ===== src/Locks/Defs.antt =====
-- The lock of an object, its entry set and its wait set, in Jvmrt.c: JvmAcquireLock, JvmReleaseLock,
-- JvmWait and JvmNotifyAll. A thread is a number. Each call holds _jmoGExclCodeMutex for the part
-- that is modelled, so calls do not overlap; a thread that is suspended comes back to the start of
-- the call. A null pointer that is followed is `fault`. Memory is never short.
use jdepends.Common.{
  ℕ, zero, suc, ◌+◌, ◌-◌, ◌%◌, ◌^◌, Bool, true, false, Option, none, some, List, [], ◌∷◌, ◌++◌, ltb,
  ◌==◌, if◌then◌else◌, get_elem?, drop, set, replicate,
}
use jdepends.Common.Run.{Run, ok, fault, ◌>>=◌}

-- _JVM_Lock; the counts are JVM_WORDs.
pub record Lock : Type 0 where
  pub owner_thread : Option ℕ
  pub lock_count : ℕ
  pub thread_count : ℕ

-- _JVM_Priority_List of an entry set: pointers to nodes
pub record PriorityList : Type 0 where
  pub first_thread : Option ℕ
  pub last_thread : Option ℕ

-- _JVM_Thread_State_List
pub record Node : Type 0 where
  pub this_thread : ℕ
  pub next : Option ℕ

-- The part of _JVM_Object that the calls use, and the nodes. The threads of a wait set are listed for
-- each priority from the first on.
pub record Monitor : Type 0 where
  pub lock : Lock
  pub entry_set : List PriorityList
  pub nodes : List Node
  pub wait_set : List (List ℕ)

-- The parts of _JVM_Thread_State that the calls use
pub record Thread : Type 0 where
  pub id : ℕ
  pub priority : ℕ
  pub saved_count : ℕ

-- JVM_THREAD_MAX_PRIORITY
abbrev pub max_priority : ℕ
max_priority = 10

abbrev pub no_threads : PriorityList
no_threads = record { first_thread = none; last_thread = none }

-- A new object
abbrev pub new_monitor : Monitor
new_monitor = record {
  lock = record { owner_thread = none; lock_count = 0; thread_count = 0 };
  entry_set = replicate max_priority no_threads;
  nodes = [];
  wait_set = replicate max_priority [];
}

-- JvmIsOwnerThread
unfoldable pub is_owner : Option ℕ → ℕ → Bool
is_owner none id = false
is_owner (some owner) id = owner == id

abbrev pub found {ℓ} : {A : Type ℓ} → Option A → Run A
found none = fault
found (some a) = ok a

-- The lock with its next count of entries
unfoldable pub taken : Lock → ℕ → ℕ → Lock
taken l id threads = record {
  owner_thread = some id;
  lock_count = (l.lock_count + 1) % 2 ^ 16;
  thread_count = threads;
}

-- The node that is made for a thread. Its link is not written to.
abbrev pub new_node : ℕ → Node
new_node id = record { this_thread = id; next = none }

-- What JvmAcquireLock does to the entry set: the pointer to the new node is replaced by the last one
-- of the list before it is used.
unfoldable pub enqueue : Monitor → ℕ → PriorityList → Option ℕ → Run Monitor
enqueue m priority list none = ok (record m {
  entry_set = set m.entry_set priority (record { first_thread = none; last_thread = none });
})
enqueue m priority list (some last) = do
  node ← found (get_elem? m.nodes last)
  ok (record m {
    nodes = set m.nodes last (record node { next = some last });
    entry_set = set m.entry_set priority (record list { last_thread = some last });
  })

unfoldable pub wait_for_lock : Thread → Monitor → Run (Bool × Monitor)
wait_for_lock t m = do
  list ← found (get_elem? m.entry_set t.priority)
  m' ← enqueue (record m { nodes = m.nodes ++ new_node t.id ∷ [] }) t.priority list list.last_thread
  ok (false, m')

unfoldable pub acquire_case : Thread → Monitor → Option ℕ → Run (Bool × Monitor)
acquire_case t m none =
    ok (true, record m { lock = taken m.lock t.id ((m.lock.thread_count + 1) % 2 ^ 16) })
acquire_case t m (some owner) =
    if owner == t.id
    then ok (true, record m { lock = taken m.lock t.id m.lock.thread_count })
    else wait_for_lock t m

-- JvmAcquireLock, up to where the thread goes on with the lock, or is suspended: it then calls
-- JvmAcquireLock again.
unfoldable pub acquire_lock : Thread → Monitor → Run (Bool × Monitor)
acquire_lock t m = acquire_case t m m.lock.owner_thread

abbrev pub better : Option ℕ → ℕ → ℕ → ℕ
better none priority best = best
better (some node) priority best = if ltb best priority then priority else best

-- The highest priority whose list has a first thread, and `best` if there is none
unfoldable pub highest : ℕ → List PriorityList → ℕ → ℕ
highest priority [] best = best
highest priority (list ∷ lists) best =
    highest (suc priority) lists (better list.first_thread priority best)

-- The node of the selected thread is taken off, and the thread goes on.
unfoldable pub resume : Monitor → ℕ → PriorityList → Option ℕ → Run (Option ℕ × Monitor)
resume m priority list none = fault
resume m priority list (some first) = do
  node ← found (get_elem? m.nodes first)
  ok (
    some node.this_thread,
    record m { entry_set = set m.entry_set priority (record list { first_thread = node.next }) },
  )

unfoldable pub hand_over : Thread → Monitor → Run (Option ℕ × Monitor)
hand_over t m = do
  let priority = highest t.priority (drop t.priority m.entry_set) 0
  list ← found (get_elem? m.entry_set priority)
  resume m priority list list.first_thread

-- The counts that JvmReleaseLock leaves
unfoldable pub one_less : Lock → Lock
one_less l =
    let count = l.lock_count - 1 in
    if count == 0
    then record {
      owner_thread = none;
      lock_count = count;
      thread_count = (l.thread_count + 2 ^ 16 - 1) % 2 ^ 16;
    }
    else record l { lock_count = count }

-- JvmReleaseLock: what it returns, and the thread that it resumes
unfoldable pub release_lock : Thread → Monitor → Run ((Bool × Option ℕ) × Monitor)
release_lock t m =
    let m' = record m { lock = one_less m.lock } in
    if is_owner m.lock.owner_thread t.id
    then (if m'.lock.thread_count == 0
        then ok ((true, none), m')
        else hand_over t m' >>= λ r. ok ((true, r.0), r.1))
    else ok ((false, none), m)

-- A thread that is not the owner gets an exception from JvmWait and JvmNotifyAll.
pub data Signal (A : Type 0) : Type 0 where
  returned : A → Signal A
  illegal_monitor_state : Signal A
  bad_priority : Signal A

unfoldable pub wait_at : Thread → Monitor → Option (List ℕ) → Signal (Thread × Monitor)
wait_at t m none = bad_priority
wait_at t m (some list) = returned (
  record t { saved_count = m.lock.lock_count },
  record m {
    lock = record m.lock { lock_count = 0; owner_thread = none };
    wait_set = set m.wait_set t.priority (t.id ∷ list);
  },
)

-- JvmWait, up to where the thread is suspended; nothing of the object is changed behind that.
unfoldable pub wait : Thread → Monitor → Signal (Thread × Monitor)
wait t m =
    if is_owner m.lock.owner_thread t.id
    then wait_at t m (get_elem? m.wait_set t.priority)
    else illegal_monitor_state

abbrev pub one_more : Option ℕ → Option ℕ
one_more none = none
one_more (some n) = some (suc n)

-- JvmIsWaitSetEmpty, with the priority of the first list that is not empty
unfoldable pub start_priority : List (List ℕ) → Option ℕ
start_priority [] = none
start_priority ([] ∷ lists) = one_more (start_priority lists)
start_priority ((id ∷ ids) ∷ lists) = some 0

-- The loop of JvmNotifyAll from a priority on: each list is emptied from its front.
unfoldable pub wake_lists : List (List ℕ) → List ℕ × List (List ℕ)
wake_lists [] = ([], [])
wake_lists (list ∷ lists) = let rest = wake_lists lists in (list ++ rest.0, [] ∷ rest.1)

unfoldable pub wake_from : ℕ → List (List ℕ) → List ℕ × List (List ℕ)
wake_from zero lists = wake_lists lists
wake_from (suc n) [] = ([], [])
wake_from (suc n) (list ∷ lists) = let rest = wake_from n lists in (rest.0, list ∷ rest.1)

unfoldable pub notify_case : Monitor → Option ℕ → Signal (List ℕ × Monitor)
notify_case m none = returned ([], m)
notify_case m (some start) =
    let woken = wake_from start m.wait_set in returned (woken.0, record m { wait_set = woken.1 })

-- JvmNotifyAll: the threads that it resumes, in order
unfoldable pub notify_all : Thread → Monitor → Signal (List ℕ × Monitor)
notify_all t m =
    if is_owner m.lock.owner_thread t.id
    then notify_case m (start_priority m.wait_set)
    else illegal_monitor_state
