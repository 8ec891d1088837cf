-- ===== src/Sem.antt =====
-- user/semaphore.c and user/condvar.c: any number of threads on one semaphore, interleaved.
-- The mutex of the semaphore is taken as a lock that one thread holds at a time, which is what Mutex
-- proves of user/mutex.c. Every call of the condition variable is made with that mutex held, so the spin
-- lock of its queue is free, and its critical sections are single steps. `announced`, `told` and `parked`
-- are the flags `setPark`, `immediateUnpark` and `isParked` of kernel/proc.c.
pub mod Members
pub mod Invariant
pub mod Preserved
pub mod Signalled
pub mod Steps
pub mod Broadcast
pub mod Safety
mod Tests
use cs_577_p.Base.{
  ℕ, ◌+◌, ◌-◌, ◌%◌, ◌^◌, ltb, Bool, true, false, not, ◌&&◌, List, [], ◌∷◌, ◌++◌, ◌≡◌, if◌then◌else◌,
}
use cs_577_p.Mutex.{update}

-- Where a thread stands.
pub data Pc : Type 0 where
  outside : Pc
  want_wait : Pc  -- in sem_wait, in its mutex_lock
  testing : Pc  -- in sem_wait, with the mutex, at the test of the value
  enqueued : Pc  -- in cv_wait, after queue_add and setpark, with the mutex
  unlocked : Pc  -- in cv_wait, after mutex_unlock, before park
  asleep : Pc  -- in park, off the CPU
  relocking : Pc  -- in cv_wait, after park, in mutex_lock
  retesting : Pc  -- back from cv_wait, with the mutex, at the test of the value
  want_post : Pc  -- in sem_post, in its mutex_lock
  raising : Pc  -- in sem_post, with the mutex, before value++
  signalling : Pc  -- in sem_post, with the mutex, before cv_signal
  leaving : Pc  -- in sem_wait or sem_post, with the mutex, before mutex_unlock

-- `held` tells whether a thread has the mutex; `value` is the bit pattern of an int.
pub record System : Type 0 where
  pub value : ℕ
  pub held : Bool
  pub queue : List ℕ
  pub announced : ℕ → Bool
  pub told : ℕ → Bool
  pub parked : ℕ → Bool
  pub pc : ℕ → Pc

abbrev pub goto : ℕ → Pc → System → System
goto i p s = record s { pc = update s.pc i p }

-- The test `value > 0` on an int.
abbrev pub is_positive : ℕ → Bool
is_positive v = ltb 0 v && ltb v (2 ^ 31)

-- sem_init, before any thread calls.
abbrev pub sem_init : ℕ → System
sem_init value = record {
  value = value % 2 ^ 32;
  held = false;
  queue = [];
  announced = λ i. false;
  told = λ i. false;
  parked = λ i. false;
  pc = λ i. outside;
}

-- setpark, called by thread `i`.
unfoldable pub setpark : ℕ → System → System
setpark i s =
    if not (s.told i) && not (s.announced i)
    then record s { announced = update s.announced i true }
    else s

-- cv_wait up to the release of the queue's lock.
unfoldable pub cv_enqueue : ℕ → System → System
unfolding setpark
cv_enqueue i s = goto i enqueued (setpark i (record s { queue = s.queue ++ i ∷ [] }))

-- park, called by thread `i` in cv_wait.
unfoldable pub park : ℕ → System → System
park i s =
    if s.told i
    then record s {
      told = update s.told i false;
      announced = update s.announced i false;
      pc = update s.pc i relocking;
    }
    else record s {
      parked = update s.parked i true;
      announced = update s.announced i false;
      pc = update s.pc i asleep;
    }

-- unpark of thread `j`. A thread that is woken returns from park.
unfoldable pub unpark : ℕ → System → System
unpark j s =
    if not (s.announced j) && not (s.parked j)
    then s
    else if s.announced j && not (s.parked j)
    then record s { told = update s.told j true }
    else record s { parked = update s.parked j false; pc = update s.pc j relocking }

unfoldable pub cv_signal : System → System
unfolding unpark
cv_signal s = elim s.queue [ [] ↦ s | j ∷ rest ↦ unpark j (record s { queue = rest }) ]

-- One step of thread `i`. A thread that waits for the mutex makes no step until it is free.
pub data Step (s : System) : System → Type 0 where
  call_wait : (i : ℕ) → s.pc i ≡ outside → Step s (goto i want_wait s)
  call_post : (i : ℕ) → s.pc i ≡ outside → Step s (goto i want_post s)
  lock_wait :
      (i : ℕ)
      → s.pc i ≡ want_wait
      → s.held ≡ false
      → Step s (goto i testing (record s { held = true }))
  take :
      (i : ℕ)
      → s.pc i ≡ testing
      → is_positive s.value ≡ true
      → Step s (goto i leaving (record s { value = s.value - 1 }))
  wait : (i : ℕ) → s.pc i ≡ testing → is_positive s.value ≡ false → Step s (cv_enqueue i s)
  unlock_wait : (i : ℕ) → s.pc i ≡ enqueued → Step s (goto i unlocked (record s { held = false }))
  do_park : (i : ℕ) → s.pc i ≡ unlocked → Step s (park i s)
  relock :
      (i : ℕ)
      → s.pc i ≡ relocking
      → s.held ≡ false
      → Step s (goto i retesting (record s { held = true }))
  take_again :
      (i : ℕ)
      → s.pc i ≡ retesting
      → is_positive s.value ≡ true
      → Step s (goto i leaving (record s { value = s.value - 1 }))
  wait_again : (i : ℕ) → s.pc i ≡ retesting → is_positive s.value ≡ false → Step s (cv_enqueue i s)
  lock_post :
      (i : ℕ)
      → s.pc i ≡ want_post
      → s.held ≡ false
      → Step s (goto i raising (record s { held = true }))
  raise :
      (i : ℕ)
      → s.pc i ≡ raising
      → Step s (goto i signalling (record s { value = (s.value + 1) % 2 ^ 32 }))
  signal : (i : ℕ) → s.pc i ≡ signalling → Step s (goto i leaving (cv_signal s))
  unlock : (i : ℕ) → s.pc i ≡ leaving → Step s (goto i outside (record s { held = false }))

pub data Reach (initval : ℕ) : System → Type 0 where
  start : Reach initval (sem_init initval)
  later : {s t : System} → Reach initval s → Step s t → Reach initval t
