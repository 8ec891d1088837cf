-- ===== src/Mutex.antt =====
-- user/mutex.c: any number of threads on one mutex, interleaved at every access to what they share.
-- A thread is named by its pid. The guard is the spin lock of user/spinlock.c, the queue that of
-- user/pidqueue.c as the list of its pids, and `announced`, `told` and `parked` are the flags
-- `setPark`, `immediateUnpark` and `isParked` that setpark, park and unpark of kernel/proc.c use.
pub mod Invariant
pub mod Preserved
pub mod Safety
mod Tests
use cs_577_p.Base.{
  ℕ, Bool, true, false, not, ◌&&◌, ◌||◌, List, [], ◌∷◌, ◌++◌, ◌≡◌, if◌then◌else◌, ◌==◌,
}

-- Where a thread stands.
pub data Pc : Type 0 where
  outside : Pc
  testing : Pc  -- in mutex_lock, with the guard, before the test of the flag
  queued : Pc  -- in mutex_lock, with the guard, after queue_add and setpark
  parking : Pc  -- in mutex_lock, the guard given up, before park
  sleeping : Pc  -- in park, off the CPU
  inside : Pc  -- mutex_lock has returned
  leaving : Pc  -- in mutex_unlock, with the guard

pub record System : Type 0 where
  pub flag : Bool
  pub guard : Bool
  pub queue : List ℕ
  pub announced : ℕ → Bool
  pub told : ℕ → Bool
  pub parked : ℕ → Bool
  pub pc : ℕ → Pc

abbrev pub update {ℓ} : {A : Type ℓ} → (ℕ → A) → ℕ → A → ℕ → A
update f i a j = if i == j then a else f j

abbrev pub goto : ℕ → Pc → System → System
goto i p s = record s { pc = update s.pc i p }

-- setpark, called by thread `i`.
unfoldable pub setpark : ℕ → System → System
setpark i s =
    if not (s.told i) && not (s.announced i)
    then record s { announced = update s.announced i true }
    else s

-- park, called by thread `i`: it returns at once if it was told, and else sleeps.
unfoldable pub park : ℕ → System → System
park i s =
    if s.told i
    then record s {
      told = update s.told i false;
      announced = update s.announced i false;
      pc = update s.pc i inside;
    }
    else record s {
      parked = update s.parked i true;
      announced = update s.announced i false;
      pc = update s.pc i sleeping;
    }

-- unpark of thread `j`. A thread that is woken returns from park, and so from mutex_lock.
unfoldable pub unpark : ℕ → System → System
unpark j s =
    if not (s.announced j) && not (s.parked j)
    then s
    else if s.announced j && not (s.parked j)
    then record s { told = update s.told j true }
    else record s { parked = update s.parked j false; pc = update s.pc j inside }

-- One access of thread `i`. A thread that spins on the guard makes no step.
pub data Step (s : System) : System → Type 0 where
  lock_guard :
      (i : ℕ)
      → s.pc i ≡ outside
      → s.guard ≡ false
      → Step s (goto i testing (record s { guard = true }))
  get_flag :
      (i : ℕ)
      → s.pc i ≡ testing
      → s.flag ≡ false
      → Step s (goto i inside (record s { flag = true; guard = false }))
  enqueue :
      (i : ℕ)
      → s.pc i ≡ testing
      → s.flag ≡ true
      → Step s (goto i queued (setpark i (record s { queue = s.queue ++ i ∷ [] })))
  drop_guard : (i : ℕ) → s.pc i ≡ queued → Step s (goto i parking (record s { guard = false }))
  do_park : (i : ℕ) → s.pc i ≡ parking → Step s (park i s)
  start_unlock :
      (i : ℕ)
      → s.pc i ≡ inside
      → s.guard ≡ false
      → Step s (goto i leaving (record s { guard = true }))
  clear_flag :
      (i : ℕ)
      → s.pc i ≡ leaving
      → s.queue ≡ []
      → Step s (goto i outside (record s { flag = false; guard = false }))
  hand_over :
      (i j : ℕ) (rest : List ℕ)
      → s.pc i ≡ leaving
      → s.queue ≡ j ∷ rest
      → Step s (goto i outside (record (unpark j (record s { queue = rest })) { guard = false }))

-- mutex_init, before any thread calls.
abbrev pub mutex_init : System
mutex_init = record {
  flag = false;
  guard = false;
  queue = [];
  announced = λ i. false;
  told = λ i. false;
  parked = λ i. false;
  pc = λ i. outside;
}

pub data Reach : System → Type 0 where
  start : Reach mutex_init
  later : {s t : System} → Reach s → Step s t → Reach t
