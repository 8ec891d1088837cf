-- ===== src/Sem/Invariant.antt =====
-- What holds of the semaphore in every reachable state.
use cs_577_p.Base.{
  ℕ, ◌+◌, ◌^◌, ltb, if◌then◌else◌, ◌≤◌, ◌<◌, Bool, true, false, not, List, [], ◌≡◌, refl, arith,
  ◌⊎◌, length,
}
use cs_577_p.Mutex.Invariant.{elem, Distinct}
use cs_577_p.Sem.{
  Pc, testing, enqueued, unlocked, asleep, relocking, retesting, raising, signalling, leaving,
  System, sem_init,
}

-- The thread has the mutex.
abbrev pub has_mutex : Pc → Bool
has_mutex testing = true
has_mutex enqueued = true
has_mutex retesting = true
has_mutex raising = true
has_mutex signalling = true
has_mutex leaving = true
has_mutex _ = false

abbrev pub may_announce : Pc → Bool
may_announce enqueued = true
may_announce unlocked = true
may_announce _ = false

abbrev pub is_asleep : Pc → Bool
is_asleep asleep = true
is_asleep _ = false

abbrev pub is_unlocked : Pc → Bool
is_unlocked unlocked = true
is_unlocked _ = false

-- The thread waits for a signal.
abbrev pub waits : Pc → Bool → Bool
waits enqueued t = true
waits unlocked t = not t
waits asleep t = true
waits _ t = false

-- The thread has had a signal and has not tested the value since.
abbrev pub woken : Pc → Bool → Bool
woken unlocked t = t
woken relocking t = true
woken retesting t = true
woken _ t = false

-- How many threads may get past the test: a negative value lets none.
abbrev pub avail : ℕ → ℕ
avail v = if ltb v (2 ^ 31) then v else 0

-- The value is covered by the `n` woken threads, and by one whose signal is still to come.
abbrev pub Covered : System → ℕ → Type 0
Covered s n = (avail s.value ≤ n) ⊎ ((i : ℕ) × (s.pc i ≡ signalling) × (avail s.value ≤ n + 1))

-- `w` are the woken threads.
pub record Inv (initval : ℕ) (s : System) (w : List ℕ) : Type 0 where
  pub announced_iff : (i : ℕ) → s.announced i ≡ may_announce (s.pc i)
  pub parked_iff : (i : ℕ) → s.parked i ≡ is_asleep (s.pc i)
  pub told_unlocked : (i : ℕ) → s.told i ≡ true → is_unlocked (s.pc i) ≡ true
  pub mutex_held : (i : ℕ) → has_mutex (s.pc i) ≡ true → s.held ≡ true
  pub mutex_one : (i j : ℕ) → has_mutex (s.pc i) ≡ true → has_mutex (s.pc j) ≡ true → i ≡ j
  pub waits_iff : (i : ℕ) → elem i s.queue ≡ waits (s.pc i) (s.told i)
  pub distinct : Distinct s.queue
  pub woken_iff : (i : ℕ) → elem i w ≡ woken (s.pc i) (s.told i)
  pub woken_distinct : Distinct w
  pub word : s.value < 2 ^ 32
  pub covered : (a : ℕ) → elem a s.queue ≡ true → Covered s (length w)

pub init-Inv : (initval : ℕ) → Inv initval (sem_init initval) []
init-Inv initval = record {
  announced_iff = λ i. refl;
  parked_iff = λ i. refl;
  told_unlocked = λ i h. absurd (ground arith);
  mutex_held = λ i h. absurd (ground arith);
  mutex_one = λ i j h h'. absurd (ground arith);
  waits_iff = λ i. refl;
  distinct = tt;
  woken_iff = λ i. refl;
  woken_distinct = tt;
  word = omega arith;
  covered = λ a h. absurd (ground arith);
}
