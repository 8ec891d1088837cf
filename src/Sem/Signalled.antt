-- ===== src/Sem/Signalled.antt =====
-- cv_signal at the end of sem_post keeps the invariant of the semaphore.
use cs_577_p.Base.{
  ℕ, ◌≤◌, suc, Bool, true, false, List, [], ◌∷◌, ◌≡◌, refl, ap, arith, ◌⊎◌, ◌==◌, inl, inr, length,
  ◌||◌,
}
use cs_577_p.Mutex.Invariant.{elem, Distinct}
use cs_577_p.Mutex.{update}
use cs_577_p.Sem.{
  Pc, unlocked, asleep, enqueued, relocking, signalling, leaving, System, goto, unpark, cv_signal,
}
use cs_577_p.Sem.Invariant.{Inv, avail, waits}

-- The first in the queue, when a thread is about to signal: it is about to park, or sleeps.
pub first_waits :
    (n : ℕ) (s : System) (w : List ℕ) (i j : ℕ) (rest : List ℕ)
    → s.pc i ≡ signalling
    → s.queue ≡ j ∷ rest
    → Inv n s w
    → ((s.pc j ≡ unlocked) × (s.told j ≡ false)) ⊎ ((s.pc j ≡ asleep) × (s.told j ≡ false))
first_waits n s w i j rest p e v = by_pc (s.pc j) (s.told j) refl refl waiting
  where
    waiting : waits (s.pc j) (s.told j) ≡ true
    waiting = ground (arith, v.waits_iff j)

    by_pc :
        (c : Pc) (t : Bool)
        → s.pc j ≡ c
        → s.told j ≡ t
        → waits (s.pc j) (s.told j) ≡ true
        → ((s.pc j ≡ unlocked) × (s.told j ≡ false)) ⊎ ((s.pc j ≡ asleep) × (s.told j ≡ false))
    by_pc unlocked false q q' w = inl (q, q')
    by_pc asleep false q q' w = inr (q, q')
    by_pc asleep true q q' w = absurd (ground (arith, v.told_unlocked j))
    by_pc enqueued t q q' w = absurd (ground (arith, v.mutex_one i j))
    by_pc c t q q' w = absurd (ground arith)

-- Nobody waits: the signal is lost, and need not be kept.
pub unheard-Inv :
    (n : ℕ) (s : System) (w : List ℕ) (i : ℕ)
    → s.pc i ≡ signalling
    → s.queue ≡ []
    → Inv n s w
    → Inv n (goto i leaving s) w
unheard-Inv n s w i p e v = record {
  announced_iff = λ a. ground (arith, v.announced_iff a);
  parked_iff = λ a. ground (arith, v.parked_iff a);
  told_unlocked = λ a t. ground (arith, v.told_unlocked a);
  mutex_held = λ a m. v.mutex_held i (ground arith);
  mutex_one = λ a b m m'. ground (arith, v.mutex_one a b, v.mutex_one a i, v.mutex_one i b);
  waits_iff = λ a. ground (arith, v.waits_iff a);
  distinct = v.distinct;
  woken_iff = λ a. ground (arith, v.woken_iff a);
  woken_distinct = v.woken_distinct;
  word = ground (arith, v.word);
  covered = λ a m. absurd (cc (ap (elem a) e));
}

-- Thread `j` is the first that waits.
module _ (n : ℕ) (s : System) (w : List ℕ) (i j : ℕ) (rest : List ℕ) (p : s.pc i ≡ signalling)
    (e : s.queue ≡ j ∷ rest) (v : Inv n s w) where
  first-Distinct : (elem j rest ≡ false) × Distinct rest
  first-Distinct = rw e at v.distinct

  others : (a : ℕ) → (j == a) || elem a rest ≡ waits (s.pc a) (s.told a)
  others a = rw e at (v.waits_iff a)

  -- One more is woken, so the value is covered without the signal.
  enough : avail s.value ≤ suc (length w)
  enough = elim (v.covered j (ground arith)) [ inl le ↦ omega arith | inr (k, q, le) ↦ omega arith ]

  abbrev told_first : System
  told_first = goto i leaving (record s { queue = rest; told = update s.told j true })

  abbrev woken_first : System
  woken_first =
      goto i leaving
        (record s { queue = rest; parked = update s.parked j false; pc = update s.pc j relocking })

  told-Inv : s.pc j ≡ unlocked → s.told j ≡ false → Inv n told_first (j ∷ w)
  told-Inv q t = record {
    announced_iff = λ a. ground (arith, v.announced_iff a);
    parked_iff = λ a. ground (arith, v.parked_iff a);
    told_unlocked = λ a h. ground (arith, v.told_unlocked a);
    mutex_held = λ a h. v.mutex_held i (ground arith);
    mutex_one = λ a b h h'. ground (arith, v.mutex_one a b, v.mutex_one a i, v.mutex_one i b);
    waits_iff = λ a. ground (arith, others a, first-Distinct.0);
    distinct = first-Distinct.1;
    woken_iff = λ a. ground (arith, v.woken_iff a);
    woken_distinct = (ground (arith, v.woken_iff j), v.woken_distinct);
    word = ground (arith, v.word);
    covered = λ a h. inl enough;
  }

  woken-Inv : s.pc j ≡ asleep → s.told j ≡ false → Inv n woken_first (j ∷ w)
  woken-Inv q t = record {
    announced_iff = λ a. ground (arith, v.announced_iff a);
    parked_iff = λ a. ground (arith, v.parked_iff a);
    told_unlocked = λ a h. ground (arith, v.told_unlocked a);
    mutex_held = λ a h. v.mutex_held i (ground arith);
    mutex_one = λ a b h h'. ground (arith, v.mutex_one a b, v.mutex_one a i, v.mutex_one i b);
    waits_iff = λ a. ground (arith, others a, first-Distinct.0);
    distinct = first-Distinct.1;
    woken_iff = λ a. ground (arith, v.woken_iff a);
    woken_distinct = (ground (arith, v.woken_iff j), v.woken_distinct);
    word = ground (arith, v.word);
    covered = λ a h. inl enough;
  }

  heard-Inv : Inv n (goto i leaving (unpark j (record s { queue = rest }))) (j ∷ w)
  unfolding unpark
  heard-Inv = elim (first_waits n s w i j rest p e v) [
    | inl (q, t) ↦
        let a : s.announced j ≡ true = ground (arith, v.announced_iff j) in
        let b : s.parked j ≡ false = ground (arith, v.parked_iff j) in rw (a, b) (told-Inv q t)
    | inr (q, t) ↦
        let a : s.announced j ≡ false = ground (arith, v.announced_iff j) in
        let b : s.parked j ≡ true = ground (arith, v.parked_iff j) in rw (a, b) (woken-Inv q t)
  ]

pub signal-Inv :
    (n : ℕ) (s : System) (w : List ℕ) (i : ℕ)
    → s.pc i ≡ signalling
    → Inv n s w
    → (w' : List ℕ) × Inv n (goto i leaving (cv_signal s)) w'
unfolding cv_signal
signal-Inv n s w i p v = by_queue s.queue refl
  where
    by_queue :
        (q : List ℕ)
        → s.queue ≡ q
        → (w' : List ℕ) × Inv n
            (goto i leaving (elim q [ [] ↦ s | j ∷ rest ↦ unpark j (record s { queue = rest }) ]))
            w'
    by_queue [] e = (w, unheard-Inv n s w i p e v)
    by_queue (j ∷ rest) e = (j ∷ w, heard-Inv n s w i j rest p e v)
