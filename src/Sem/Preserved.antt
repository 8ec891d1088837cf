-- ===== src/Sem/Preserved.antt =====
-- Every step of a thread keeps the invariant of the semaphore.
use cs_577_p.Base.{
  ℕ, ◌+◌, ◌-◌, ◌%◌, ◌^◌, ltb, false, ◌≤◌, ◌<◌, Bool, true, List, ◌≡◌, ◌≢◌, refl, sym, suc, ◌∙◌,
  arith, ◌⊎◌, ◌==◌, inl, inr, length, Bool-cases,
}
use mathlib.Core.Path.{subst}
use cs_577_p.Mutex.Invariant.{elem, elem-append, Distinct-append}
use cs_577_p.Mutex.{update}
use cs_577_p.Sem.{
  Pc, testing, unlocked, retesting, raising, signalling, leaving, System, goto, cv_enqueue, park,
  is_positive,
}
use cs_577_p.Sem.Members.{remove, elem-remove, length-remove, Distinct-remove}
use cs_577_p.Sem.Invariant.{
  Inv, Covered, avail, has_mutex, may_announce, is_asleep, is_unlocked, waits, woken,
}

raised-avail : (x m : ℕ) → x < 2 ^ 32 → avail x ≤ m → avail ((x + 1) % 2 ^ 32) ≤ m + 1
raised-avail x m b h = elim (Bool-cases (ltb x (2 ^ 31 - 1))) [
  | inl e ↦ ground arith
  | inr e ↦ ground arith
]

-- A step of `i` that is at `p` and not signalling, to a place that is.
Covered-goto :
    (s t : System) (n : ℕ) (i : ℕ)
    → s.pc i ≢ signalling
    → ((j : ℕ) → i ≢ j → t.pc j ≡ s.pc j)
    → t.value ≡ s.value
    → Covered s n
    → Covered t n
Covered-goto s t n i p keep e (inl h) = inl (subst (λ x. avail x ≤ n) (sym e) h)
Covered-goto s t n i p keep e (inr (j, q, h)) =
    inr (j, keep j (λ (z : i ≡ j). p (rw z q)) ∙ q, subst (λ x. avail x ≤ n + 1) (sym e) h)

-- A step of `i` to `q` that changes at most who has the mutex.
module _ {n : ℕ} {s : System} {w : List ℕ} (v : Inv n s w) (i : ℕ) (q : Pc) (h : Bool)
    (same_announce : may_announce q ≡ may_announce (s.pc i))
    (same_asleep : is_asleep q ≡ is_asleep (s.pc i))
    (same_waits : waits q (s.told i) ≡ waits (s.pc i) (s.told i))
    (same_woken : woken q (s.told i) ≡ woken (s.pc i) (s.told i))
    (told : s.told i ≡ true → is_unlocked q ≡ true)
    (gain : has_mutex q ≡ true → (h ≡ true) × ((a : ℕ) → has_mutex (s.pc a) ≡ true → i ≡ a))
    (keep : (a : ℕ) → i ≢ a → has_mutex (s.pc a) ≡ true → h ≡ true)
    (quiet : s.pc i ≢ signalling) where
  pub goto-Inv : Inv n (goto i q (record s { held = h })) w
  goto-Inv = record {
    announced_iff = λ a. ground (arith, v.announced_iff a);
    parked_iff = λ a. ground (arith, v.parked_iff a);
    told_unlocked = λ a t. ground (arith, v.told_unlocked a);
    mutex_held = λ a m. ground (arith, keep a, gain);
    mutex_one = λ a b m m'. one a b m m';
    waits_iff = λ a. ground (arith, v.waits_iff a);
    distinct = v.distinct;
    woken_iff = λ a. ground (arith, v.woken_iff a);
    woken_distinct = v.woken_distinct;
    word = v.word;
    covered = λ a e.
        Covered-goto s (goto i q (record s { held = h })) (length w) i quiet (λ j ne. ground arith)
          refl (v.covered a e);
  }
    where
      one :
          (a b : ℕ)
          → has_mutex (update s.pc i q a) ≡ true
          → has_mutex (update s.pc i q b) ≡ true
          → a ≡ b
      one a b m m' = elim (Bool-cases (i == a)) [
        | inl x ↦ elim (Bool-cases (i == b)) [
          | inl y ↦ ground arith
          | inr y ↦ let g = (gain (rw x at m)).1 b (rw y at m') in ground (arith, g)
        ]
        | inr x ↦ elim (Bool-cases (i == b)) [
          | inl y ↦ let g = (gain (rw y at m')).1 a (rw x at m) in ground (arith, g)
          | inr y ↦ v.mutex_one a b (rw x at m) (rw y at m')
        ]
      ]

-- The test succeeds, for a thread that was not woken, and for one that was.
abbrev pub taken : System → ℕ → System
taken s i = goto i leaving (record s { value = s.value - 1 })

module _ {n : ℕ} {s : System} {w : List ℕ} (v : Inv n s w) (i : ℕ)
    (some_left : is_positive s.value ≡ true) where
  -- With the mutex at a test, no thread is signalling.
  covered_now :
      (s.pc i ≡ testing) ⊎ (s.pc i ≡ retesting)
      → (a : ℕ) → elem a s.queue ≡ true
      → avail s.value ≤ length w
  covered_now p a e = elim (v.covered a e) [
    | inl le ↦ le
    | inr (j, q, le) ↦ absurd (elim p [
      | inl t ↦ ground (arith, v.mutex_one i j)
      | inr t ↦ ground (arith, v.mutex_one i j)
    ])
  ]

  fewer : (m : ℕ) → avail s.value ≤ m → avail (s.value - 1) ≤ m
  fewer m h = ground (arith, some_left)

  less : (m m' : ℕ) → avail s.value ≤ m → m ≡ suc m' → avail (s.value - 1) ≤ m'
  less m m' h e = ground (arith, some_left)

  pub take-Inv : s.pc i ≡ testing → Inv n (taken s i) w
  take-Inv p = record {
    announced_iff = λ a. ground (arith, v.announced_iff a);
    parked_iff = λ a. ground (arith, v.parked_iff a);
    told_unlocked = λ a t. ground (arith, v.told_unlocked a);
    mutex_held = λ a m. v.mutex_held i (ground arith);
    mutex_one = λ a b m m'. ground (arith, v.mutex_one a b, v.mutex_one a i, v.mutex_one i b);
    waits_iff = λ a. ground (arith, v.waits_iff a);
    distinct = v.distinct;
    woken_iff = λ a. ground (arith, v.woken_iff a);
    woken_distinct = v.woken_distinct;
    word = ground (arith, v.word, some_left);
    covered = λ a e. inl (fewer (length w) (covered_now (inl p) a e));
  }

  pub take_again-Inv : s.pc i ≡ retesting → Inv n (taken s i) (remove i w)
  take_again-Inv p = record {
    announced_iff = λ a. ground (arith, v.announced_iff a);
    parked_iff = λ a. ground (arith, v.parked_iff a);
    told_unlocked = λ a t. ground (arith, v.told_unlocked a);
    mutex_held = λ a m. v.mutex_held i (ground arith);
    mutex_one = λ a b m m'. ground (arith, v.mutex_one a b, v.mutex_one a i, v.mutex_one i b);
    waits_iff = λ a. ground (arith, v.waits_iff a);
    distinct = v.distinct;
    woken_iff = λ a. ground (arith, v.woken_iff a, elem-remove a i w v.woken_distinct);
    woken_distinct = Distinct-remove i w v.woken_distinct;
    word = ground (arith, v.word, some_left);
    covered = λ a e. inl (
        less (length w) (length (remove i w)) (covered_now (inr p) a e)
          (length-remove i w (ground (arith, v.woken_iff i))));
  }

module _ {n : ℕ} {s : System} {w : List ℕ} (v : Inv n s w) (i : ℕ)
    (empty : is_positive s.value ≡ false) where
  pub wait-Inv : s.pc i ≡ testing → Inv n (cv_enqueue i s) w
  unfolding cv_enqueue
  wait-Inv p = record {
    announced_iff = λ a. ground (arith, v.announced_iff a, v.announced_iff i, v.told_unlocked i);
    parked_iff = λ a. ground (arith, v.parked_iff a);
    told_unlocked = λ a t. ground (arith, v.told_unlocked a);
    mutex_held = λ a m. ground (arith, v.mutex_held i);
    mutex_one = λ a b m m'. ground (arith, v.mutex_one a b, v.mutex_one a i, v.mutex_one i b);
    waits_iff = λ a. ground (arith, v.waits_iff a, elem-append a i s.queue);
    distinct = ground (arith, Distinct-append i s.queue, v.waits_iff i, v.distinct);
    woken_iff = λ a. ground (arith, v.woken_iff a);
    woken_distinct = v.woken_distinct;
    word = ground (arith, v.word);
    covered = λ a e. inl (ground arith);
  }

  pub wait_again-Inv : s.pc i ≡ retesting → Inv n (cv_enqueue i s) (remove i w)
  unfolding cv_enqueue
  wait_again-Inv p = record {
    announced_iff = λ a. ground (arith, v.announced_iff a, v.announced_iff i, v.told_unlocked i);
    parked_iff = λ a. ground (arith, v.parked_iff a);
    told_unlocked = λ a t. ground (arith, v.told_unlocked a);
    mutex_held = λ a m. ground (arith, v.mutex_held i);
    mutex_one = λ a b m m'. ground (arith, v.mutex_one a b, v.mutex_one a i, v.mutex_one i b);
    waits_iff = λ a. ground (arith, v.waits_iff a, elem-append a i s.queue);
    distinct = ground (arith, Distinct-append i s.queue, v.waits_iff i, v.distinct);
    woken_iff = λ a. ground (arith, v.woken_iff a, elem-remove a i w v.woken_distinct);
    woken_distinct = Distinct-remove i w v.woken_distinct;
    word = ground (arith, v.word);
    covered = λ a e. inl (ground arith);
  }

module _ {n : ℕ} {s : System} {w : List ℕ} (v : Inv n s w) (i : ℕ) where
  pub park-Inv : s.pc i ≡ unlocked → Inv n (park i s) w
  unfolding park
  park-Inv p = record {
    announced_iff = λ a. ground (arith, v.announced_iff a);
    parked_iff = λ a. ground (arith, v.parked_iff a);
    told_unlocked = λ a t. ground (arith, v.told_unlocked a);
    mutex_held = λ a m. ground (arith, v.mutex_held a);
    mutex_one = λ a b m m'. ground (arith, v.mutex_one a b);
    waits_iff = λ a. ground (arith, v.waits_iff a);
    distinct = ground (arith, v.distinct);
    woken_iff = λ a. ground (arith, v.woken_iff a);
    woken_distinct = v.woken_distinct;
    word = ground (arith, v.word);
    covered = λ a e.
        Covered-goto s (park i s) (length w) i (λ z. ground arith) (λ j ne. ground arith)
          (ground arith) (v.covered a (ground arith));
  }

  abbrev pub raised : System
  raised = goto i signalling (record s { value = (s.value + 1) % 2 ^ 32 })

  pub raise-Inv : s.pc i ≡ raising → Inv n raised w
  raise-Inv p = record {
    announced_iff = λ a. ground (arith, v.announced_iff a);
    parked_iff = λ a. ground (arith, v.parked_iff a);
    told_unlocked = λ a t. ground (arith, v.told_unlocked a);
    mutex_held = λ a m. v.mutex_held i (ground arith);
    mutex_one = λ a b m m'. ground (arith, v.mutex_one a b, v.mutex_one a i, v.mutex_one i b);
    waits_iff = λ a. ground (arith, v.waits_iff a);
    distinct = v.distinct;
    woken_iff = λ a. ground (arith, v.woken_iff a);
    woken_distinct = v.woken_distinct;
    word = omega arith;
    covered = λ a e. inr (i, ground arith, raised-avail s.value (length w) v.word (enough a e));
  }
    where
      enough : (a : ℕ) → elem a s.queue ≡ true → avail s.value ≤ length w
      enough a e = elim (v.covered a e) [
        | inl le ↦ le
        | inr (j, q, le) ↦ absurd (ground (arith, v.mutex_one i j))
      ]
