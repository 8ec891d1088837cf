-- ===== src/Mutex/Invariant.antt =====
-- What holds of the mutex in every reachable state.
use cs_577_p.Base.{
  ℕ, Bool, true, false, not, ◌||◌, List, [], ◌∷◌, ◌++◌, ◌≡◌, refl, arith, ◌==◌, inl, inr, ◌⊎◌,
}
use cs_577_p.Mutex.{
  Pc, outside, testing, queued, parking, sleeping, inside, leaving, System, update, goto, unpark,
  mutex_init,
}

abbrev pub elem : ℕ → List ℕ → Bool
elem i [] = false
elem i (x ∷ xs) = (x == i) || elem i xs

abbrev pub Distinct : List ℕ → Type 0
Distinct [] = Unit
Distinct (x ∷ xs) = (elem x xs ≡ false) × Distinct xs

pub elem-append : (i j : ℕ) (xs : List ℕ) → elem i (xs ++ j ∷ []) ≡ (elem i xs || (j == i))
elem-append i j [] = ground arith
elem-append i j (x ∷ xs) = ground (arith, elem-append i j xs)

pub Distinct-append :
    (j : ℕ) (xs : List ℕ) → elem j xs ≡ false → Distinct xs → Distinct (xs ++ j ∷ [])
Distinct-append j [] n d = (refl, tt)
Distinct-append j (x ∷ xs) n d =
    (ground (arith, elem-append x j xs), Distinct-append j xs (ground arith) d.1)

-- A thread owns the mutex: mutex_lock has returned or is about to, without a further test.
abbrev pub owns : Pc → Bool → Bool
owns inside t = true
owns leaving t = true
owns parking t = t
owns _ t = false

abbrev pub waits : Pc → Bool → Bool
waits queued t = true
waits parking t = not t
waits sleeping t = true
waits _ t = false

abbrev pub has_guard : Pc → Bool
has_guard testing = true
has_guard queued = true
has_guard leaving = true
has_guard _ = false

abbrev pub may_announce : Pc → Bool
may_announce queued = true
may_announce parking = true
may_announce _ = false

abbrev pub is_asleep : Pc → Bool
is_asleep sleeping = true
is_asleep _ = false

abbrev pub is_parking : Pc → Bool
is_parking parking = true
is_parking _ = false

pub record Inv (s : System) : Type 0 where
  pub announced_iff : (i : ℕ) → s.announced i ≡ may_announce (s.pc i)
  pub parked_iff : (i : ℕ) → s.parked i ≡ is_asleep (s.pc i)
  pub told_parking : (i : ℕ) → s.told i ≡ true → is_parking (s.pc i) ≡ true
  pub guard_held : (i : ℕ) → has_guard (s.pc i) ≡ true → s.guard ≡ true
  pub guard_one : (i j : ℕ) → has_guard (s.pc i) ≡ true → has_guard (s.pc j) ≡ true → i ≡ j
  pub waits_iff : (i : ℕ) → elem i s.queue ≡ waits (s.pc i) (s.told i)
  pub distinct : Distinct s.queue
  pub owns_flag : (i : ℕ) → owns (s.pc i) (s.told i) ≡ true → s.flag ≡ true
  pub owns_one :
      (i j : ℕ) → owns (s.pc i) (s.told i) ≡ true → owns (s.pc j) (s.told j) ≡ true → i ≡ j
  pub queue_flag : (i : ℕ) → elem i s.queue ≡ true → s.flag ≡ true
  pub owner : s.flag ≡ true → (i : ℕ) × (owns (s.pc i) (s.told i) ≡ true)

pub init-Inv : Inv mutex_init
init-Inv = record {
  announced_iff = λ i. refl;
  parked_iff = λ i. refl;
  told_parking = λ i h. absurd (ground arith);
  guard_held = λ i h. absurd (ground arith);
  guard_one = λ i j h h'. absurd (ground arith);
  waits_iff = λ i. refl;
  distinct = tt;
  owns_flag = λ i h. absurd (ground arith);
  owns_one = λ i j h h'. absurd (ground arith);
  queue_flag = λ i h. absurd (ground arith);
  owner = λ h. absurd (ground arith);
}

-- The first in the queue, when the owner has the guard: it is about to park, or sleeps.
pub first_waits :
    (s : System) (i j : ℕ) (rest : List ℕ)
    → s.pc i ≡ leaving
    → s.queue ≡ j ∷ rest
    → Inv s
    → ((s.pc j ≡ parking) × (s.told j ≡ false)) ⊎ ((s.pc j ≡ sleeping) × (s.told j ≡ false))
first_waits s i j rest p e v = by_pc (s.pc j) (s.told j) refl refl waiting
  where
    waiting : waits (s.pc j) (s.told j) ≡ true
    waiting = ground (arith, v.waits_iff j)

    by_pc :
        (c : Pc) (t : Bool)
        → s.pc j ≡ c
        → s.told j ≡ t
        → waits (s.pc j) (s.told j) ≡ true
        → ((s.pc j ≡ parking) × (s.told j ≡ false)) ⊎ ((s.pc j ≡ sleeping) × (s.told j ≡ false))
    by_pc parking false q q' w = inl (q, q')
    by_pc sleeping false q q' w = inr (q, q')
    by_pc sleeping true q q' w = absurd (ground (arith, v.told_parking j))
    by_pc queued t q q' w = absurd (ground (arith, v.guard_one i j))
    by_pc c t q q' w = absurd (ground arith)

-- The state after a hand-over, in the two cases.
module _ (s : System) (i j : ℕ) (rest : List ℕ) (p : s.pc i ≡ leaving) (e : s.queue ≡ j ∷ rest)
    (v : Inv s) where
  first-Distinct : (elem j rest ≡ false) × Distinct rest
  first-Distinct = rw e at v.distinct

  others : (a : ℕ) → (j == a) || elem a rest ≡ waits (s.pc a) (s.told a)
  others a = rw e at (v.waits_iff a)

  abbrev handed_parking : System
  handed_parking =
      goto i outside (record s { queue = rest; told = update s.told j true; guard = false })

  abbrev handed_sleeping : System
  handed_sleeping = goto i outside (record s {
    queue = rest;
    parked = update s.parked j false;
    pc = update s.pc j inside;
    guard = false;
  })

  parking-Inv : s.pc j ≡ parking → s.told j ≡ false → Inv handed_parking
  parking-Inv q t = record {
    announced_iff = λ a. ground (arith, v.announced_iff a, p);
    parked_iff = λ a. ground (arith, v.parked_iff a, p);
    told_parking = λ a h. ground (arith, v.told_parking a, p, q);
    guard_held = λ a h. ground (arith, v.guard_one a i);
    guard_one = λ a b h h'. ground (arith, v.guard_one a b);
    waits_iff = λ a. ground (arith, others a, first-Distinct.0);
    distinct = first-Distinct.1;
    owns_flag = λ a h. ground (arith, v.owns_flag a, v.owns_flag i);
    owns_one = λ a b h h'. ground (arith, v.owns_one a i, v.owns_one b i);
    queue_flag = λ a h. v.owns_flag i (ground arith);
    owner = λ h. (j, ground arith);
  }

  sleeping-Inv : s.pc j ≡ sleeping → s.told j ≡ false → Inv handed_sleeping
  sleeping-Inv q t = record {
    announced_iff = λ a. ground (arith, v.announced_iff a, p);
    parked_iff = λ a. ground (arith, v.parked_iff a, p);
    told_parking = λ a h. ground (arith, v.told_parking a, p, q);
    guard_held = λ a h. ground (arith, v.guard_one a i);
    guard_one = λ a b h h'. ground (arith, v.guard_one a b);
    waits_iff = λ a. ground (arith, others a, first-Distinct.0);
    distinct = first-Distinct.1;
    owns_flag = λ a h. ground (arith, v.owns_flag a, v.owns_flag i);
    owns_one = λ a b h h'. ground (arith, v.owns_one a i, v.owns_one b i);
    queue_flag = λ a h. v.owns_flag i (ground arith);
    owner = λ h. (j, ground arith);
  }

  pub hand_over-Inv :
      Inv (goto i outside (record (unpark j (record s { queue = rest })) { guard = false }))
  unfolding unpark
  hand_over-Inv = elim (first_waits s i j rest p e v) [
    | inl (q, t) ↦
        let a : s.announced j ≡ true = ground (arith, v.announced_iff j) in
        let b : s.parked j ≡ false = ground (arith, v.parked_iff j) in rw (a, b) (parking-Inv q t)
    | inr (q, t) ↦
        let a : s.announced j ≡ false = ground (arith, v.announced_iff j) in
        let b : s.parked j ≡ true = ground (arith, v.parked_iff j) in rw (a, b) (sleeping-Inv q t)
  ]
