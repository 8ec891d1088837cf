-- ===== src/Spinlock/Exclusion.antt =====
-- Several CPUs that share one lock, in any interleaving.
use cs_577_p.Base.{
  ℕ, ◌≡◌, ◌≢◌, refl, Bool, true, false, some, ok, panic, ◌==◌, if◌then◌else◌, arith, inl, inr,
  Bool-cases,
}
use cs_577_p.Spinlock.{Cpu, Lock, unlocked, acquire, release}

pub record System : Type 0 where
  pub lock : Lock
  pub cpus : ℕ → Cpu
  pub inside : ℕ → Bool  -- between the return of acquire and the call of release

abbrev pub update {ℓ} : {A : Type ℓ} → (ℕ → A) → ℕ → A → ℕ → A
update f i a j = if i == j then a else f j

-- CPUs with their own numbers, nothing nested, and the lock free.
abbrev pub boot : (ℕ → Bool) → System
boot flags = record {
  lock = unlocked;
  cpus = λ i. record { id = i; ncli = 0; intena = false; flag_if = flags i };
  inside = λ i. false;
}

-- A CPU that spins stays where it is, so it makes no step.
pub data Step (s : System) : System → Type 0 where
  enter :
      (i : ℕ) {l : Lock} {c : Cpu}
      → s.inside i ≡ false
      → acquire s.lock (s.cpus i) ≡ ok (l, c)
      → Step s (record { lock = l; cpus = update s.cpus i c; inside = update s.inside i true })
  leave :
      (i : ℕ) {l : Lock} {c : Cpu}
      → s.inside i ≡ true
      → release s.lock (s.cpus i) ≡ ok (l, c)
      → Step s (record { lock = l; cpus = update s.cpus i c; inside = update s.inside i false })

pub data Reach (flags : ℕ → Bool) : System → Type 0 where
  start : Reach flags (boot flags)
  later : {s t : System} → Reach flags s → Step s t → Reach flags t

pub record Inv (s : System) : Type 0 where
  pub own_id : (i : ℕ) → (s.cpus i).id ≡ i
  pub holder : (i : ℕ) → s.inside i ≡ true → (s.lock.locked ≡ true) × (s.lock.cpu ≡ some i)
  pub nested : (i : ℕ) → s.inside i ≡ true → ((s.cpus i).ncli ≡ 1) × ((s.cpus i).flag_if ≡ false)
  pub plain : (i : ℕ) → s.inside i ≡ false → (s.cpus i).ncli ≡ 0

boot-Inv : (flags : ℕ → Bool) → Inv (boot flags)
boot-Inv flags = record {
  own_id = λ i. refl;
  holder = λ i h. absurd (ground arith);
  nested = λ i h. absurd (ground arith);
  plain = λ i h. refl;
}

Step-Inv : {s t : System} → Step s t → Inv s → Inv t
unfolding acquire release
Step-Inv {s} (enter i out e) v = record {
  own_id = λ j. ground (arith, v.own_id j, v.own_id i);
  holder = λ j h. ground (arith, v.own_id i, v.holder j);
  nested = λ j h. ground (arith, v.nested j, v.plain i);
  plain = λ j h. ground (arith, v.plain j);
}
Step-Inv {s} (leave i inn e) v = record {
  own_id = λ j. ground (arith, v.own_id j, v.own_id i);
  holder = λ j h. ground (arith, v.own_id i, v.holder j, v.holder i);
  nested = λ j h. ground (arith, v.nested j);
  plain = λ j h. ground (arith, v.plain j, v.nested i inn);
}

pub Reach-Inv : {flags : ℕ → Bool} {s : System} → Reach flags s → Inv s
Reach-Inv {flags} start = boot-Inv flags
Reach-Inv (later r st) = Step-Inv st (Reach-Inv r)

-- In every reachable state, while one CPU is between acquire and release no other is.
pub cpu_exclusion :
    {flags : ℕ → Bool} {s : System}
    → Reach flags s
    → (i j : ℕ) → i ≢ j
    → s.inside i ≡ true
    → s.inside j ≡ false
cpu_exclusion {s = s} r i j ne hi = elim (Bool-cases (s.inside j)) [
  | inl hj ↦ absurd (ground (arith, (Reach-Inv r).holder i hi, (Reach-Inv r).holder j hj))
  | inr out ↦ out
]

-- In every reachable state, the CPU that is between acquire and release has its interrupts off, its
-- release succeeds and frees the lock, and its second acquire would panic.
pub inside_lem :
    {flags : ℕ → Bool} {s : System}
    → Reach flags s
    → (i : ℕ) → s.inside i ≡ true
    → ((s.cpus i).flag_if ≡ false)
      × ((c : Cpu) × (release s.lock (s.cpus i) ≡ ok (unlocked, c)) × (c.ncli ≡ 0))
      × (acquire s.lock (s.cpus i) ≡ panic)
unfolding acquire release
inside_lem {s = s} r i hi =
    let v = Reach-Inv r in
    (
      (v.nested i hi).1,
      (
        record (s.cpus i) { ncli = 0; flag_if = (s.cpus i).intena },
        ground (arith, v.nested i hi, v.holder i hi, v.own_id i),
        refl,
      ),
      ground (arith, v.holder i hi, v.own_id i),
    )
