-- ===== src/Spinlock/Laws.antt =====
-- The behaviour of one acquire and release, and of nested pushcli and popcli.
use cs_577_p.Base.{
  ℕ, zero, suc, ◌-◌, ◌<◌, ◌≡◌, refl, true, false, ◌&&◌, some, Outcome, ok, panic, spin, ◌>>=◌, ◌==◌,
  arith,
}
use cs_577_p.Spinlock.{Cpu, Lock, unlocked, holding, pushcli, popcli, acquire, release}

-- Interrupts are off while anything is nested.
abbrev pub IsNested : Cpu → Type 0
IsNested c = 0 < c.ncli → c.flag_if ≡ false

-- `n` calls of pushcli.
pub push_n : ℕ → Cpu → Cpu
push_n zero c = c
push_n (suc n) c = push_n n (pushcli c)

pub pop_n : ℕ → Cpu → Outcome Cpu
pop_n zero c = ok c
pop_n (suc n) c = pop_n n c >>= popcli

-- popcli undoes a pushcli: the nesting and the interrupt flag are what they were.
pub popcli-pushcli :
    (c : Cpu)
    → IsNested c
    → (d : Cpu) × (popcli (pushcli c) ≡ ok d)
      × (d.id ≡ c.id)
      × (d.ncli ≡ c.ncli)
      × (d.flag_if ≡ c.flag_if)
unfolding popcli pushcli
popcli-pushcli c n =
    (record (pushcli c) { ncli = c.ncli; flag_if = c.flag_if }, ground arith, refl, refl, refl)

-- acquire succeeds exactly on a free lock.
pub acquire_free :
    (l : Lock) (c : Cpu)
    → l.locked ≡ false
    → acquire l c ≡ ok (record { locked = true; cpu = some c.id }, pushcli c)
unfolding acquire
acquire_free l c h = ground arith

pub acquire_again : (l : Lock) (c : Cpu) → holding l c ≡ true → acquire l c ≡ panic
unfolding acquire
acquire_again l c h = ground arith

pub acquire_busy : (l : Lock) (c : Cpu) → l.locked ≡ true → holding l c ≡ false → acquire l c ≡ spin
unfolding acquire
acquire_busy l c h k = ground arith

-- A release after an acquire never panics.
pub release-acquire :
    (l : Lock) (c : Cpu)
    → IsNested c
    → l.locked ≡ false
    → (d : Cpu) × ((acquire l c >>= λ r. release r.0 r.1) ≡ ok (unlocked, d))
      × (d.ncli ≡ c.ncli)
      × (d.flag_if ≡ c.flag_if)
unfolding acquire release
release-acquire l c n h =
    (record (pushcli c) { ncli = c.ncli; flag_if = c.flag_if }, ground arith, refl, refl)

-- What popping leaves as it was.
record Restored (c d : Cpu) : Type 0 where
  nesting : d.ncli ≡ c.ncli
  flag : d.flag_if ≡ c.flag_if
  saved : 0 < c.ncli → d.intena ≡ c.intena

pop_n-push_n-Restored :
    (n : ℕ) (c : Cpu) → IsNested c → (d : Cpu) × (pop_n n (push_n n c) ≡ ok d) × Restored c d
unfolding pop_n push_n popcli pushcli
pop_n-push_n-Restored zero c h = (c, refl, ground arith)
pop_n-push_n-Restored (suc n) c h =
    let (d, e, r) = pop_n-push_n-Restored n (pushcli c) (λ q. refl) in
    (
      record d { ncli = d.ncli - 1; flag_if = (d.ncli - 1 == 0) && d.intena },
      ground (arith, r.nesting, r.flag, r.saved),
      ground (arith, r.nesting, r.flag, r.saved),
    )

push_n-off : (n : ℕ) (c : Cpu) → c.flag_if ≡ false → (push_n n c).flag_if ≡ false
unfolding push_n pushcli
push_n-off zero c h = h
push_n-off (suc n) c h = push_n-off n (pushcli c) refl

-- Nested pushcli and popcli match: after `n` of the one, `n` of the other succeed, whatever `n` is,
-- and restore the nesting and the interrupt flag; after one pushcli or more interrupts are off.
pub pop_n-push_n :
    (n : ℕ) (c : Cpu)
    → IsNested c
    → (d : Cpu) × (pop_n n (push_n n c) ≡ ok d)
      × (d.ncli ≡ c.ncli)
      × (d.flag_if ≡ c.flag_if)
      × ((push_n (suc n) c).flag_if ≡ false)
unfolding push_n pushcli
pop_n-push_n n c h =
    let (d, e, r) = pop_n-push_n-Restored n c h in
    (d, e, r.nesting, r.flag, push_n-off n (pushcli c) refl)
