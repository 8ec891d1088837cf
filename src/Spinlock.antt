-- ===== src/Spinlock.antt =====
-- kernel/spinlock.c: the spin lock, and the nesting of disabled interrupts that goes with it.
-- The names and call stacks that are kept for debugging (`name`, `pcs`, `getcallerpcs`) are left out.
pub mod Laws
pub mod Exclusion
mod Tests
use cs_577_p.Base.{
  ℕ, ◌+◌, ◌-◌, Bool, true, false, ◌&&◌, Option, none, some, Outcome, ok, panic, spin, ◌>>=◌,
  if◌then◌else◌, ◌==◌,
}

-- The part of `struct cpu` that locks use. `flag_if` is FL_IF of the flags register.
pub record Cpu : Type 0 where
  pub id : ℕ
  pub ncli : ℕ
  pub intena : Bool
  pub flag_if : Bool

-- `struct spinlock`; `cpu` is the holder's id.
pub record Lock : Type 0 where
  pub locked : Bool
  pub cpu : Option ℕ

abbrev pub unlocked : Lock
unlocked = record { locked = false; cpu = none }

abbrev pub is_cpu : Option ℕ → ℕ → Bool
is_cpu none i = false
is_cpu (some j) i = j == i

unfoldable pub initlock : Lock → Lock
initlock l = unlocked

-- whether this CPU holds the lock
unfoldable pub holding : Lock → Cpu → Bool
holding l c = l.locked && is_cpu l.cpu c.id

unfoldable pub pushcli : Cpu → Cpu
pushcli c = record c {
  flag_if = false;
  ncli = c.ncli + 1;
  intena = if c.ncli == 0 then c.flag_if else c.intena;
}

-- `--cpu->ncli < 0` is the test that `ncli` was 0.
unfoldable pub popcli : Cpu → Outcome Cpu
popcli c =
    if c.flag_if
    then panic
    else if c.ncli == 0
    then panic
    else ok (record c { ncli = c.ncli - 1; flag_if = (c.ncli - 1 == 0) && c.intena })

-- One run up to the end of the `xchg` loop: `spin` if another CPU has the lock.
unfoldable pub acquire : Lock → Cpu → Outcome (Lock × Cpu)
unfolding holding pushcli
acquire l c =
    let c' = pushcli c in
    if holding l c'
    then panic
    else if l.locked
    then spin
    else ok (record { locked = true; cpu = some c.id }, c')

unfoldable pub release : Lock → Cpu → Outcome (Lock × Cpu)
unfolding holding popcli
release l c = if holding l c then popcli c >>= (λ c'. ok (unlocked, c')) else panic
