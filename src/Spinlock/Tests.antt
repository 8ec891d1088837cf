-- ===== src/Spinlock/Tests.antt =====
-- Concrete CPUs and runs of the spin lock.
use cs_577_p.Base.{ℕ, ◌≡◌, refl, Bool, true, false, some, arith}
use cs_577_p.Spinlock.{Cpu, Lock, pushcli, acquire}
use cs_577_p.Spinlock.Exclusion.{System, update, boot, enter, Reach, start, later, cpu_exclusion}

abbrev cpu_zero : Cpu
cpu_zero = record { id = 0; ncli = 0; intena = false; flag_if = true }

abbrev flags_on : ℕ → Bool
flags_on i = true

abbrev held : Lock
held = record { locked = true; cpu = some 0 }

abbrev cpu_in : Cpu
cpu_in = record { id = 0; ncli = 1; intena = true; flag_if = false }

-- CPU 0 has the lock.
abbrev entered : System
entered = record {
  lock = held;
  cpus = update (boot flags_on).cpus 0 cpu_in;
  inside = update (boot flags_on).inside 0 true;
}

entered-Reach : Reach flags_on entered
unfolding acquire pushcli
entered-Reach = later start (enter 0 {l = held} {c = cpu_in} refl refl)

cpu_exclusion_example : entered.inside 1 ≡ false
cpu_exclusion_example = cpu_exclusion entered-Reach 0 1 (omega arith) refl
