-- ===== src/Proc/Scheduler.antt =====
-- The scheduler of kernel/proc.c on one CPU, with switchuvm and switchkvm of kernel/vm.c.
-- `run i` stands for what process `i` does from the swtch that resumes it to the one in its sched that
-- comes back here.
pub mod Switch
pub mod Fair
mod Tests
use cs_577_p.Base.{
  ℕ, zero, suc, ◌+◌, ◌%◌, ◌^◌, true, Option, none, some, List, [], ◌∷◌, Outcome, ok, panic, wild,
  ◌>>=◌, if◌then◌else◌, ◌==◌, not,
}
use cs_577_p.Spinlock.{pushcli, popcli}
use cs_577_p.Proc.{Proc, running, is_runnable, Kernel, proc_at, change, lock_ptable, unlock_ptable}

abbrev pub nproc : ℕ
nproc = 64

abbrev pub kstacksize : ℕ
kstacksize = 4096

-- The variable `proc` of the CPU, the stack for traps of its task state, and its page table register.
pub record Core : Type 0 where
  pub kernel : Kernel
  pub current : Option ℕ
  pub esp0 : ℕ
  pub cr3 : ℕ
  pub kpgdir : ℕ

-- It takes the kernel stack of `proc`, and the page table of `p`.
unfoldable pub switchuvm : ℕ → Core → Outcome Core
unfolding pushcli popcli
switchuvm p c = elim c.current [
  | none ↦ wild
  | some q ↦
      if (proc_at c.kernel p).pgdir == 0
      then panic
      else popcli (pushcli c.kernel.cpu) >>= λ cpu. ok (record c {
        kernel = record c.kernel { cpu = cpu };
        esp0 = ((proc_at c.kernel q).kstack + kstacksize) % 2 ^ 32;
        cr3 = (proc_at c.kernel p).pgdir;
      })
]

abbrev pub switchkvm : Core → Core
switchkvm c = record c { cr3 = c.kpgdir }

-- One process gets the CPU and gives it back.
unfoldable pub turn : (ℕ → Kernel → Outcome Kernel) → ℕ → Core → Outcome Core
unfolding switchuvm
turn run p c = do
  c1 ← switchuvm p (record c { current = some p })
  k ← run p (change p (λ e. record e { state = running }) c1.kernel)
  ok (record (switchkvm (record c1 { kernel = k })) { current = none })

-- The loop over the `n` entries from `p` on, with the entries that had the CPU, in order.
unfoldable pub turns_from : (ℕ → Kernel → Outcome Kernel) → ℕ → ℕ → Core → Outcome (Core × List ℕ)
unfolding turn
turns_from run zero p c = ok (c, [])
turns_from run (suc n) p c =
    let rest = turns_from run n (suc p) in
    if not (is_runnable (proc_at c.kernel p).state)
    then rest c
    else turn run p c >>= λ c1. rest c1 >>= λ r. ok (r.0, p ∷ r.1)

-- One round of the endless loop.
unfoldable pub scheduler_round : (ℕ → Kernel → Outcome Kernel) → Core → Outcome (Core × List ℕ)
unfolding turns_from lock_ptable unlock_ptable
scheduler_round run c = do
  k1 ← lock_ptable (record c.kernel { cpu = record c.kernel.cpu { flag_if = true } })
  r ← turns_from run nproc 0 (record c { kernel = k1 })
  k2 ← unlock_ptable r.0.kernel
  ok (record r.0 { kernel = k2 }, r.1)

-- forkret: the first code of a new process, which comes from the scheduler with the table's lock.
unfoldable pub forkret : Kernel → Outcome Kernel
unfolding unlock_ptable
forkret k = unlock_ptable k
