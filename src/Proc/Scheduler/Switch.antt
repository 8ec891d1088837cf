-- ===== src/Proc/Scheduler/Switch.antt =====
-- What holds when the scheduler gives the CPU to a process, and when it gets it back.
use cs_577_p.Base.{
  ℕ, suc, ◌+◌, ◌≤◌, ◌<◌, true, false, none, some, List, [], ◌∷◌, ok, ◌≡◌, ◌≢◌, refl, arith, inl,
  inr, ◌==◌, length, modify, Bool-cases, Outcome, ◌%◌, ◌^◌,
}
use cs_577_p.Spinlock.{Cpu, pushcli, popcli, release, holding, unlocked}
use cs_577_p.Mutex.Invariant.{elem}
use cs_577_p.Proc.{Kernel, is_runnable, is_running, proc_at, change, running, unlock_ptable}
use cs_577_p.Proc.Locking.{IsQuiet, locked}
use cs_577_p.Proc.Scheduler.{Core, nproc, kstacksize, switchuvm}

-- What holds at every switch between a process and the scheduler: this CPU has the table's lock and no
-- other, and whoever can run has a page table.
pub record Ready (k : Kernel) : Type 0 where
  pub mine : k.lock ≡ record { locked = true; cpu = some k.cpu.id }
  pub once : k.cpu.ncli ≡ 1
  pub off : k.cpu.flag_if ≡ false
  pub size : length k.procs ≡ nproc
  pub mapped : (j : ℕ) → is_runnable (proc_at k j).state ≡ true → (proc_at k j).pgdir ≢ 0

-- A process gives the CPU back in its sched, and takes away nobody's turn.
pub record Returns (run : ℕ → Kernel → Outcome Kernel) : Type 0 where
  pub back :
      (i : ℕ) (k : Kernel)
      → i < nproc
      → Ready k
      → is_running (proc_at k i).state ≡ true
      → (k' : Kernel) × (run i k ≡ ok k')
        × Ready k'
        × ((j : ℕ)
            → i ≢ j
            → is_runnable (proc_at k j).state ≡ true
            → is_runnable (proc_at k' j).state ≡ true)

-- The entries of `ts` had the CPU one after the other, each as the running process and with the kernel
-- that the one before left: from `k` this comes to `k'`.
unfoldable pub Ran : (ℕ → Kernel → Outcome Kernel) → List ℕ → Kernel → Kernel → Type 0
Ran run [] k k' = k' ≡ k
Ran run (t ∷ ts) k k' =
    (k1 : Kernel) × (run t
        (record k { procs = modify k.procs t (λ e. record e { state = running }) })
      ≡ ok k1)
    × Ran run ts k1 k'

-- A list of entries in the order of the table, from `i` on, without repeats.
abbrev pub Ascending : ℕ → List ℕ → Type 0
Ascending i [] = Unit
Ascending i (t ∷ ts) = (i ≤ t) × Ascending (suc t) ts

pop-push : (c : Cpu) → c.ncli ≡ 1 → c.flag_if ≡ false → popcli (pushcli c) ≡ ok c
unfolding popcli pushcli
pop-push c o f = ground arith

-- The core after entry `p` was switched to, and then after it gave the CPU back with `k`.
abbrev pub given : ℕ → Core → Kernel
given p c = change p (λ e. record e { state = running }) c.kernel

abbrev pub returned : ℕ → Core → Kernel → Core
returned p c k = record c {
  kernel = k;
  current = none;
  esp0 = ((proc_at c.kernel p).kstack + kstacksize) % 2 ^ 32;
  cr3 = c.kpgdir;
}

pub Ascending-weaken : (p : ℕ) (ts : List ℕ) → Ascending (suc p) ts → Ascending p ts
Ascending-weaken p [] a = tt
Ascending-weaken p (t ∷ ts) (h, a) = (omega arith, a)

pub here_or_later :
    (p j : ℕ) (ts : List ℕ) → p ≤ j → (p < j → elem j ts ≡ true) → elem j (p ∷ ts) ≡ true
here_or_later p j ts a f = elim (Bool-cases (p == j)) [
  | inl e ↦ ground arith
  | inr ne ↦ ground (arith, f (ground arith))
]

abbrev pub switched : ℕ → Core → Core
switched p c = record c {
  current = some p;
  esp0 = ((proc_at c.kernel p).kstack + kstacksize) % 2 ^ 32;
  cr3 = (proc_at c.kernel p).pgdir;
}

pub switchuvm_lem :
    (p : ℕ) (c : Core)
    → Ready c.kernel
    → (proc_at c.kernel p).pgdir ≢ 0
    → switchuvm p (record c { current = some p }) ≡ ok (switched p c)
unfolding switchuvm
switchuvm_lem p c r h =
    let ne : (proc_at c.kernel p).pgdir == 0 ≡ false = ground arith in
    rw (ne, pop-push c.kernel.cpu r.once r.off) refl

-- The round starts, and ends, outside every lock.
pub started :
    (k : Kernel)
    → IsQuiet k
    → length k.procs ≡ nproc
    → ((j : ℕ) → is_runnable (proc_at k j).state ≡ true → (proc_at k j).pgdir ≢ 0)
    → Ready (locked k)
unfolding pushcli
started k q s m = record {
  mine = refl;
  once = ground (arith, q.none_held);
  off = refl;
  size = s;
  mapped = m;
}

pub unlock-Ready : (k : Kernel) → Ready k → (k' : Kernel) × (unlock_ptable k ≡ ok k') × IsQuiet k'
unfolding unlock_ptable release popcli holding
unlock-Ready k r = (
  record k { lock = unlocked; cpu = record k.cpu { ncli = 0; flag_if = k.cpu.intena } },
  rw (r.mine, r.once, r.off) (ground arith),
  record { free = refl; none_held = refl },
)
