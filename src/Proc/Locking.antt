-- ===== src/Proc/Locking.antt =====
-- The table's lock, as the functions of proc.c take and give it back.
use cs_577_p.Base.{◌≡◌, refl, true, false, some, List, ok, arith}
use cs_577_p.Spinlock.{unlocked, holding, acquire, release, pushcli}
use cs_577_p.Kalloc.Pages.{calm}
use cs_577_p.Proc.{Proc, Kernel, lock_ptable, unlock_ptable}

-- No lock is held on this CPU, and the table's is free.
pub record IsQuiet (k : Kernel) : Type 0 where
  pub free : k.lock.locked ≡ false
  pub none_held : k.cpu.ncli ≡ 0

-- The kernel with the lock taken.
abbrev pub locked : Kernel → Kernel
locked k = record k { lock = record { locked = true; cpu = some k.cpu.id }; cpu = pushcli k.cpu }

-- The kernel after a critical section that left the table `ps`.
abbrev pub after : Kernel → List Proc → Kernel
after k ps = record k { procs = ps; lock = unlocked; cpu = calm k.cpu }

pub after-IsQuiet : (k : Kernel) (ps : List Proc) → IsQuiet k → IsQuiet (after k ps)
unfolding pushcli
after-IsQuiet k ps q = record { free = refl; none_held = q.none_held }

pub holding_quiet : (k : Kernel) → IsQuiet k → holding k.lock k.cpu ≡ false
unfolding holding
holding_quiet k q = ground arith

pub lock_quiet : (k : Kernel) → IsQuiet k → lock_ptable k ≡ ok (locked k)
unfolding lock_ptable acquire
lock_quiet k q = ground arith

pub unlock_locked :
    (k : Kernel) (ps : List Proc)
    → IsQuiet k
    → unlock_ptable (record (locked k) { procs = ps }) ≡ ok (after k ps)
unfolding unlock_ptable release pushcli
unlock_locked k ps q = ground arith

pub holding_locked : (k : Kernel) → holding (locked k).lock (locked k).cpu ≡ true
unfolding holding pushcli
holding_locked k = ground arith
