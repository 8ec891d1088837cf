-- ===== src/Proc/Park/Laws.antt =====
-- No wakeup is lost between setpark and park, and what unpark changes.
use cs_577_p.Base.{
  ℕ, ◌<◌, ◌≡◌, Bool, true, false, not, ◌&&◌, none, some, ok, wild, arith, if◌then◌else◌, find_index,
  modify, length, get_or-modify_self,
}
use cs_577_p.Spinlock.{holding, pushcli}
use cs_577_p.Proc.{Proc, running, blank, Kernel, proc_at, lock_unless, sched}
use cs_577_p.Proc.Locking.{IsQuiet, locked, after, holding_quiet, lock_quiet, unlock_locked}
use cs_577_p.Proc.Park.{
  setpark, announce, park, awake, asleep, settle, unpark, unpark_found, has_pid,
}

-- The result and the table that setpark leaves.
abbrev pub may_park : Proc → Bool
may_park p = not p.immediate_unpark && not p.set_park

pub setpark_quiet :
    (cur : ℕ) (k : Kernel)
    → IsQuiet k
    → setpark cur k ≡ (
        if may_park (proc_at k cur)
        then ok (some 0, after k (modify k.procs cur announce))
        else ok (none, after k k.procs))
unfolding setpark lock_unless
setpark_quiet cur k q = ground (
  arith,
  holding_quiet k q,
  lock_quiet k q,
  unlock_locked k k.procs q,
  unlock_locked k (modify k.procs cur announce) q,
)

pub unpark_quiet :
    (pid i : ℕ) (k : Kernel)
    → IsQuiet k
    → find_index (has_pid pid) k.procs ≡ some i
    → unpark pid k ≡ ok ((unpark_found i pid k.procs).0, after k (unpark_found i pid k.procs).1)
unfolding unpark lock_unless
unpark_quiet pid i k q e =
    ground
      (arith, holding_quiet k q, lock_quiet k q, unlock_locked k (unpark_found i pid k.procs).1 q)

-- With no lock held, unpark of a pid that no entry has reads past the end of the table.
pub unpark_unknown :
    (pid : ℕ) (k : Kernel)
    → IsQuiet k
    → find_index (has_pid pid) k.procs ≡ none
    → unpark pid k ≡ wild
unfolding unpark lock_unless
unpark_unknown pid k q e = ground (arith, holding_quiet k q, lock_quiet k q)

-- park: how it returns, or how it goes to sleep.
pub park_awake :
    (cur : ℕ) (k : Kernel)
    → IsQuiet k
    → cur < length k.procs
    → (proc_at k cur).immediate_unpark ≡ true
    → (proc_at k cur).state ≡ running
    → park cur k ≡ ok (awake (after k (modify k.procs cur settle)))
unfolding park lock_unless
park_awake cur k q lt im st = ground (
  arith,
  holding_quiet k q,
  lock_quiet k q,
  unlock_locked k (modify k.procs cur settle) q,
  get_or-modify_self k.procs cur settle blank lt,
)

pub park_asleep :
    (cur : ℕ) (k : Kernel)
    → IsQuiet k
    → cur < length k.procs
    → (proc_at k cur).immediate_unpark ≡ false
    → park cur k ≡ ok (asleep false (record (locked k) { procs = modify k.procs cur settle }))
unfolding park lock_unless sched holding pushcli
park_asleep cur k q lt im =
    ground
      (arith, holding_quiet k q, lock_quiet k q, get_or-modify_self k.procs cur settle blank lt)
