-- ===== src/Proc/Exit.antt =====
-- exit, wait, join, kill and yield of kernel/proc.c.
-- fileclose and iput as exit calls them, and freevm of kernel/vm.c, are parameters.
pub mod Reap
pub mod Adoption
pub mod Orphans
mod Tests
use cs_577_p.Base.{
  ℕ, zero, suc, ◌+◌, Bool, true, false, not, ◌&&◌, ◌||◌, Option, none, some, List, [], ◌∷◌, get_or,
  modify, length, find_index, Outcome, ok, panic, wild, ◌>>=◌, ◌>>◌, if◌then◌else◌, ◌==◌,
}
use cs_577_p.Spinlock.{Cpu}
use cs_577_p.Kalloc.{Kmem, kfree}
use cs_577_p.Proc.{
  Proc, blank, ProcState, unused, sleeping, runnable, zombie, is_sleeping, is_zombie, Chan, no_chan,
  proc_chan, Kernel, proc_at, change, is_ptr, lock_ptable, unlock_ptable, sched, wakeup1,
  sleep_locked,
}

abbrev pub chan_of : Option ℕ → Chan
chan_of none = no_chan
chan_of (some i) = proc_chan i

-- One round of exit's loop over the table: `i` goes to init if it is a child of `cur`.
unfoldable pub pass_one : ℕ → ℕ → Kernel → Kernel
unfolding wakeup1
pass_one cur i k =
    if is_ptr (proc_at k i).parent cur
    then (let k1 = change i (λ p. record p { parent = some k.init_proc }) k in
        if is_zombie (proc_at k i).state then wakeup1 (proc_chan k.init_proc) k1 else k1)
    else k

-- `n` rounds from entry `i` on.
unfoldable pub pass_from : ℕ → ℕ → ℕ → Kernel → Kernel
unfolding pass_one
pass_from cur zero i k = k
pass_from cur (suc n) i k = pass_from cur n (i + 1) (pass_one cur i k)

-- exit from its acquire on, up to the swtch in sched.
unfoldable pub exit_table : ℕ → Kernel → Outcome Kernel
unfolding lock_ptable wakeup1 pass_from sched
exit_table cur k = do
  k1 ← lock_ptable k
  let k2 = wakeup1 (chan_of (proc_at k1 cur).parent) k1
  let k3 = pass_from cur (length k2.procs) 0 k2
  sched cur (change cur (λ p. record p { state = zombie }) k3)

module _ (fileclose iput : ℕ → Kernel → Outcome Kernel) where
  -- The loop over the open files of `cur`, from descriptor `fd` on.
  unfoldable pub close_from : List (Option ℕ) → ℕ → ℕ → Kernel → Outcome Kernel
  close_from [] fd cur k = ok k
  close_from (none ∷ fs) fd cur k = close_from fs (fd + 1) cur k
  close_from (some f ∷ fs) fd cur k = do
    k1 ← fileclose f k
    close_from fs (fd + 1) cur
        (change cur (λ p. record p { ofile = modify p.ofile fd (λ o. none) }) k1)

  unfoldable pub put_cwd : Option ℕ → Kernel → Outcome Kernel
  put_cwd none k = wild
  put_cwd (some i) k = iput i k

  unfoldable pub exit : ℕ → Kernel → Outcome Kernel
  unfolding close_from put_cwd exit_table
  exit cur k = if cur == k.init_proc then panic else do
    k1 ← close_from (proc_at k cur).ofile 0 cur k
    k2 ← put_cwd (proc_at k1 cur).cwd k1
    exit_table cur (change cur (λ p. record p { cwd = none }) k2)

-- What a round of wait or join comes to: the pid of the child that it reaps (with, for join, what goes
-- through `ustack`), -1, or sleep, until wakeup and the next round.
pub data Waited : Type 0 where
  reaped : ℕ → ℕ → Kernel → Waited
  failed : Kernel → Waited
  waiting : Kernel → Waited

abbrev pub is_child : ℕ → Proc → Bool
is_child cur p = is_ptr p.parent cur

abbrev pub dead_child : ℕ → Proc → Bool
dead_child cur p = is_ptr p.parent cur && (is_zombie p.state && not p.is_thread)

abbrev pub is_own_thread : ℕ → Proc → Bool
is_own_thread cur p = is_ptr p.parent cur && p.is_thread

abbrev pub dead_thread : ℕ → Proc → Bool
dead_thread cur p = is_ptr p.parent cur && (p.is_thread && (is_zombie p.state && p.is_thread))

-- The fields that wait and join reset.
abbrev pub cleared : Proc → Proc
cleared p = record p {
  kstack = 0;
  state = unused;
  pid = 0;
  parent = none;
  name = [];
  killed = false;
}

abbrev pub some_entry : Option ℕ → Bool
some_entry none = false
some_entry (some i) = true

-- No zombie to reap: -1 without children or when killed, else sleep on the own entry.
unfoldable pub wait_or_fail : Bool → ℕ → Kernel → Outcome Waited
unfolding unlock_ptable sleep_locked
wait_or_fail kids cur k =
    if not kids || (proc_at k cur).killed
    then (unlock_ptable k >>= λ k1. ok (failed k1))
    else sleep_locked cur (proc_chan cur) k >>= λ k1. ok (waiting k1)

module _ (freevm : ℕ → Kmem → Cpu → Outcome (Kmem × Cpu)) where
  -- One round of the endless loop of wait, with the lock held.
  unfoldable pub wait_round : ℕ → Kernel → Outcome Waited
  unfolding wait_or_fail unlock_ptable
  wait_round cur k = elim (find_index (dead_child cur) k.procs) [
    | none ↦ wait_or_fail (some_entry (find_index (is_child cur) k.procs)) cur k
    | some i ↦ do
      let p = proc_at k i
      f ← kfree p.kstack k.kmem k.cpu
      g ← freevm p.pgdir f.0 f.1
      k1 ← unlock_ptable (change i cleared (record k { kmem = g.0; cpu = g.1 }))
      ok (reaped p.pid 0 k1)
  ]

  unfoldable pub wait : ℕ → Kernel → Outcome Waited
  unfolding lock_ptable wait_round
  wait cur k = lock_ptable k >>= wait_round cur

  -- The next round, after the sleep: its tidying up comes first.
  unfoldable pub wait_again : ℕ → Kernel → Outcome Waited
  unfolding wait_round
  wait_again cur k = wait_round cur (change cur (λ p. record p { chan = no_chan }) k)

-- One round of join. The page table stays, since the threads share it.
unfoldable pub join_round : ℕ → Kernel → Outcome Waited
unfolding wait_or_fail unlock_ptable
join_round cur k = elim (find_index (dead_thread cur) k.procs) [
  | none ↦ wait_or_fail (some_entry (find_index (is_own_thread cur) k.procs)) cur k
  | some i ↦ do
    let p = proc_at k i
    f ← kfree p.kstack k.kmem k.cpu
    k1 ← unlock_ptable (change i cleared (record k { kmem = f.0; cpu = f.1 }))
    ok (reaped p.pid p.bsp k1)
]

unfoldable pub join : ℕ → Kernel → Outcome Waited
unfolding lock_ptable join_round
join cur k = lock_ptable k >>= join_round cur

unfoldable pub join_again : ℕ → Kernel → Outcome Waited
unfolding join_round
join_again cur k = join_round cur (change cur (λ p. record p { chan = no_chan }) k)

abbrev pub with_pid : ℕ → Proc → Bool
with_pid pid p = p.pid == pid

abbrev pub doomed : Proc → Proc
doomed p = record p { killed = true; state = if is_sleeping p.state then runnable else p.state }

unfoldable pub kill : ℕ → Kernel → Outcome (Option ℕ × Kernel)
unfolding lock_ptable unlock_ptable
kill pid k = do
  k1 ← lock_ptable k
  elim (find_index (with_pid pid) k1.procs) [
    | none ↦ unlock_ptable k1 >>= λ k2. ok (none, k2)
    | some i ↦ unlock_ptable (change i doomed k1) >>= λ k2. ok (some 0, k2)
  ]

-- yield up to its swtch; its last line is `unlock_ptable`.
unfoldable pub yield_cpu : ℕ → Kernel → Outcome Kernel
unfolding lock_ptable sched
yield_cpu cur k =
    lock_ptable k >>= λ k1. sched cur (change cur (λ p. record p { state = runnable }) k1)
