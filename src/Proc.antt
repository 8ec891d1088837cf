-- ===== src/Proc.antt =====
-- kernel/proc.h and the primitives of kernel/proc.c: the process table, its lock, and sched.
-- A `struct proc *` is an index of the table; `cur` is the running process, `proc` in the code.
pub mod Locking
pub mod Samples
pub mod Wakeup
pub mod Park
pub mod Create
pub mod Exit
pub mod Grow
pub mod Scheduler
mod Tests
use cs_577_p.Base.{
  ℕ, ◌+◌, Bool, true, false, not, ◌&&◌, Option, none, some, List, map, get_or, modify, find_index,
  Outcome, ok, panic, ◌>>=◌, ◌>>◌, if◌then◌else◌, ◌==◌,
}
use cs_577_p.Spinlock.{Cpu, Lock, holding, acquire, release}
use cs_577_p.Kalloc.{Kmem}
use cs_577_p.File.{FTable}

pub data ProcState : Type 0 where
  unused embryo sleeping runnable running zombie : ProcState

abbrev pub is_unused : ProcState → Bool
is_unused unused = true
is_unused _ = false

abbrev pub is_sleeping : ProcState → Bool
is_sleeping sleeping = true
is_sleeping _ = false

abbrev pub is_runnable : ProcState → Bool
is_runnable runnable = true
is_runnable _ = false

abbrev pub is_running : ProcState → Bool
is_running running = true
is_running _ = false

abbrev pub is_zombie : ProcState → Bool
is_zombie zombie = true
is_zombie _ = false

-- What a process sleeps on: nothing, a process (in wait and join), or another address.
pub data Chan : Type 0 where
  no_chan : Chan
  proc_chan : ℕ → Chan
  address : ℕ → Chan

abbrev pub same_chan : Chan → Chan → Bool
same_chan no_chan no_chan = true
same_chan (proc_chan i) (proc_chan j) = i == j
same_chan (address a) (address b) = a == b
same_chan _ _ = false

-- The fields of `struct trapframe` that proc.c sets by name.
pub record TrapFrame : Type 0 where
  pub eax : ℕ
  pub eip : ℕ
  pub esp : ℕ

-- Where `swtch` resumes a process: at forkret, for a new one, or at a saved address.
pub data Resume : Type 0 where
  at_forkret : Resume
  saved : ℕ → Resume

-- `struct proc`; of `context` the address at which `swtch` resumes it.
pub record Proc : Type 0 where
  pub sz : ℕ
  pub pgdir : ℕ
  pub kstack : ℕ
  pub state : ProcState
  pub pid : ℕ
  pub parent : Option ℕ
  pub tf : TrapFrame
  pub context : Resume
  pub chan : Chan
  pub killed : Bool
  pub ofile : List (Option ℕ)
  pub cwd : Option ℕ
  pub name : List ℕ
  pub is_parked : Bool
  pub immediate_unpark : Bool
  pub set_park : Bool
  pub is_thread : Bool
  pub bsp : ℕ

abbrev pub blank : Proc
blank = record {
  sz = 0;
  pgdir = 0;
  kstack = 0;
  state = unused;
  pid = 0;
  parent = none;
  tf = record { eax = 0; eip = 0; esp = 0 };
  context = saved 0;
  chan = no_chan;
  killed = false;
  ofile = List.[];
  cwd = none;
  name = List.[];
  is_parked = false;
  immediate_unpark = false;
  set_park = false;
  is_thread = false;
  bsp = 0;
}

-- `ptable`, `nextpid` and `initproc`, with what proc.c shares with the other parts of the kernel.
-- `cwd_refs` are the reference counts of the in-memory inodes.
pub record Kernel : Type 0 where
  pub procs : List Proc
  pub next_pid : ℕ
  pub init_proc : ℕ
  pub lock : Lock
  pub cpu : Cpu
  pub kmem : Kmem
  pub ftable : FTable
  pub cwd_refs : List ℕ

abbrev pub proc_at : Kernel → ℕ → Proc
proc_at k i = get_or k.procs i blank

abbrev pub change : ℕ → (Proc → Proc) → Kernel → Kernel
change i f k = record k { procs = modify k.procs i f }

abbrev pub is_ptr : Option ℕ → ℕ → Bool
is_ptr none i = false
is_ptr (some j) i = j == i

unfoldable pub lock_ptable : Kernel → Outcome Kernel
lock_ptable k = acquire k.lock k.cpu >>= λ a. ok (record k { lock = a.0; cpu = a.1 })

unfoldable pub unlock_ptable : Kernel → Outcome Kernel
unlock_ptable k = release k.lock k.cpu >>= λ a. ok (record k { lock = a.0; cpu = a.1 })

-- `if(!holding(&ptable.lock)) acquire(…) else wasHolding = 1`, and its counterpart.
unfoldable pub lock_unless : Bool → Kernel → Outcome Kernel
unfolding lock_ptable
lock_unless was k = if was then ok k else lock_ptable k

unfoldable pub unlock_unless : Bool → Kernel → Outcome Kernel
unfolding unlock_ptable
unlock_unless was k = if was then ok k else unlock_ptable k

-- sched up to its swtch: the checks that it makes on the CPU and on the process that gives it up.
unfoldable pub sched : ℕ → Kernel → Outcome Kernel
sched cur k =
    if not (holding k.lock k.cpu)
    then panic
    else if not (k.cpu.ncli == 1)
    then panic
    else if is_running (proc_at k cur).state
    then panic
    else if k.cpu.flag_if
    then panic
    else ok k

-- wakeup1 on one entry of the table, and on the table.
abbrev pub wake : Chan → Proc → Proc
wake ch p = if is_sleeping p.state && same_chan p.chan ch then record p { state = runnable } else p

unfoldable pub wakeup1 : Chan → Kernel → Kernel
wakeup1 ch k = record k { procs = map (wake ch) k.procs }

unfoldable pub wakeup : Chan → Kernel → Outcome Kernel
unfolding wakeup1 lock_ptable unlock_ptable
wakeup ch k = lock_ptable k >>= λ k1. unlock_ptable (wakeup1 ch k1)

-- sleep up to its sched, with the lock `lk` not the table's: the caller's release of `lk` is
-- `let_go`. The process is then off the CPU until a wakeup.
unfoldable pub sleep : ℕ → Chan → (Kernel → Outcome Kernel) → Kernel → Outcome Kernel
unfolding lock_ptable sched
sleep cur ch let_go k = do
  k1 ← lock_ptable k
  k2 ← let_go k1
  sched cur (change cur (λ p. record p { chan = ch; state = sleeping }) k2)

-- sleep(chan, &ptable.lock), as wait and join call it.
unfoldable pub sleep_locked : ℕ → Chan → Kernel → Outcome Kernel
unfolding sched
sleep_locked cur ch k = sched cur (change cur (λ p. record p { chan = ch; state = sleeping }) k)
