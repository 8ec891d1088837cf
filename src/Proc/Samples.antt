-- ===== src/Proc/Samples.antt =====
-- A small process table for the tests: init, a process that runs, and a thread of it.
use cs_577_p.Base.{refl, true, false, some, [], ◌∷◌}
use cs_577_p.Spinlock.{Cpu, unlocked}
use cs_577_p.Kalloc.{Kmem}
use cs_577_p.Proc.{Proc, blank, sleeping, running, zombie, Kernel, proc_chan}
use cs_577_p.Proc.Locking.{IsQuiet}

abbrev pub cpu_zero : Cpu
cpu_zero = record { id = 0; ncli = 0; intena = false; flag_if = true }

abbrev pub two_pages : Kmem
two_pages = record {
  lock = unlocked;
  freelist = 0x200000 ∷ 0x300000 ∷ [];
  kernel_end = 0x110000;
  mem = λ a. 0;
}

abbrev pub init_entry : Proc
init_entry = record blank { state = sleeping; pid = 1; chan = proc_chan 0; kstack = 0x500000 }

abbrev pub shell : Proc
shell = record blank { state = running; pid = 2; parent = some 0; kstack = 0x600000; sz = 8192 }

abbrev pub thread : Proc
thread = record blank {
  state = zombie;
  pid = 3;
  parent = some 1;
  kstack = 0x700000;
  is_thread = true;
  bsp = 4096;
}

-- Entry 1, the shell, runs; entry 2 is its thread, a zombie; entry 3 is unused.
abbrev pub sample : Kernel
sample = record {
  procs = init_entry ∷ shell ∷ thread ∷ blank ∷ [];
  next_pid = 4;
  init_proc = 0;
  lock = unlocked;
  cpu = cpu_zero;
  kmem = two_pages;
  ftable = record { lock = unlocked; files = [] };
  cwd_refs = [];
}

pub sample-IsQuiet : IsQuiet sample
sample-IsQuiet = record { free = refl; none_held = refl }
