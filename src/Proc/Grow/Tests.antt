-- ===== src/Proc/Grow/Tests.antt =====
-- The shell, a process and no thread, grows; another thread of init shares init's memory.
use cs_577_p.Base.{some, [], ◌∷◌}
use cs_577_p.Proc.{Proc, Kernel}
use cs_577_p.Proc.Samples.{sample, init_entry, shell, thread}

abbrev cousin : Proc
cousin = record thread { parent = some 0; pid = 4 }

abbrev family : Kernel
family = record sample { procs = init_entry ∷ shell ∷ thread ∷ cousin ∷ [] }
