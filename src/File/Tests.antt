-- ===== src/File/Tests.antt =====
-- A table with an open file that has two references.
use cs_577_p.Base.{true, false, [], ◌∷◌, arith}
use cs_577_p.Spinlock.{Cpu}
use cs_577_p.Spinlock.Laws.{IsNested}
use cs_577_p.File.{File, FTable, fd_inode, blank}
use cs_577_p.File.Refs.{table}

abbrev cpu_zero : Cpu
cpu_zero = record { id = 0; ncli = 0; intena = false; flag_if = true }

cpu_zero-IsNested : IsNested cpu_zero
cpu_zero-IsNested h = absurd (omega arith)

abbrev shared_file : File
shared_file = record blank { kind = fd_inode; ref = 2; readable = true; ip = 5 }

abbrev two_files : FTable
two_files = table (blank ∷ shared_file ∷ [])
