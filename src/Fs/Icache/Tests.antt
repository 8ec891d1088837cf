-- ===== src/Fs/Icache/Tests.antt =====
-- A cache of two inodes: one in use and not read yet, one free.
use cs_577_p.Base.{true, false, [], ◌∷◌}
use cs_577_p.Spinlock.{Cpu, unlocked}
use cs_577_p.Fs.Icache.{Icache, blank}

abbrev cpu_zero : Cpu
cpu_zero = record { id = 0; ncli = 0; intena = false; flag_if = true }

abbrev two_inodes : Icache
two_inodes = record {
  lock = unlocked;
  inodes = record blank { dev = 1; inum = 7; ref = 2 } ∷ blank ∷ [];
}
