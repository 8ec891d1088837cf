-- ===== src/Bio/Tests.antt =====
-- A cache of two buffers: one holds block 1 of disk 0, the other nothing yet.
use cs_577_p.Base.{true, [], ◌∷◌, ◌==◌}
use cs_577_p.Bio.{Buf, Cache, blank}
use cs_577_p.Bio.Unique.{Unique}
use cs_577_p.Bio.Coherent.{Coherent}

abbrev block_one : Buf
block_one = record blank { valid = true; dev = 0; sector = 1; bytes = 0 ∷ 1 ∷ [] }

abbrev two_bufs : Cache
two_bufs = record {
  bufs = block_one ∷ record blank { id = 1 } ∷ [];
  disk = λ d s. d ∷ s ∷ [];
  fails = λ d s. d == 1;
  torn = λ d s. [];
}
