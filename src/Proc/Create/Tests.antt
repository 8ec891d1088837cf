-- ===== src/Proc/Create/Tests.antt =====
-- allocproc on a table with one unused entry.
use cs_577_p.Base.{ℕ, zero, suc, ◌≡◌, ◌<◌, refl, false, Option, some, ok, arith, get_elem?}
use cs_577_p.Proc.{Proc, Kernel, is_unused}
use cs_577_p.Proc.Locking.{IsQuiet}
use cs_577_p.Proc.Samples.{sample, sample-IsQuiet}
use cs_577_p.Proc.Create.{allocproc}
use cs_577_p.Proc.Create.Slots.{PidsDistinct, Allocated, allocproc_lem}

-- In the sample table the pid of entry `i` is `i + 1`.
pid_at :
    (i : ℕ) (p : Proc)
    → get_elem? sample.procs i ≡ some p
    → is_unused p.state ≡ false
    → (p.pid ≡ suc i) × (i < 3)
pid_at zero p e u = ground arith
pid_at (suc zero) p e u = ground arith
pid_at (suc (suc zero)) p e u = ground arith
pid_at (suc (suc (suc zero))) p e u = absurd (ground arith)
pid_at (suc (suc (suc (suc i)))) p e u = absurd (ground arith)

sample-PidsDistinct : PidsDistinct 4 sample.procs
sample-PidsDistinct = record {
  below = λ i p e u. let (a, b) = pid_at i p e u in omega arith;
  distinct = λ i j p q e e' u u' same.
      let (a, b) = pid_at i p e u in let (c, d) = pid_at j q e' u' in omega arith;
}

allocproc_lem_example :
    (r : Option ℕ) × (k' : Kernel) × (allocproc sample ≡ ok (r, k'))
    × IsQuiet k'
    × Allocated sample r k'
    × PidsDistinct k'.next_pid k'.procs
allocproc_lem_example = allocproc_lem sample sample-IsQuiet refl (omega arith) sample-PidsDistinct
