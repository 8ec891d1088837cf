-- ===== src/Proc/Exit/Tests.antt =====
-- exit of the shell, and its join with a thread that has exited.
use cs_577_p.Base.{ℕ, zero, suc, ◌≡◌, ◌≢◌, refl, true, some, ok, arith, get_elem?}
use cs_577_p.Kalloc.Pages.{IsPage}
use cs_577_p.Proc.{Proc, Kernel, zombie, proc_at}
use cs_577_p.Proc.Samples.{sample, sample-IsQuiet}
use cs_577_p.Proc.Exit.{exit_table, Waited, join, dead_thread}
use cs_577_p.Proc.Exit.Adoption.{redirect}
use cs_577_p.Proc.Exit.Orphans.{Woken, exit_table_lem}
use cs_577_p.Proc.Exit.Reap.{Joined, join_lem}

exit_table_lem_example :
    (k' : Kernel) × (exit_table 1 sample ≡ ok k')
    × ((proc_at k' 1).state ≡ zombie)
    × ((j : ℕ) (p' : Proc)
        → get_elem? k'.procs j ≡ some p'
        → (p : Proc) × (get_elem? sample.procs j ≡ some p)
          × (p'.parent ≡ redirect 1 sample.init_proc p.parent)
          × (1 ≢ j → Woken (proc_at sample 1).parent p p'))
exit_table_lem_example = exit_table_lem 1 sample sample-IsQuiet (omega arith)

stacks :
    (i : ℕ) → dead_thread 1 (proc_at sample i) ≡ true → IsPage sample.kmem (proc_at sample i).kstack
stacks zero h = absurd (ground arith)
stacks (suc zero) h = absurd (ground arith)
stacks (suc (suc zero)) h = record {
  aligned = omega arith;
  above = omega arith;
  below = omega arith;
}
stacks (suc (suc (suc zero))) h = absurd (ground arith)
stacks (suc (suc (suc (suc i)))) h = absurd (ground arith)

join_lem_example : (w : Waited) × (join 1 sample ≡ ok w) × Joined 1 sample w
join_lem_example = join_lem 1 sample sample-IsQuiet (omega arith) refl stacks
