-- ===== src/Proc/Scheduler/Tests.antt =====
-- Two processes that can run, in a table where each goes to sleep at its turn.
use cs_577_p.Base.{
  ℕ, none, zero, suc, ◌<◌, true, List, ◌∷◌, Outcome, ok, ◌≡◌, ◌≢◌, refl, ◌∙◌, arith, length, get_or,
  replicate, length-modify, get_or-modify_self, get_or-modify_ne,
}
use cs_577_p.Mutex.Invariant.{elem}
use cs_577_p.Proc.{
  Proc, Kernel, blank, proc_at, change, runnable, sleeping, is_runnable, lock_ptable, unlock_ptable,
}
use cs_577_p.Proc.Locking.{IsQuiet}
use cs_577_p.Proc.Samples.{sample}
use cs_577_p.Proc.Scheduler.{Core, nproc, scheduler_round}
use cs_577_p.Proc.Scheduler.Switch.{Ready, Returns, Ran, Ascending}
use cs_577_p.Proc.Scheduler.Fair.{scheduler_fair}

abbrev rest : Proc → Proc
rest e = record e { state = sleeping }

nap : ℕ → Kernel → Outcome Kernel
nap i k = ok (change i rest k)

module _ (i : ℕ) (k : Kernel) (r : Ready k) where
  other : (j : ℕ) → i ≢ j → proc_at (change i rest k) j ≡ proc_at k j
  other j ne = get_or-modify_ne k.procs i j rest blank ne

  -- An entry that can run afterwards could before, and was not the one that went to sleep.
  awake_before :
      (j : ℕ) → is_runnable (proc_at (change i rest k) j).state ≡ true → i < length k.procs → i ≢ j
  awake_before j q h e =
      absurd (ground (arith, rw e at (get_or-modify_self k.procs i rest blank h)))

  nap-Ready : i < nproc → Ready (change i rest k)
  nap-Ready h = record {
    mine = r.mine;
    once = r.once;
    off = r.off;
    size = length-modify k.procs i rest ∙ r.size;
    mapped = λ j q.
        let ne = awake_before j q (rw r.size h) in
        λ z. r.mapped j (rw (other j ne) at q) (rw (other j ne) at z);
  }

nap-Returns : Returns nap
unfolding nap
nap-Returns = record {
  back = λ i k h r s. (change i rest k, refl, nap-Ready i k r h, λ j ne a. rw (other i k r j ne) a);
}

abbrev ready_entry : Proc
ready_entry = record blank { state = runnable; pgdir = 4096; pid = 7; kstack = 8192 }

abbrev two_ready : Core
two_ready = record {
  kernel = record sample { procs = ready_entry ∷ ready_entry ∷ replicate 62 blank };
  current = none;
  esp0 = 0;
  cr3 = 0;
  kpgdir = 12288;
}

get_or-replicate : (n j : ℕ) → get_or (replicate n blank) j blank ≡ blank
get_or-replicate zero j = refl
get_or-replicate (suc n) zero = refl
get_or-replicate (suc n) (suc j) = get_or-replicate n j

two_ready-mapped :
    (j : ℕ)
    → is_runnable (proc_at two_ready.kernel j).state ≡ true
    → (proc_at two_ready.kernel j).pgdir ≢ 0
two_ready-mapped zero q = ground arith
two_ready-mapped (suc zero) q = ground arith
two_ready-mapped (suc (suc j)) q = absurd (ground (arith, rw (get_or-replicate 62 j) at q))

scheduler_fair_example :
    (c' : Core) × (ts : List ℕ) × (scheduler_round nap two_ready ≡ ok (c', ts))
    × ((k1 k2 : Kernel) × (lock_ptable
            (record two_ready.kernel { cpu = record two_ready.kernel.cpu { flag_if = true } })
          ≡ ok k1)
        × Ran nap ts k1 k2
        × (unlock_ptable k2 ≡ ok c'.kernel))
    × IsQuiet c'.kernel
    × Ascending 0 ts
    × ((j : ℕ)
        → j < nproc
        → is_runnable (proc_at two_ready.kernel j).state ≡ true
        → elem j ts ≡ true)
scheduler_fair_example =
    scheduler_fair nap nap-Returns two_ready (record { free = refl; none_held = refl }) refl
      two_ready-mapped
