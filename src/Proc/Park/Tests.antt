-- ===== src/Proc/Park/Tests.antt =====
-- The handshake of a process that runs, and an unpark of a pid that nobody has.
use cs_577_p.Base.{◌≡◌, refl, false, none, some, ok}
use cs_577_p.Proc.{Kernel}
use cs_577_p.Proc.Locking.{IsQuiet}
use cs_577_p.Proc.Samples.{sample, sample-IsQuiet}
use cs_577_p.Proc.Park.{setpark, park, awake, asleep, unpark}
use cs_577_p.Proc.Park.Handshake.{IsReady, no_lost_wakeup, unpark_too_early}

sample-IsReady : IsReady 2 1 sample
sample-IsReady = record {
  quiet = sample-IsQuiet;
  found = refl;
  runs = refl;
  not_parked = refl;
  not_told = refl;
  not_announced = refl;
}

no_lost_wakeup_example :
    (k1 k2 k3 : Kernel) × (setpark 1 sample ≡ ok (some 0, k1))
    × (unpark 2 k1 ≡ ok (none, k2))
    × (park 1 k2 ≡ ok (awake k3))
    × (k3.procs ≡ sample.procs)
    × IsQuiet k3
no_lost_wakeup_example = no_lost_wakeup 2 1 sample sample-IsReady

unpark_too_early_example :
    (k0 k1 k2 : Kernel) × (unpark 2 sample ≡ ok (none, k0))
    × (k0.procs ≡ sample.procs)
    × (setpark 1 k0 ≡ ok (some 0, k1))
    × (park 1 k1 ≡ ok (asleep false k2))
unpark_too_early_example = unpark_too_early 2 1 sample sample-IsReady
