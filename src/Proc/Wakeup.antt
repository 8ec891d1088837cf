-- ===== src/Proc/Wakeup.antt =====
-- sleep and wakeup of kernel/proc.c: who is woken.
use cs_577_p.Base.{
  ℕ, ◌≡◌, refl, ◌∙◌, true, ◌&&◌, some, map, ok, arith, if◌then◌else◌, get_elem?, get_elem?-map,
}
use cs_577_p.Proc.{
  Proc, runnable, is_sleeping, Chan, same_chan, no_chan, proc_chan, address, Kernel, wake, wakeup,
}
use cs_577_p.Proc.Locking.{IsQuiet, after, after-IsQuiet, lock_quiet, unlock_locked}

pub wakeup_quiet :
    (ch : Chan) (k : Kernel) → IsQuiet k → wakeup ch k ≡ ok (after k (map (wake ch) k.procs))
unfolding wakeup
wakeup_quiet ch k q = rw (lock_quiet k q) (unlock_locked k (map (wake ch) k.procs) q)

pub same_chan_refl : (ch : Chan) → same_chan ch ch ≡ true
same_chan_refl no_chan = refl
same_chan_refl (proc_chan i) = ground arith
same_chan_refl (address a) = ground arith

-- What becomes of one entry.
abbrev pub Woken : Chan → Proc → Proc → Type 0
Woken ch p p' =
    if is_sleeping p.state && same_chan p.chan ch
    then p' ≡ record p { state = runnable }
    else p' ≡ p

-- With no lock held, wakeup returns with the lock free. A process that sleeps on the channel is made runnable, and is not
-- changed otherwise; every other entry of the table is as before.
pub wakeup_exact :
    (ch : Chan) (k : Kernel)
    → IsQuiet k
    → (k' : Kernel) × (wakeup ch k ≡ ok k')
      × IsQuiet k'
      × ((i : ℕ) (p : Proc)
          → get_elem? k.procs i ≡ some p
          → (p' : Proc) × (get_elem? k'.procs i ≡ some p') × Woken ch p p')
wakeup_exact ch k q = (
  after k (map (wake ch) k.procs),
  wakeup_quiet ch k q,
  after-IsQuiet k (map (wake ch) k.procs) q,
  λ i p e. (wake ch p, get_elem?-map (wake ch) k.procs i ∙ rw e refl, ground arith),
)
