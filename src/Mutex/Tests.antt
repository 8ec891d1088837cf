-- ===== src/Mutex/Tests.antt =====
-- Two threads: one owns the mutex, the other goes to sleep on it.
use cs_577_p.Base.{ℕ, ◌≡◌, refl, true, false, [], ◌∷◌, ◌++◌, arith}
use cs_577_p.Mutex.{
  testing, queued, parking, inside, System, goto, setpark, park, Reach, start, later, lock_guard,
  get_flag, enqueue, drop_guard, do_park, mutex_init,
}
use cs_577_p.Mutex.Invariant.{elem, owns}
use cs_577_p.Mutex.Safety.{in_section, thread_exclusion, sleeper_has_owner}

abbrev owned : System
owned =
    goto 1 inside
      (record (goto 1 testing (record mutex_init { guard = true })) { flag = true; guard = false })

owned-Reach : Reach owned
owned-Reach = later (later start (lock_guard 1 refl refl)) (get_flag 1 refl refl)

thread_exclusion_example : in_section (owned.pc 2) ≡ false
thread_exclusion_example = thread_exclusion owned-Reach 1 2 (omega arith) refl

abbrev waiting : System
waiting =
    let tested : System = goto 2 testing (record owned { guard = true }) in
    goto 2 parking
      (record (goto 2 queued (setpark 2 (record tested { queue = tested.queue ++ 2 ∷ [] }))) {
        guard = false;
      })

waiting-Reach : Reach waiting
unfolding setpark
waiting-Reach =
    later (later (later owned-Reach (lock_guard 2 refl refl)) (enqueue 2 refl refl))
      (drop_guard 2 refl)

slept-Reach : Reach (park 2 waiting)
unfolding setpark
slept-Reach = later waiting-Reach (do_park 2 refl)

sleeper_has_owner_example :
    (elem 2 (park 2 waiting).queue ≡ true)
    × ((park 2 waiting).flag ≡ true)
    × ((j : ℕ) × (owns ((park 2 waiting).pc j) ((park 2 waiting).told j) ≡ true))
unfolding setpark park
sleeper_has_owner_example = sleeper_has_owner slept-Reach 2 refl
