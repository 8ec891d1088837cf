-- ===== src/Sem/Tests.antt =====
-- Thread 1 sleeps in sem_wait, and thread 2 is in sem_post, before its signal.
use cs_577_p.Base.{ℕ, ◌+◌, ◌%◌, ◌^◌, true, false, ◌≡◌, refl, ◌⊎◌, arith}
use cs_577_p.Mutex.Invariant.{elem}
use cs_577_p.Sem.{
  System, goto, sem_init, cv_enqueue, setpark, park, want_wait, testing, unlocked, want_post,
  raising, signalling, Reach, start, later, call_wait, lock_wait, wait, unlock_wait, do_park,
  call_post, lock_post, raise,
}
use cs_577_p.Sem.Invariant.{woken}
use cs_577_p.Sem.Safety.{sleeper_is_served}

abbrev before_test : System
before_test = goto 1 testing (record (goto 1 want_wait (sem_init 0)) { held = true })

abbrev before_park : System
before_park = goto 1 unlocked (record (cv_enqueue 1 before_test) { held = false })

abbrev before_raise : System
before_raise = goto 2 raising (record (goto 2 want_post (park 1 before_park)) { held = true })

abbrev before_signal : System
before_signal =
    goto 2 signalling (record before_raise { value = (before_raise.value + 1) % 2 ^ 32 })

before_park-Reach : Reach 0 before_park
unfolding cv_enqueue setpark
before_park-Reach =
    later
      (later (later (later start (call_wait 1 refl)) (lock_wait 1 refl refl)) (wait 1 refl refl))
      (unlock_wait 1 refl)

before_signal-Reach : Reach 0 before_signal
unfolding cv_enqueue setpark park
before_signal-Reach =
    later
      (later (later (later before_park-Reach (do_park 1 refl)) (call_post 2 refl))
        (lock_post 2 refl refl))
      (raise 2 refl)

sleeper_is_served_example :
    (elem 1 before_signal.queue ≡ true)
    × (((i : ℕ) × (woken (before_signal.pc i) (before_signal.told i) ≡ true))
        ⊎ ((i : ℕ) × (before_signal.pc i ≡ signalling)))
unfolding cv_enqueue setpark park
sleeper_is_served_example =
    sleeper_is_served before_signal-Reach 1 refl (ground arith) (ground arith)
