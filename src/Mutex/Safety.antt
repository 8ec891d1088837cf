-- ===== src/Mutex/Safety.antt =====
-- What a client of the mutex may rely on.
use cs_577_p.Base.{ℕ, Bool, true, false, ◌≡◌, ◌≢◌, arith, Bool-cases, inl, inr}
use cs_577_p.Mutex.{Pc, sleeping, inside, leaving, System, Reach}
use cs_577_p.Mutex.Invariant.{elem, owns}
use cs_577_p.Mutex.Preserved.{Reach-Inv}

-- Between the return of mutex_lock and the end of mutex_unlock.
abbrev pub in_section : Pc → Bool
in_section inside = true
in_section leaving = true
in_section _ = false

-- In every reachable state, while one thread is between the return of mutex_lock and the end of
-- mutex_unlock no other is.
pub thread_exclusion :
    {s : System}
    → Reach s
    → (i j : ℕ) → i ≢ j
    → in_section (s.pc i) ≡ true
    → in_section (s.pc j) ≡ false
thread_exclusion {s} r i j ne hi = elim (Bool-cases (in_section (s.pc j))) [
  | inl hj ↦ absurd (ground (arith, (Reach-Inv r).owns_one i j))
  | inr out ↦ out
]

-- In every reachable state, a thread that sleeps in mutex_lock is in the queue, and some thread owns the
-- mutex, by having got it or by having been told, before its park, that it has: no wakeup is lost.
pub sleeper_has_owner :
    {s : System}
    → Reach s
    → (i : ℕ) → s.pc i ≡ sleeping
    → (elem i s.queue ≡ true) × (s.flag ≡ true) × ((j : ℕ) × (owns (s.pc j) (s.told j) ≡ true))
sleeper_has_owner {s} r i h =
    let v = Reach-Inv r in
    let q : elem i s.queue ≡ true = ground (arith, v.waits_iff i, v.told_parking i) in
    let f : s.flag ≡ true = v.queue_flag i q in (q, f, v.owner f)
