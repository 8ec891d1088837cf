-- ===== src/Sem/Safety.antt =====
-- What a user of the semaphore may rely on.
use cs_577_p.Base.{ℕ, ◌^◌, ◌<◌, ◌≤◌, length, true, List, [], ◌∷◌, ◌≡◌, arith, ◌⊎◌, inl, inr}
use cs_577_p.Mutex.Invariant.{elem}
use cs_577_p.Sem.{System, Reach, asleep, signalling}
use cs_577_p.Sem.Invariant.{Inv, avail, woken}
use cs_577_p.Sem.Steps.{Reach-Inv}

-- In every reachable state in which a thread sleeps in sem_wait although the value, an int, is positive,
-- the sleeper is in the queue, and some thread was already woken and has still to test the value, or some
-- thread in sem_post is about to signal: no wakeup is lost.
pub sleeper_is_served :
    {n : ℕ} {s : System}
    → Reach n s
    → (a : ℕ) → s.pc a ≡ asleep
    → 0 < s.value
    → s.value < 2 ^ 31
    → (elem a s.queue ≡ true)
      × (((i : ℕ) × (woken (s.pc i) (s.told i) ≡ true)) ⊎ ((i : ℕ) × (s.pc i ≡ signalling)))
sleeper_is_served {n} {s} r a p h h31 =
    let (w, v) = Reach-Inv r in
    let q : elem a s.queue ≡ true = ground (arith, v.waits_iff a) in
    (
      q,
      elim (v.covered a q) [
        | inr (i, at_signal, le) ↦ inr (i, at_signal)
        | inl le ↦ inl (first w v le)
      ],
    )
  where
    first :
        (w : List ℕ)
        → Inv n s w
        → avail s.value ≤ length w
        → (i : ℕ) × (woken (s.pc i) (s.told i) ≡ true)
    first [] v le = absurd (ground (arith, h, h31))
    first (i ∷ w) v le = (i, ground (arith, v.woken_iff i))
