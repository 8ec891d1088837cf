-- ===== src/Sem/Steps.antt =====
-- The invariant of the semaphore holds in every reachable state.
use cs_577_p.Base.{ℕ, true, false, List, [], ◌≡◌, ◌≢◌, refl, arith}
use cs_577_p.Sem.{
  System, Step, Reach, testing, unlocked, retesting, raising, outside, want_wait, want_post,
  call_wait, call_post, lock_wait, take, wait, unlock_wait, do_park, relock, take_again, wait_again,
  lock_post, raise, signal, unlock, start, later,
}
use cs_577_p.Sem.Invariant.{Inv, init-Inv, has_mutex}
use cs_577_p.Sem.Preserved.{
  goto-Inv, take-Inv, take_again-Inv, wait-Inv, wait_again-Inv, park-Inv, raise-Inv,
}
use cs_577_p.Sem.Signalled.{signal-Inv}

-- A free mutex is nobody's.
module _ {n : ℕ} {s : System} {w : List ℕ} (v : Inv n s w) (i : ℕ) where
  free : s.held ≡ false → (a : ℕ) → has_mutex (s.pc a) ≡ true → i ≡ a
  free f a m = absurd (ground (arith, v.mutex_held a))

  alone : has_mutex (s.pc i) ≡ true → (a : ℕ) → i ≢ a → has_mutex (s.pc a) ≡ true → false ≡ true
  alone h a ne m = absurd (ne (v.mutex_one i a h m))

  kept : (a : ℕ) → i ≢ a → has_mutex (s.pc a) ≡ true → s.held ≡ true
  kept a ne m = v.mutex_held a m

pub Step-Inv :
    {n : ℕ} {s t : System} {w : List ℕ} → Step s t → Inv n s w → (w' : List ℕ) × Inv n t w'
Step-Inv {n} {s} {w = w} (call_wait i p) v = (
  w,
  goto-Inv v i want_wait s.held (ground arith) (ground arith) (ground arith) (ground arith)
      (λ t. ground (arith, v.told_unlocked i)) (λ m. absurd (ground arith)) (kept v i)
      (λ q. ground arith),
)
Step-Inv {n} {s} {w = w} (call_post i p) v = (
  w,
  goto-Inv v i want_post s.held (ground arith) (ground arith) (ground arith) (ground arith)
      (λ t. ground (arith, v.told_unlocked i)) (λ m. absurd (ground arith)) (kept v i)
      (λ q. ground arith),
)
Step-Inv {n} {s} {w = w} (lock_wait i p f) v = (
  w,
  goto-Inv v i testing true (ground arith) (ground arith) (ground arith) (ground arith)
      (λ t. ground (arith, v.told_unlocked i)) (λ m. (refl, free v i f)) (λ a ne m. refl)
      (λ q. ground arith),
)
Step-Inv {n} {s} {w = w} (take i p h) v = (w, take-Inv v i h p)
Step-Inv {n} {s} {w = w} (wait i p e) v = (w, wait-Inv v i e p)
Step-Inv {n} {s} {w = w} (unlock_wait i p) v = (
  w,
  goto-Inv v i unlocked false (ground arith) (ground arith) (ground (arith, v.told_unlocked i))
      (ground (arith, v.told_unlocked i)) (λ t. refl) (λ m. absurd (ground arith))
      (alone v i (ground arith)) (λ q. ground arith),
)
Step-Inv {n} {s} {w = w} (do_park i p) v = (w, park-Inv v i p)
Step-Inv {n} {s} {w = w} (relock i p f) v = (
  w,
  goto-Inv v i retesting true (ground arith) (ground arith) (ground arith) (ground arith)
      (λ t. ground (arith, v.told_unlocked i)) (λ m. (refl, free v i f)) (λ a ne m. refl)
      (λ q. ground arith),
)
Step-Inv {n} {s} {w = w} (take_again i p h) v = (_, take_again-Inv v i h p)
Step-Inv {n} {s} {w = w} (wait_again i p e) v = (_, wait_again-Inv v i e p)
Step-Inv {n} {s} {w = w} (lock_post i p f) v = (
  w,
  goto-Inv v i raising true (ground arith) (ground arith) (ground arith) (ground arith)
      (λ t. ground (arith, v.told_unlocked i)) (λ m. (refl, free v i f)) (λ a ne m. refl)
      (λ q. ground arith),
)
Step-Inv {n} {s} {w = w} (raise i p) v = (w, raise-Inv v i p)
Step-Inv {n} {s} {w = w} (signal i p) v = signal-Inv n s w i p v
Step-Inv {n} {s} {w = w} (unlock i p) v = (
  w,
  goto-Inv v i outside false (ground arith) (ground arith) (ground arith) (ground arith)
      (λ t. ground (arith, v.told_unlocked i)) (λ m. absurd (ground arith))
      (alone v i (ground arith)) (λ q. ground arith),
)

pub Reach-Inv : {n : ℕ} {s : System} → Reach n s → (w : List ℕ) × Inv n s w
Reach-Inv {n} start = ([], init-Inv n)
Reach-Inv (later r st) = let (w, v) = Reach-Inv r in Step-Inv st v
