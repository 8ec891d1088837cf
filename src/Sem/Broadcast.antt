-- ===== src/Sem/Broadcast.antt =====
-- cv_broadcast of user/condvar.c, called with the mutex held.
use cs_577_p.Base.{ℕ, true, false, List, [], ◌∷◌, ◌≡◌, refl, arith, ◌⊎◌, ◌==◌, inl, inr, Bool-cases}
use cs_577_p.Mutex.Invariant.{elem}
use cs_577_p.Sem.{relocking, System, unpark}

-- The loop, on the queue that is left.
unfoldable pub drain : List ℕ → System → System
unfolding unpark
drain [] s = s
drain (j ∷ rest) s = drain rest (unpark j (record s { queue = rest }))

abbrev pub cv_broadcast : System → System
cv_broadcast s = drain s.queue s

drain-empty : (q : List ℕ) (s : System) → s.queue ≡ q → (drain q s).queue ≡ []
unfolding drain unpark
drain-empty [] s e = e
drain-empty (j ∷ rest) s e = drain-empty rest (unpark j (record s { queue = rest })) (ground arith)

-- A thread that is back from park, or told, stays so.
drain-awake :
    (q : List ℕ) (s : System) (a : ℕ)
    → s.parked a ≡ false
    → (s.pc a ≡ (drain q s).pc a)
      × ((drain q s).parked a ≡ false)
      × (s.told a ≡ true → (drain q s).told a ≡ true)
unfolding drain unpark
drain-awake [] s a h = (refl, h, λ t. t)
drain-awake (j ∷ rest) s a h =
    let (p, k, t) = drain-awake rest (unpark j (record s { queue = rest })) a (ground arith) in
    (ground (arith, p), k, λ x. t (ground arith))

drain-sleeper :
    (q : List ℕ) (s : System) (a : ℕ)
    → elem a q ≡ true
    → s.parked a ≡ true
    → ((drain q s).pc a ≡ relocking) × ((drain q s).parked a ≡ false)
unfolding drain unpark
drain-sleeper [] s a m h = absurd (ground arith)
drain-sleeper (j ∷ rest) s a m h = elim (Bool-cases (j == a)) [
  | inl e ↦
      let (p, k, t) = drain-awake rest (unpark j (record s { queue = rest })) a (ground arith) in
      (ground (arith, p), k)
  | inr e ↦
      drain-sleeper rest (unpark j (record s { queue = rest })) a (ground arith) (ground arith)
]

drain-announced :
    (q : List ℕ) (s : System) (a : ℕ)
    → elem a q ≡ true
    → s.parked a ≡ false
    → s.announced a ≡ true
    → (drain q s).told a ≡ true
unfolding drain unpark
drain-announced [] s a m h n = absurd (ground arith)
drain-announced (j ∷ rest) s a m h n = elim (Bool-cases (j == a)) [
  | inl e ↦
      (drain-awake rest (unpark j (record s { queue = rest })) a (ground arith)).2 (ground arith)
  | inr e ↦
      drain-announced rest (unpark j (record s { queue = rest })) a (ground arith) (ground arith)
        (ground arith)
]

-- cv_broadcast empties the queue; a thread of the queue that sleeps is back from park afterwards, and one
-- that has announced its park and does not sleep is told, so that its park returns at once.
pub cv_broadcast_lem :
    (s : System) (a : ℕ)
    → elem a s.queue ≡ true
    → (s.parked a ≡ true) ⊎ ((s.parked a ≡ false) × (s.announced a ≡ true))
    → ((cv_broadcast s).queue ≡ [])
      × (((cv_broadcast s).pc a ≡ relocking) ⊎ ((cv_broadcast s).told a ≡ true))
cv_broadcast_lem s a m (inl h) = (drain-empty s.queue s refl, inl (drain-sleeper s.queue s a m h).0)
cv_broadcast_lem s a m (inr (h, n)) =
    (drain-empty s.queue s refl, inr (drain-announced s.queue s a m h n))
