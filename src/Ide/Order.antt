-- ===== src/Ide/Order.antt =====
-- Requests and interrupts in any order: each request is finished in its turn.
use cs_577_p.Base.{
  ℕ, suc, ◌+◌, ◌<◌, true, false, List, [], ◌∷◌, ◌++◌, ◌≡◌, ◌≢◌, ◌⊎◌, refl, sym, ap, ◌∙◌, inl, inr,
  arith, ok, Outcome, ◌==◌, length, Bool-cases,
}
use mathlib.Core.Path.{subst}
use mathlib.Core.List.{append_assoc}
use cs_577_p.Mutex.{update}
use cs_577_p.Mutex.Invariant.{elem, Distinct}
use cs_577_p.Bio.{Buf}
use cs_577_p.Ide.{Drive, Ide, ideintr, iderw}
use cs_577_p.Ide.Invariant.{IsRequest, Started, FirstStarted}
use cs_577_p.Ide.Service.{Interrupted}
use cs_577_p.Ide.Locked.{IsValid, ideintr_lem, iderw_lem}

module _ {D : Type 0} (drive : Drive D) where
  -- A process changes a buffer that is not in the queue.
  abbrev pub changed : ℕ → Buf → Ide D → Ide D
  changed i b s = record s { inner = record s.inner { bufs = update s.inner.bufs i b } }

  -- A run with `n` interrupts.
  pub data Run : Ide D → ℕ → Ide D → Type 0 where
    here : {s : Ide D} → Run s 0 s
    request :
        {s t u : Ide D} {n : ℕ} (i : ℕ)
        → IsRequest (s.inner.bufs i)
        → ((s.inner.bufs i).dev ≡ 0) ⊎ (s.havedisk1 ≡ true)
        → elem i s.inner.queue ≡ false
        → iderw drive i s ≡ ok t
        → Run t n u
        → Run s n u
    change :
        {s u : Ide D} {n : ℕ} (i : ℕ) (b : Buf)
        → elem i s.inner.queue ≡ false
        → Run (changed i b s) n u
        → Run s n u
    interrupt : {s t u : Ide D} {n : ℕ} → ideintr drive s ≡ ok t → Run t n u → Run s (suc n) u

  -- In a run from `s`, a request that has `m` others before it is finished by the interrupt after `m`.
  pub record Finished (s t : Ide D) (i m n : ℕ) : Type 0 where
    pub before : Ide D
    pub after : Ide D
    pub behind : List ℕ
    pub reached : Run s m before
    pub fired : ideintr drive before ≡ ok after
    pub same_buf : before.inner.bufs i ≡ s.inner.bufs i
    pub done : Interrupted drive before.inner after.inner i behind
    pub left : ℕ
    pub goes_on : Run after left t
    pub all : n ≡ suc m + left

  changed-IsValid :
      (i : ℕ) (b : Buf) (s : Ide D)
      → elem i s.inner.queue ≡ false
      → IsValid drive s
      → IsValid drive (changed i b s)
  changed-IsValid i b s n v = record {
    inner_Inv = record {
      requests = λ j m. elim (Bool-cases (i == j)) [
        | inl same ↦ absurd (ground arith)
        | inr other ↦ subst IsRequest (sym (other_buf j (ground arith))) (v.inner_Inv.requests j m)
      ];
      distinct = v.inner_Inv.distinct;
      working = by_queue s.inner.queue n v.inner_Inv.working;
    };
    free = v.free;
    nested = v.nested;
  }
    where
      other_buf : (j : ℕ) → i ≢ j → update s.inner.bufs i b j ≡ s.inner.bufs j
      other_buf j ne = ground arith

      by_queue :
          (ids : List ℕ)
          → elem i ids ≡ false
          → FirstStarted drive ids s.inner
          → FirstStarted drive ids (changed i b s).inner
      by_queue [] m w = tt
      by_queue (j ∷ more) m w =
          subst (Started drive (changed i b s).inner) (sym (other_buf j (ground arith)))
            (record { at_ports = w.at_ports; sent = w.sent })

  first_differs : (i j : ℕ) (ahead behind : List ℕ) → elem j (ahead ++ i ∷ behind) ≡ false → j ≢ i
  first_differs i j [] behind h = ground arith
  first_differs i j (x ∷ xs) behind h = first_differs i j xs behind (ground arith)

  -- The run goes on from `t`, where the request has its place and its buffer as in `s`.
  request_first :
      {s t u : Ide D} {i m n : ℕ} (j : ℕ)
      → IsRequest (s.inner.bufs j)
      → ((s.inner.bufs j).dev ≡ 0) ⊎ (s.havedisk1 ≡ true)
      → elem j s.inner.queue ≡ false
      → iderw drive j s ≡ ok t
      → t.inner.bufs i ≡ s.inner.bufs i
      → Finished t u i m n
      → Finished s u i m n
  request_first j r d f e b w = record {
    before = w.before;
    after = w.after;
    behind = w.behind;
    reached = request j r d f e w.reached;
    fired = w.fired;
    same_buf = w.same_buf ∙ b;
    done = w.done;
    left = w.left;
    goes_on = w.goes_on;
    all = w.all;
  }

  change_first :
      {s u : Ide D} {i m n : ℕ} (j : ℕ) (b : Buf)
      → elem j s.inner.queue ≡ false
      → j ≢ i
      → Finished (changed j b s) u i m n
      → Finished s u i m n
  change_first j b f ne w = record {
    before = w.before;
    after = w.after;
    behind = w.behind;
    reached = change j b f w.reached;
    fired = w.fired;
    same_buf = w.same_buf ∙ ground arith;
    done = w.done;
    left = w.left;
    goes_on = w.goes_on;
    all = w.all;
  }

  interrupt_first :
      {s t u : Ide D} {i m n : ℕ}
      → ideintr drive s ≡ ok t
      → t.inner.bufs i ≡ s.inner.bufs i
      → Finished t u i m n
      → Finished s u i (suc m) (suc n)
  interrupt_first e b w = record {
    before = w.before;
    after = w.after;
    behind = w.behind;
    reached = interrupt e w.reached;
    fired = w.fired;
    same_buf = w.same_buf ∙ b;
    done = w.done;
    left = w.left;
    goes_on = w.goes_on;
    all = omega (arith, w.all);
  }

  same_ok : {A : Type 0} {m : Outcome A} {a b : A} → m ≡ ok a → m ≡ ok b → a ≡ b
  same_ok e e' = cc

  -- In every run in which processes make requests, change buffers that are not queued, and interrupts
  -- come, in any order: a request with `m` others before it in the queue is finished by the interrupt that
  -- comes after `m`, if the run has more than `m`; till then its buffer is not changed.
  pub served_in_turn :
      {s t : Ide D} {n : ℕ} (i : ℕ) (ahead behind : List ℕ)
      → Run s n t
      → IsValid drive s
      → s.inner.queue ≡ ahead ++ i ∷ behind
      → length ahead < n
      → Finished s t i (length ahead) n
  served_in_turn i ahead behind here v e h = absurd (omega (arith, h))
  served_in_turn {s} {t} {n} i ahead behind (request {t = t1} j r d f c rest) v e h =
      let (t2, c', v2, q) = iderw_lem drive s j v r d f in
      let same : t2 ≡ t1 = same_ok c' c in
      let longer : t2.inner.queue ≡ ahead ++ i ∷ (behind ++ j ∷ []) =
        q.appended ∙ ap (λ l. l ++ j ∷ []) e ∙ append_assoc ahead (i ∷ behind) (j ∷ []) in
      request_first j r d f c (ap (λ x. x.inner.bufs i) (sym same) ∙ ap (λ b. b i) q.same_bufs) (
        served_in_turn i ahead (behind ++ j ∷ []) rest (subst (IsValid drive) same v2)
          (ap (λ x. x.inner.queue) (sym same) ∙ longer) h)
  served_in_turn {s} {t} {n} i ahead behind (change j b f rest) v e h =
      change_first j b f (first_differs i j ahead behind (ap (elem j) (sym e) ∙ f))
        (served_in_turn i ahead behind rest (changed-IsValid j b s f v) e h)
  served_in_turn {s} {t} i [] behind (interrupt {t = t1} {n = n} c rest) v e h =
      let (t2, c', v2, q) = ideintr_lem drive s i behind v e in
      record {
        before = s;
        after = t1;
        behind = behind;
        reached = here;
        fired = c;
        same_buf = refl;
        done = subst (λ x. Interrupted drive s.inner x.inner i behind) (same_ok c' c) q;
        left = n;
        goes_on = rest;
        all = omega arith;
      }
  served_in_turn {s} {t} i (x ∷ xs) behind (interrupt {t = t1} c rest) v e h =
      let (t2, c', v2, q) = ideintr_lem drive s x (xs ++ i ∷ behind) v e in
      let same : t2 ≡ t1 = same_ok c' c in
      let distinct : Distinct (x ∷ xs ++ i ∷ behind) =
        subst (λ l. Distinct l) e v.inner_Inv.distinct in
      interrupt_first c
        (ap (λ y. y.inner.bufs i) (sym same) ∙ q.others i (first_differs i x xs behind distinct.0))
        (served_in_turn i xs behind rest (subst (IsValid drive) same v2)
          (ap (λ y. y.inner.queue) (sym same) ∙ q.left) (omega (arith, h)))
