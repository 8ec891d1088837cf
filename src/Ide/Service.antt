-- ===== src/Ide/Service.antt =====
-- One interrupt and one request, on what idelock protects.
use cs_577_p.Base.{
  ℕ, true, false, List, [], ◌∷◌, ◌++◌, ◌≡◌, ◌≢◌, refl, sym, ap, ◌∙◌, inl, inr, arith, ok, ◌==◌,
  Bool-cases,
}
use mathlib.Core.Path.{subst}
use cs_577_p.Mutex.{update}
use cs_577_p.Mutex.Invariant.{elem, Distinct, elem-append, Distinct-append}
use cs_577_p.Ide.{Drive, Queue, idestart, finish, serve_first, serve, enqueue, is_first}
use cs_577_p.Ide.Invariant.{
  IsRequest, Inv, Started, FirstStarted, Served, begun, begun-Started, finish-Served, next_lem,
}

update_self : {A : Type 0} (f : ℕ → A) (i : ℕ) (a : A) → update f i a i ≡ a
update_self f i a = ground arith

update_ne : {A : Type 0} (f : ℕ → A) (i j : ℕ) (a : A) → i ≢ j → update f i a j ≡ f j
update_ne f i j a h = ground arith

module _ {D : Type 0} (drive : Drive D) where
  -- What an interrupt does to a queue that starts with `i`.
  pub record Interrupted (q q' : Queue D) (i : ℕ) (rest : List ℕ) : Type 0 where
    pub kept_Inv : Inv drive q'
    pub left : q'.queue ≡ rest
    pub served : Served drive q (q.bufs i) (q'.bufs i)
    pub others : (j : ℕ) → i ≢ j → q'.bufs j ≡ q.bufs j
    pub wakes : q'.woken ≡ i ∷ q.woken

  pub serve_lem :
      (q : Queue D) (i : ℕ) (rest : List ℕ)
      → q.queue ≡ i ∷ rest
      → Inv drive q
      → (q' : Queue D) × (serve drive q ≡ ok q') × Interrupted q q' i rest
  unfolding serve serve_first
  serve_lem q i rest e v =
      let (q', e', v', l, b, w) = next_lem drive rest q1 later-IsRequest distinct.1 in
      (
        q',
        ap (λ l. serve_first drive l q) e ∙ e',
        record {
          kept_Inv = v';
          left = l;
          served = subst (λ f. Served drive q (q.bufs i) (f i)) (sym b) first_served;
          others = λ j ne. ap (λ f. f j) b ∙ update_ne q.bufs i j (finish drive q (q.bufs i)) ne;
          wakes = w;
        },
      )
    where
      q1 : Queue D
      q1 = record q { bufs = update q.bufs i (finish drive q (q.bufs i)); woken = i ∷ q.woken }

      distinct : (elem i rest ≡ false) × Distinct rest
      distinct = subst (λ l. Distinct l) e v.distinct

      later-IsRequest : (j : ℕ) → elem j rest ≡ true → IsRequest (q1.bufs j)
      later-IsRequest j m =
          let ne : i ≢ j = ground (arith, distinct.0) in
          subst IsRequest (sym (update_ne q.bufs i j (finish drive q (q.bufs i)) ne))
            (v.requests j (ground arith))

      first_served : Served drive q (q.bufs i) (q1.bufs i)
      first_served =
          subst (Served drive q (q.bufs i)) (sym (update_self q.bufs i (finish drive q (q.bufs i))))
            (finish-Served drive q (q.bufs i) (v.requests i (ground arith))
              (subst (λ l. FirstStarted drive l q) e v.working))

  -- What a request for `i` does to the queue.
  pub record Requested (q q' : Queue D) (i : ℕ) : Type 0 where
    pub kept_Inv : Inv drive q'
    pub appended : q'.queue ≡ q.queue ++ i ∷ []
    pub same_bufs : q'.bufs ≡ q.bufs
    pub no_wakeup : q'.woken ≡ q.woken

  pub enqueue_lem :
      (q : Queue D) (i : ℕ)
      → elem i q.queue ≡ false
      → IsRequest (q.bufs i)
      → Inv drive q
      → (q' : Queue D) × (enqueue drive i q ≡ ok q') × Requested q q' i
  unfolding enqueue idestart
  enqueue_lem q i n r v = by_queue q.queue refl
    where
      q1 : Queue D
      q1 = record q { queue = q.queue ++ i ∷ [] }

      all : (j : ℕ) → elem j q1.queue ≡ true → IsRequest (q.bufs j)
      all j m = elim (Bool-cases (i == j)) [
        | inl same ↦ subst (λ x. IsRequest (q.bufs x)) (ground arith) r
        | inr other ↦ v.requests j (ground (arith, elem-append j i q.queue))
      ]

      by_queue :
          (ids : List ℕ)
          → q.queue ≡ ids
          → (q' : Queue D) × (enqueue drive i q ≡ ok q') × Requested q q' i
      by_queue [] e =
          let idle : is_first i (q.queue ++ i ∷ []) ≡ true =
            ap (λ l. is_first i (l ++ i ∷ [])) e ∙ ground arith in
          (
            begun drive i q1,
            rw idle refl,
            record {
              kept_Inv = record {
                requests = all;
                distinct = Distinct-append i q.queue n v.distinct;
                working =
                    subst (λ l. FirstStarted drive (l ++ i ∷ []) (begun drive i q1)) (sym e)
                      (begun-Started drive i q1 r);
              };
              appended = refl;
              same_bufs = refl;
              no_wakeup = refl;
            },
          )
      by_queue (j ∷ more) e =
          let m : elem i (j ∷ more) ≡ false = subst (λ l. elem i l ≡ false) e n in
          let at_work : is_first i (q.queue ++ i ∷ []) ≡ false =
            ap (λ l. is_first i (l ++ i ∷ [])) e ∙ ground arith in
          let s : Started drive q (q.bufs j) = subst (λ l. FirstStarted drive l q) e v.working in
          let still : Started drive q1 (q.bufs j) = record {
            at_ports = s.at_ports;
            sent = s.sent;
          } in
          (
            q1,
            rw at_work refl,
            record {
              kept_Inv = record {
                requests = all;
                distinct = Distinct-append i q.queue n v.distinct;
                working = subst (λ l. FirstStarted drive (l ++ i ∷ []) q1) (sym e) still;
              };
              appended = refl;
              same_bufs = refl;
              no_wakeup = refl;
            },
          )
