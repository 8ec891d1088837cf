-- ===== src/Proc/Exit/Adoption.antt =====
-- The loop of exit over the table: whom it gives to init, and whom it wakes.
use cs_577_p.Base.{
  ℕ, zero, suc, ◌+◌, ◌≡◌, ◌≢◌, refl, sym, ◌∙◌, ap, Bool, true, false, ◌&&◌, Option, some, arith,
  if◌then◌else◌, ◌==◌, leb, ltb, inl, inr, ◌⊎◌, get_elem?, modify, length, length-modify,
  length-map, get_elem?-map_inv, get_elem?-modify_inv, get_or-eq, Bool-cases,
}
use cs_577_p.Proc.{
  Proc, blank, runnable, is_sleeping, is_zombie, Chan, proc_chan, same_chan, Kernel, proc_at,
  change, is_ptr, wake, wakeup1,
}
use cs_577_p.Proc.Exit.{pass_one, pass_from}

abbrev pub redirect : ℕ → ℕ → Option ℕ → Option ℕ
redirect cur init o = if is_ptr o cur then some init else o

abbrev pub asleep_on : Chan → Proc → Bool
asleep_on ch p = is_sleeping p.state && same_chan p.chan ch

-- What the loop leaves alone.
pub record Same (k k' : Kernel) : Type 0 where
  pub same_lock : k'.lock ≡ k.lock
  pub same_cpu : k'.cpu ≡ k.cpu
  pub same_init : k'.init_proc ≡ k.init_proc
  pub same_length : length k'.procs ≡ length k.procs

-- `p'` is in the state of `p`, or it has been woken.
abbrev pub Stirred : Proc → Proc → Type 0
Stirred p p' =
    ((p'.state ≡ p.state) × (p'.chan ≡ p.chan))
    ⊎ ((is_sleeping p.state ≡ true) × (p'.state ≡ runnable))

wake-Stirred : (ch : Chan) (p : Proc) → Stirred p (wake ch p)
wake-Stirred ch p = elim (Bool-cases (is_sleeping p.state && same_chan p.chan ch)) [
  | inl h ↦ inr (ground arith, rw h refl)
  | inr h ↦ inl (rw h refl, rw h refl)
]

pub Stirred-trans : (p q r : Proc) → Stirred p q → Stirred q r → Stirred p r
Stirred-trans p q r (inl (s, c)) (inl (s', c')) = inl (s' ∙ s, c' ∙ c)
Stirred-trans p q r (inl (s, c)) (inr (a, b)) = inr (ap is_sleeping (sym s) ∙ a, b)
Stirred-trans p q r (inr (a, b)) (inl (s', c')) = inr (a, s' ∙ b)
Stirred-trans p q r (inr (a, b)) (inr (a', b')) = inr (a, b')

-- Where entry `j` of a later table comes from: its parent is `par` of the old one, it sleeps only where
-- it slept, and its state is the old one unless it has been woken.
abbrev pub Origin : Kernel → ℕ → Proc → (Option ℕ → Option ℕ) → Type 0
Origin k j p' par =
    (p : Proc) × (get_elem? k.procs j ≡ some p)
    × (p'.parent ≡ par p.parent)
    × ((ch : Chan) → asleep_on ch p ≡ false → asleep_on ch p' ≡ false)
    × Stirred p p'

pub wake-calm :
    (ch ch' : Chan) (p : Proc) → asleep_on ch p ≡ false → asleep_on ch (wake ch' p) ≡ false
wake-calm ch ch' p h = ground arith

wake-awake : (ch : Chan) (p : Proc) → asleep_on ch (wake ch p) ≡ false
wake-awake ch p = ground arith

pub wake-parent : (ch : Chan) (p : Proc) → (wake ch p).parent ≡ p.parent
wake-parent ch p = ground arith

pub wakeup1_inv :
    (ch : Chan) (k : Kernel) (j : ℕ) (p' : Proc)
    → get_elem? (wakeup1 ch k).procs j ≡ some p'
    → Origin k j p' (λ o. o)
unfolding wakeup1
wakeup1_inv ch k j p' e =
    let (p, q, d) = get_elem?-map_inv (wake ch) k.procs j p' e in
    (p, q, rw d (wake-parent ch p), λ c h. rw d (wake-calm c ch p h), rw d (wake-Stirred ch p))

pub wakeup1_awake :
    (ch : Chan) (k : Kernel) (j : ℕ) (p' : Proc)
    → get_elem? (wakeup1 ch k).procs j ≡ some p'
    → asleep_on ch p' ≡ false
unfolding wakeup1
wakeup1_awake ch k j p' e =
    let (p, q, d) = get_elem?-map_inv (wake ch) k.procs j p' e in rw d (wake-awake ch p)

-- The parent of entry `j` after round `i`.
abbrev after_round : ℕ → ℕ → ℕ → ℕ → Option ℕ → Option ℕ
after_round cur init i j o = if i == j then redirect cur init o else o

adopt : ℕ → Kernel → Kernel
adopt i k = change i (λ p. record p { parent = some k.init_proc }) k

adopt_inv :
    (cur i : ℕ) (k : Kernel) (j : ℕ) (p' : Proc)
    → is_ptr (proc_at k i).parent cur ≡ true
    → get_elem? (adopt i k).procs j ≡ some p'
    → Origin k j p' (after_round cur k.init_proc i j)
unfolding adopt
adopt_inv cur i k j p' child e =
    let (p, q, c) =
      get_elem?-modify_inv k.procs i j (λ a. record a { parent = some k.init_proc }) p' e in
    (p, q, by_case p q c, λ ch h. calm ch p h c, same_state p c)
  where
    by_case :
        (p : Proc)
        → get_elem? k.procs j ≡ some p
        → (((i ≡ j) × (p' ≡ record p { parent = some k.init_proc })) ⊎ ((i ≢ j) × (p' ≡ p)))
        → p'.parent ≡ after_round cur k.init_proc i j p.parent
    by_case p q (inl (s, d)) =
        let at_i : proc_at k i ≡ p = rw s (get_or-eq k.procs j p blank q) in
        let here : is_ptr p.parent cur ≡ true = rw at_i at child in rw d (ground arith)
    by_case p q (inr (s, d)) = rw d (ground arith)

    same_state :
        (p : Proc)
        → (((i ≡ j) × (p' ≡ record p { parent = some k.init_proc })) ⊎ ((i ≢ j) × (p' ≡ p)))
        → Stirred p p'
    same_state p (inl (s, d)) = rw d (inl (refl, refl))
    same_state p (inr (s, d)) = rw d (inl (refl, refl))

    calm :
        (ch : Chan) (p : Proc)
        → asleep_on ch p ≡ false
        → (((i ≡ j) × (p' ≡ record p { parent = some k.init_proc })) ⊎ ((i ≢ j) × (p' ≡ p)))
        → asleep_on ch p' ≡ false
    calm ch p h (inl (s, d)) = rw d h
    calm ch p h (inr (s, d)) = rw d h

pass_one_inv :
    (cur i : ℕ) (k : Kernel) (j : ℕ) (p' : Proc)
    → get_elem? (pass_one cur i k).procs j ≡ some p'
    → Origin k j p' (after_round cur k.init_proc i j)
unfolding pass_one
pass_one_inv cur i k j p' e = elim (Bool-cases (is_ptr (proc_at k i).parent cur)) [
  | inr other ↦ (p', rw other at e, same other (rw other at e), λ ch h. h, inl (refl, refl))
  | inl child ↦ elim (Bool-cases (is_zombie (proc_at k i).state)) [
    | inr alive ↦ adopt_inv cur i k j p' child (unfold adopt in rw (child, alive) at e)
    | inl dead ↦
        let (p, q, d, c, w) =
          wakeup1_inv (proc_chan k.init_proc) (adopt i k) j p'
            (unfold adopt in rw (child, dead) at e) in
        let (p0, q0, d0, c0, w0) = adopt_inv cur i k j p child q in
        (p0, q0, d ∙ d0, λ ch h. c ch (c0 ch h), Stirred-trans p0 p p' w0 w)
  ]
]
  where
    same :
        is_ptr (proc_at k i).parent cur ≡ false
        → get_elem? k.procs j ≡ some p'
        → p'.parent ≡ after_round cur k.init_proc i j p'.parent
    same other q = elim (Bool-cases (i == j)) [
      | inl s ↦
          let s' : i ≡ j = ground arith in
          let at_i : proc_at k i ≡ p' = rw s' (get_or-eq k.procs j p' blank q) in
          let here : is_ptr p'.parent cur ≡ false = rw at_i at other in rw s (rw here refl)
      | inr n ↦ rw n refl
    ]

pass_one-Same : (cur i : ℕ) (k : Kernel) → Same k (pass_one cur i k)
unfolding pass_one wakeup1
pass_one-Same cur i k = ground (
  arith,
  length-modify k.procs i (λ p. record p { parent = some k.init_proc }),
  length-map (wake (proc_chan k.init_proc))
      (modify k.procs i (λ p. record p { parent = some k.init_proc })),
)

-- The parent of entry `j` after `n` rounds from `i` on.
abbrev pub after_rounds : ℕ → ℕ → ℕ → ℕ → ℕ → Option ℕ → Option ℕ
after_rounds cur init n i j o = if leb i j && ltb j (i + n) then redirect cur init o else o

join_rounds :
    (cur init n i j : ℕ) (o : Option ℕ)
    → after_rounds cur init n (i + 1) j (after_round cur init i j o)
      ≡ after_rounds cur init (suc n) i j o
join_rounds cur init n i j o = ground arith

pub pass_from_inv :
    (cur n i : ℕ) (k : Kernel) (j : ℕ) (p' : Proc)
    → get_elem? (pass_from cur n i k).procs j ≡ some p'
    → Origin k j p' (after_rounds cur k.init_proc n i j)
unfolding pass_from
pass_from_inv cur zero i k j p' e = (p', e, ground arith, λ ch h. h, inl (refl, refl))
pass_from_inv cur (suc n) i k j p' e =
    let (p, q, d, c, w) = pass_from_inv cur n (i + 1) (pass_one cur i k) j p' e in
    let (p0, q0, d0, c0, w0) = pass_one_inv cur i k j p q in
    (
      p0,
      q0,
      d
          ∙ ap (λ z. after_rounds cur z n (i + 1) j p.parent) (pass_one-Same cur i k).same_init
          ∙ ap (after_rounds cur k.init_proc n (i + 1) j) d0
          ∙ join_rounds cur k.init_proc n i j p0.parent,
      λ ch h. c ch (c0 ch h),
      Stirred-trans p0 p p' w0 w,
    )

pub pass_from-Same : (cur n i : ℕ) (k : Kernel) → Same k (pass_from cur n i k)
unfolding pass_from
pass_from-Same cur zero i k = record {
  same_lock = refl;
  same_cpu = refl;
  same_init = refl;
  same_length = refl;
}
pass_from-Same cur (suc n) i k =
    let s = pass_one-Same cur i k in
    let t = pass_from-Same cur n (i + 1) (pass_one cur i k) in
    record {
      same_lock = t.same_lock ∙ s.same_lock;
      same_cpu = t.same_cpu ∙ s.same_cpu;
      same_init = t.same_init ∙ s.same_init;
      same_length = t.same_length ∙ s.same_length;
    }
