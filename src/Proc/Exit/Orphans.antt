-- ===== src/Proc/Exit/Orphans.antt =====
-- exit: the children go to init, and the parent is woken.
use cs_577_p.Base.{
  ℕ, ◌<◌, ◌≡◌, ◌≢◌, refl, ◌∙◌, ap, false, true, Option, some, ok, arith, inl, inr, ◌⊎◌, get_elem?,
  length, length-map, get_elem?-modify_inv, get_or-modify_self, get_elem?-lt,
}
use cs_577_p.Spinlock.{pushcli, holding}
use cs_577_p.Proc.{
  Proc, blank, ProcState, unused, embryo, sleeping, runnable, running, zombie, is_sleeping,
  same_chan, proc_chan, Chan, Kernel, proc_at, change, sched, wake, wakeup1,
}
use cs_577_p.Proc.Locking.{IsQuiet, locked, lock_quiet}
use cs_577_p.Proc.Exit.{chan_of, pass_from, exit_table}
use cs_577_p.Proc.Exit.Adoption.{
  redirect, asleep_on, Stirred, Stirred-trans, Same, wakeup1_inv, wakeup1_awake, after_rounds,
  pass_from_inv, pass_from-Same,
}

abbrev buried : Proc → Proc
buried p = record p { state = zombie }

-- The table at exit's sched.
handed_over : ℕ → Kernel → Kernel
handed_over cur k =
    pass_from cur (length (wakeup1 (chan_of (proc_at k cur).parent) k).procs) 0
      (wakeup1 (chan_of (proc_at k cur).parent) k)

sched_zombie :
    (cur : ℕ) (k j : Kernel)
    → IsQuiet k
    → j.lock ≡ (locked k).lock
    → j.cpu ≡ (locked k).cpu
    → cur < length j.procs
    → sched cur (change cur buried j) ≡ ok (change cur buried j)
unfolding sched holding pushcli
sched_zombie cur k j q l c lt =
    ground (arith, q.none_held, get_or-modify_self j.procs cur buried blank lt)

wakeup1-Same : (ch : Chan) (k : Kernel) → Same k (wakeup1 ch k)
unfolding wakeup1
wakeup1-Same ch k = record {
  same_lock = refl;
  same_cpu = refl;
  same_init = refl;
  same_length = length-map (wake ch) k.procs;
}

handed_over-Same : (cur : ℕ) (k : Kernel) → Same k (handed_over cur k)
unfolding handed_over
handed_over-Same cur k =
    let ch = chan_of (proc_at k cur).parent in
    let s = wakeup1-Same ch k in
    let t = pass_from-Same cur (length (wakeup1 ch k).procs) 0 (wakeup1 ch k) in
    record {
      same_lock = t.same_lock ∙ s.same_lock;
      same_cpu = t.same_cpu ∙ s.same_cpu;
      same_init = t.same_init ∙ s.same_init;
      same_length = t.same_length ∙ s.same_length;
    }

handed_over_inv :
    (cur : ℕ) (k : Kernel) (j : ℕ) (p' : Proc)
    → get_elem? (handed_over cur k).procs j ≡ some p'
    → (p : Proc) × (get_elem? k.procs j ≡ some p)
      × (p'.parent ≡ redirect cur k.init_proc p.parent)
      × (asleep_on (chan_of (proc_at k cur).parent) p' ≡ false)
      × Stirred p p'
unfolding handed_over
handed_over_inv cur k j p' e =
    let ch = chan_of (proc_at k cur).parent in
    let k1 = wakeup1 ch k in
    let (p, q, d, c, w) = pass_from_inv cur (length k1.procs) 0 k1 j p' e in
    let (p0, q0, d0, c0, w0) = wakeup1_inv ch k j p q in
    (
      p0,
      q0,
      d
          ∙ ap (λ z. after_rounds cur z (length k1.procs) 0 j p.parent)
              (wakeup1-Same ch k).same_init
          ∙ all_rounds p (get_elem?-lt k1.procs j p q)
          ∙ ap (redirect cur k.init_proc) d0,
      c ch (wakeup1_awake ch k j p q),
      Stirred-trans p0 p p' w0 w,
    )
  where
    all_rounds :
        (p : Proc)
        → j < length (wakeup1 (chan_of (proc_at k cur).parent) k).procs
        → after_rounds cur k.init_proc
            (length (wakeup1 (chan_of (proc_at k cur).parent) k).procs)
            0
            j
            p.parent
          ≡ redirect cur k.init_proc p.parent
    all_rounds p lt = ground arith

-- The entry `p'` at that point of an entry `p`: its state is the old one, but for entries that slept,
-- which may have been woken; whoever slept on the entry `q`, if it is the parent of the process, was.
pub record Woken (parent : Option ℕ) (p p' : Proc) : Type 0 where
  pub state : (p'.state ≡ p.state) ⊎ ((p.state ≡ sleeping) × (p'.state ≡ runnable))
  pub parent_runs :
      (q : ℕ) → parent ≡ some q → p.state ≡ sleeping → p.chan ≡ proc_chan q → p'.state ≡ runnable

sleeping_state : (s : ProcState) → is_sleeping s ≡ true → s ≡ sleeping
sleeping_state unused e = absurd (ground arith)
sleeping_state embryo e = absurd (ground arith)
sleeping_state sleeping e = refl
sleeping_state runnable e = absurd (ground arith)
sleeping_state running e = absurd (ground arith)
sleeping_state zombie e = absurd (ground arith)

Stirred-Woken :
    (o : Option ℕ) (p p' : Proc) → Stirred p p' → asleep_on (chan_of o) p' ≡ false → Woken o p p'
Stirred-Woken o p p' (inr (a, b)) h = record {
  state = inr (sleeping_state p.state a, b);
  parent_runs = λ q e s c. b;
}
Stirred-Woken o p p' (inl (a, b)) h = record {
  state = inl a;
  parent_runs = λ q e s c. absurd (still q (rw e at h) s c);
}
  where
    still :
        (q : ℕ) → asleep_on (proc_chan q) p' ≡ false → p.state ≡ sleeping → p.chan ≡ proc_chan q → ⊥
    still q z s c =
        let t : is_sleeping p'.state ≡ true = ap is_sleeping (a ∙ s) in
        let u : same_chan p'.chan (proc_chan q) ≡ true =
          ap (λ x. same_chan x (proc_chan q)) (b ∙ c) ∙ ground arith in
        ground (arith, t, u, z)

-- With no lock held, exit, from its acquire on, reaches the swtch of sched with the process a zombie. At
-- that point every child of the process has init as its parent and every other entry has the parent that
-- it had. What slept on the parent of the process can run, and all other entries are in the state that
-- they were in, but for some that slept and can run.
pub exit_table_lem :
    (cur : ℕ) (k : Kernel)
    → IsQuiet k
    → cur < length k.procs
    → (k' : Kernel) × (exit_table cur k ≡ ok k')
      × ((proc_at k' cur).state ≡ zombie)
      × ((j : ℕ) (p' : Proc)
          → get_elem? k'.procs j ≡ some p'
          → (p : Proc) × (get_elem? k.procs j ≡ some p)
            × (p'.parent ≡ redirect cur k.init_proc p.parent)
            × (cur ≢ j → Woken (proc_at k cur).parent p p'))
unfolding exit_table
exit_table_lem cur k q lt =
    let h = handed_over cur (locked k) in
    let s = handed_over-Same cur (locked k) in
    (
      change cur buried h,
      rw (lock_quiet k q) (
          unfold handed_over in
          sched_zombie cur k h q s.same_lock s.same_cpu (rw s.same_length lt)),
      ap (λ (p : Proc). p.state)
          (get_or-modify_self h.procs cur buried blank (rw s.same_length lt)),
      λ j p' e.
          let (p, q1, c) = get_elem?-modify_inv h.procs cur j buried p' e in
          let (p0, q0, d0, a0, w0) = handed_over_inv cur (locked k) j p q1 in
          (p0, q0, same_parent p p' c ∙ d0, λ ne. others p0 p p' ne c w0 a0),
    )
  where
    same_parent :
        {i j : ℕ} (p p' : Proc)
        → (((i ≡ j) × (p' ≡ buried p)) ⊎ ((i ≢ j) × (p' ≡ p)))
        → p'.parent ≡ p.parent
    same_parent p p' (inl (s, d)) = ap (λ (z : Proc). z.parent) d
    same_parent p p' (inr (s, d)) = ap (λ (z : Proc). z.parent) d

    others :
        {j : ℕ} (p0 p p' : Proc)
        → cur ≢ j
        → (((cur ≡ j) × (p' ≡ buried p)) ⊎ ((cur ≢ j) × (p' ≡ p)))
        → Stirred p0 p
        → asleep_on (chan_of (proc_at k cur).parent) p ≡ false
        → Woken (proc_at k cur).parent p0 p'
    others p0 p p' ne (inl (s, d)) w a = absurd (ne s)
    others p0 p p' ne (inr (s, d)) w a = rw d (Stirred-Woken (proc_at k cur).parent p0 p w a)
