-- ===== src/Proc/Scheduler/Fair.antt =====
-- In each round of the scheduler every process that can run gets the CPU.
use cs_577_p.Base.{
  ℕ, zero, suc, ◌+◌, ◌≤◌, ◌<◌, true, List, [], ◌∷◌, ok, ◌≡◌, ◌≢◌, refl, arith, inl, inr, ◌==◌,
  length, Bool-cases, Outcome, ◌>>=◌, length-modify, get_or-modify_self, get_or-modify_ne, ◌∙◌,
}
use cs_577_p.Mutex.Invariant.{elem}
use cs_577_p.Proc.{Kernel, is_runnable, proc_at, running, blank, lock_ptable, unlock_ptable}
use cs_577_p.Proc.Locking.{IsQuiet, locked, lock_quiet}
use cs_577_p.Proc.Scheduler.{Core, nproc, switchuvm, turn, turns_from, scheduler_round}
use cs_577_p.Proc.Scheduler.Switch.{
  Ready, Returns, Ran, Ascending, Ascending-weaken, here_or_later, switchuvm_lem, started,
  unlock-Ready, given, returned,
}

module _ (run : ℕ → Kernel → Outcome Kernel) (fair : Returns run) where
  proc_at-given_ne : (p j : ℕ) (c : Core) → p ≢ j → proc_at (given p c) j ≡ proc_at c.kernel j
  proc_at-given_ne p j c ne =
      get_or-modify_ne c.kernel.procs p j (λ e. record e { state = running }) blank ne

  proc_at-given_self :
      (p : ℕ) (c : Core)
      → p < length c.kernel.procs
      → proc_at (given p c) p ≡ record (proc_at c.kernel p) { state = running }
  proc_at-given_self p c h =
      get_or-modify_self c.kernel.procs p (λ e. record e { state = running }) blank h

  given-Ready : (p : ℕ) (c : Core) → p < nproc → Ready c.kernel → Ready (given p c)
  given-Ready p c h r = record {
    mine = r.mine;
    once = r.once;
    off = r.off;
    size = length-modify c.kernel.procs p (λ e. record e { state = running }) ∙ r.size;
    mapped = λ j q. elim (Bool-cases (p == j)) [
      | inl e ↦ absurd (ground (arith, proc_at-given_self p c (rw r.size h)))
      | inr e ↦ λ z.
          r.mapped j (rw (proc_at-given_ne p j c (ground arith)) at q)
            (rw (proc_at-given_ne p j c (ground arith)) at z)
    ];
  }

  -- One turn, of an entry that can run.
  turn_lem :
      (p : ℕ) (c : Core)
      → p < nproc
      → Ready c.kernel
      → is_runnable (proc_at c.kernel p).state ≡ true
      → (k : Kernel) × (turn run p c ≡ ok (returned p c k))
        × (run p (given p c) ≡ ok k)
        × Ready k
        × ((j : ℕ)
            → p ≢ j
            → is_runnable (proc_at c.kernel j).state ≡ true
            → is_runnable (proc_at k j).state ≡ true)
  unfolding turn switchuvm
  turn_lem p c h r q =
      let (k, e, r', keep) =
        fair.back p (given p c) h (given-Ready p c h r)
          (rw (proc_at-given_self p c (rw r.size h)) refl) in
      (k, back k e, e, r', λ j ne a. keep j ne (rw (proc_at-given_ne p j c ne) a))
    where
      back : (k : Kernel) → run p (given p c) ≡ ok k → turn run p c ≡ ok (returned p c k)
      back k e = rw (switchuvm_lem p c r (r.mapped p q), e) refl

  -- The rest of a round, from entry `p` on.
  turns_lem :
      (n p : ℕ) (c : Core)
      → n + p ≡ nproc
      → Ready c.kernel
      → (c' : Core) × (ts : List ℕ) × (turns_from run n p c ≡ ok (c', ts))
        × Ran run ts c.kernel c'.kernel
        × Ready c'.kernel
        × Ascending p ts
        × ((j : ℕ)
            → p ≤ j
            → j < nproc
            → is_runnable (proc_at c.kernel j).state ≡ true
            → elem j ts ≡ true)
  unfolding turns_from Ran
  turns_lem zero p c h r = (c, [], refl, refl, r, tt, λ j a b q. absurd (omega arith))
  turns_lem (suc n) p c h r = elim (Bool-cases (is_runnable (proc_at c.kernel p).state)) [
    | inr unable ↦
        let (c', ts, e, ran, r', asc, all) = turns_lem n (suc p) c (omega arith) r in
        (
          c',
          ts,
          rw unable e,
          ran,
          r',
          Ascending-weaken p ts asc,
          λ j a b q. all j (ground arith) b q,
        )
    | inl able ↦
        let (k, e, back, r1, keep) = turn_lem p c (omega arith) r able in
        let (c', ts, e', ran, r', asc, all) =
          turns_lem n (suc p) (returned p c k) (omega arith) r1 in
        (
          c',
          p ∷ ts,
          rw (able, e, e') refl,
          (k, back, ran),
          r',
          (omega arith, asc),
          λ j a b q. here_or_later p j ts a (λ l. all j l b (keep j (omega arith) q)),
        )
  ]

  -- A round from the results of its parts.
  round_lem :
      (n : ℕ) (c c' : Core) (ts : List ℕ) (k k1 k2 : Kernel)
      → lock_ptable k ≡ ok k1
      → turns_from run n 0 (record c { kernel = k1 }) ≡ ok (c', ts)
      → unlock_ptable c'.kernel ≡ ok k2
      → (do
        l1 ← lock_ptable k
        r ← turns_from run n 0 (record c { kernel = l1 })
        l2 ← unlock_ptable r.0.kernel
        let result : Core × List ℕ = (record r.0 { kernel = l2 }, r.1)
        ok result)
        ≡ ok (record c' { kernel = k2 }, ts)
  round_lem n c c' ts k k1 k2 e e' e'' = rw (e, e', e'') refl

  -- Where every process gives the CPU back and takes away nobody's turn, a round of the scheduler that
  -- starts with no lock held returns with the table's lock free. Between its acquire and its release it
  -- did nothing to the kernel but run some entries, each marked as running, one after the other, in the
  -- order of the table and at most once each; every process that could run when the round began is among
  -- them.
  pub scheduler_fair :
      (c : Core)
      → IsQuiet c.kernel
      → length c.kernel.procs ≡ nproc
      → ((j : ℕ) → is_runnable (proc_at c.kernel j).state ≡ true → (proc_at c.kernel j).pgdir ≢ 0)
      → (c' : Core) × (ts : List ℕ) × (scheduler_round run c ≡ ok (c', ts))
        × ((k1 k2 : Kernel) × (lock_ptable
                (record c.kernel { cpu = record c.kernel.cpu { flag_if = true } })
              ≡ ok k1)
            × Ran run ts k1 k2
            × (unlock_ptable k2 ≡ ok c'.kernel))
        × IsQuiet c'.kernel
        × Ascending 0 ts
        × ((j : ℕ) → j < nproc → is_runnable (proc_at c.kernel j).state ≡ true → elem j ts ≡ true)
  unfolding scheduler_round
  scheduler_fair c quiet size mapped =
      let k : Kernel = record c.kernel { cpu = record c.kernel.cpu { flag_if = true } } in
      let quiet' : IsQuiet k = record { free = quiet.free; none_held = quiet.none_held } in
      let (c', ts, e, ran, r, asc, all) =
        turns_lem nproc 0 (record c { kernel = locked k }) refl (started k quiet' size mapped) in
      let (k', e', q) = unlock-Ready c'.kernel r in
      (
        record c' { kernel = k' },
        ts,
        round_lem nproc c c' ts k (locked k) k' (lock_quiet k quiet') e e',
        (locked k, c'.kernel, lock_quiet k quiet', ran, e'),
        q,
        asc,
        λ j b h. all j (omega arith) b h,
      )
