-- ===== src/Proc/Create/Slots.antt =====
-- allocproc: which slot a new process gets, and that pids stay distinct.
use cs_577_p.Base.{
  ℕ, ◌+◌, ◌%◌, ◌^◌, ◌<◌, ◌≤◌, ◌≡◌, ◌≢◌, sym, refl, ◌∙◌, ap, true, false, Option, none, some, List,
  [], ◌∷◌, ok, ◌>>=◌, arith, ◌⊎◌, inl, inr, get_elem?, modify, length, find_index,
  get_elem?-modify_inv, find_index-lt, find_index-get_or, modify-modify, Option-cases,
}
use cs_577_p.Kalloc.{kalloc, first_run}
use cs_577_p.Kalloc.Pages.{kalloc_ok, taken, calm}
use cs_577_p.Proc.{Proc, blank, is_unused, embryo, unused, at_forkret, Kernel, proc_at, change}
use cs_577_p.Proc.Locking.{IsQuiet, locked, after, after-IsQuiet, lock_quiet, unlock_locked}
use cs_577_p.Proc.Create.{free_slot, claimed, unclaimed, stacked, alloc_at, allocproc}

-- The pids of the processes in use: below the counter, and no two alike.
pub record PidsDistinct (n : ℕ) (ps : List Proc) : Type 0 where
  pub below : (i : ℕ) (p : Proc) → get_elem? ps i ≡ some p → is_unused p.state ≡ false → p.pid < n
  pub distinct :
      (i j : ℕ) (p q : Proc)
      → get_elem? ps i ≡ some p
      → get_elem? ps j ≡ some q
      → is_unused p.state ≡ false
      → is_unused q.state ≡ false
      → p.pid ≡ q.pid
      → i ≡ j

-- Entry `j` of a changed table: the changed entry, or an old one.
abbrev Origin : List Proc → ℕ → (Proc → Proc) → ℕ → Proc → Type 0
Origin ps i f j p =
    (a : Proc) × (get_elem? ps j ≡ some a) × (((i ≡ j) × (p ≡ f a)) ⊎ ((i ≢ j) × (p ≡ a)))

-- A change of entry `i` that gives it the counter's value as its pid, or leaves it not in use.
module _ (n m i : ℕ) (ps : List Proc) (f : Proc → Proc) (grow : n ≤ m)
    (new : (p : Proc) → is_unused (f p).state ≡ false → ((f p).pid ≡ n) × (n < m))
    (v : PidsDistinct n ps) where
  low : (j : ℕ) (p : Proc) → Origin ps i f j p → is_unused p.state ≡ false → p.pid < m
  low j p (a, e, inl (s, d)) u =
      let h : ((f a).pid ≡ n) × (n < m) = new a (rw (← d) u) in rw d (omega (arith, h.0, h.1))
  low j p (a, e, inr (s, d)) u =
      let h : a.pid < n = v.below j a e (rw (← d) u) in rw d (omega (arith, h))

  apart :
      (j l : ℕ) (p q : Proc)
      → Origin ps i f j p
      → Origin ps i f l q
      → is_unused p.state ≡ false
      → is_unused q.state ≡ false
      → p.pid ≡ q.pid
      → j ≡ l
  apart j l p q (a, e, inl (s, d)) (b, e', inl (s', d')) u u' same = sym s ∙ s'
  apart j l p q (a, e, inl (s, d)) (b, e', inr (s', d')) u u' same =
      let h : (f a).pid ≡ n = (new a (rw (← d) u)).0 in
      let h' : b.pid < n = v.below l b e' (rw (← d') u') in
      absurd (omega (arith, ap (λ (z : Proc). z.pid) d, ap (λ (z : Proc). z.pid) d'))
  apart j l p q (a, e, inr (s, d)) (b, e', inl (s', d')) u u' same =
      let h : (f b).pid ≡ n = (new b (rw (← d') u')).0 in
      let h' : a.pid < n = v.below j a e (rw (← d) u) in
      absurd (omega (arith, ap (λ (z : Proc). z.pid) d, ap (λ (z : Proc). z.pid) d'))
  apart j l p q (a, e, inr (s, d)) (b, e', inr (s', d')) u u' same =
      v.distinct j l a b e e' (rw (← d) u) (rw (← d') u')
        (ap (λ (z : Proc). z.pid) (sym d) ∙ same ∙ ap (λ (z : Proc). z.pid) d')

  pub modify-PidsDistinct : PidsDistinct m (modify ps i f)
  modify-PidsDistinct = record {
    below = λ j p e u. low j p (get_elem?-modify_inv ps i j f p e) u;
    distinct = λ j l p q e e' u u' same.
        apart j l p q (get_elem?-modify_inv ps i j f p e) (get_elem?-modify_inv ps i l f q e') u u'
          same;
  }

-- What a new process looks like, in slot `i`, and that the rest of the table is as before.
pub record Created (k : Kernel) (i : ℕ) (k' : Kernel) : Type 0 where
  pub was_free : is_unused (proc_at k i).state ≡ true
  pub in_table : i < length k.procs
  pub stack : ℕ
  pub from_pages : k.kmem.freelist ≡ stack ∷ k'.kmem.freelist
  pub table :
      k'.procs
      ≡ modify k.procs i
          (λ p. record p { state = embryo; pid = k.next_pid; kstack = stack; context = at_forkret })
  pub counted : k'.next_pid ≡ k.next_pid + 1

-- The result of allocproc: null without a free slot, or without a page; else a new process.
pub Allocated : Kernel → Option ℕ → Kernel → Type 0
Allocated k none k' =
    ((find_index free_slot k.procs ≡ none) × (k'.procs ≡ k.procs))
    ⊎ ((k.kmem.freelist ≡ [])
        × ((i : ℕ) × (is_unused (proc_at k i).state ≡ true)
            × (k'.procs
                ≡ modify k.procs i
                    (λ p. record p { state = unused; pid = k.next_pid; kstack = 0 }))))
Allocated k (some i) k' = Created k i k'

module _ (k : Kernel) (q : IsQuiet k) (m : k.kmem.lock.locked ≡ false)
    (room : k.next_pid + 1 < 2 ^ 31) where
  -- The kernel after the pid is taken.
  abbrev counted : Kernel
  counted = record k { next_pid = (k.next_pid + 1) % 2 ^ 32 }

  abbrev served : ℕ → Kernel
  served i = record (after counted (modify k.procs i (claimed k.next_pid))) {
    kmem = taken k.kmem;
    cpu = calm (calm k.cpu);
  }

  abbrev final : ℕ → Option ℕ → Kernel
  final i none = change i unclaimed (served i)
  final i (some stack) = change i (stacked stack) (served i)

  abbrev result : ℕ → Option ℕ → Option ℕ
  result i none = none
  result i (some stack) = some i

  counted-IsQuiet : IsQuiet counted
  counted-IsQuiet = record { free = q.free; none_held = q.none_held }

  kalloc_here :
      kalloc k.kmem (calm k.cpu) ≡ ok (first_run k.kmem.freelist, taken k.kmem, calm (calm k.cpu))
  kalloc_here = kalloc_ok k.kmem (calm k.cpu) (λ h. absurd (omega (arith, q.none_held))) m

  alloc_at_run :
      (i : ℕ)
      → alloc_at i (locked k)
        ≡ ok (result i (first_run k.kmem.freelist), final i (first_run k.kmem.freelist))
  unfolding alloc_at
  alloc_at_run i = elim (Option-cases (first_run k.kmem.freelist)) [
    | inl e ↦ rw e (
        rw (unlock_locked counted (modify k.procs i (claimed k.next_pid)) counted-IsQuiet)
          (rw kalloc_here (rw e refl)))
    | inr (s, e) ↦ rw e (
        rw (unlock_locked counted (modify k.procs i (claimed k.next_pid)) counted-IsQuiet)
          (rw kalloc_here (rw e refl)))
  ]

  allocproc_found :
      (i : ℕ)
      → find_index free_slot k.procs ≡ some i
      → allocproc k ≡ ok (result i (first_run k.kmem.freelist), final i (first_run k.kmem.freelist))
  unfolding allocproc
  allocproc_found i e = rw (lock_quiet k q) (rw (e, ◌>>=◌) (alloc_at_run i))

  allocproc_full : find_index free_slot k.procs ≡ none → allocproc k ≡ ok (none, after k k.procs)
  unfolding allocproc
  allocproc_full e = rw (lock_quiet k q) (rw (e, ◌>>=◌) (rw (unlock_locked k k.procs q) refl))

  module _ (v : PidsDistinct k.next_pid k.procs) where
    abbrev Outcomes : Option ℕ → Kernel → Type 0
    Outcomes r k' = IsQuiet k' × Allocated k r k' × PidsDistinct k'.next_pid k'.procs

    by_pages :
        (i : ℕ) (fl : List ℕ)
        → find_index free_slot k.procs ≡ some i
        → k.kmem.freelist ≡ fl
        → Outcomes (result i (first_run fl)) (final i (first_run fl))
    unfolding Allocated
    by_pages i [] e p = (
      record { free = refl; none_held = q.none_held },
      inr (
        p,
        (
          i,
          find_index-get_or free_slot k.procs i blank e,
          modify-modify k.procs i (claimed k.next_pid) unclaimed,
        ),
      ),
      rw (modify-modify k.procs i (claimed k.next_pid) unclaimed) (
          modify-PidsDistinct k.next_pid ((k.next_pid + 1) % 2 ^ 32) i k.procs
            (λ a. unclaimed (claimed k.next_pid a)) (omega arith) (λ a u. absurd (cc)) v),
    )
    by_pages i (stack ∷ fl) e p = (
      record { free = refl; none_held = q.none_held },
      record {
        was_free = find_index-get_or free_slot k.procs i blank e;
        in_table = find_index-lt free_slot k.procs i e;
        stack = stack;
        from_pages = rw p refl;
        table = modify-modify k.procs i (claimed k.next_pid) (stacked stack);
        counted = omega arith;
      },
      rw (modify-modify k.procs i (claimed k.next_pid) (stacked stack)) (
          modify-PidsDistinct k.next_pid ((k.next_pid + 1) % 2 ^ 32) i k.procs
            (λ a. stacked stack (claimed k.next_pid a)) (omega arith) (λ a u. (refl, omega arith))
            v),
    )

    -- With no lock held, the pids in use distinct, and the counter of pids below its largest int:
    -- allocproc returns, with the table's lock free. It returns null only if no entry is unused (and
    -- leaves the table) or no page is free (and leaves an unused entry unused, with no stack); else
    -- the entry that it returns was unused and is now an embryo, with a page from the free list as its
    -- stack, forkret as what it resumes at, and the next pid, and no other entry has changed. The pids
    -- of the processes in use stay distinct and below the counter.
    pub allocproc_lem :
        (r : Option ℕ) × (k' : Kernel) × (allocproc k ≡ ok (r, k'))
        × IsQuiet k'
        × Allocated k r k'
        × PidsDistinct k'.next_pid k'.procs
    allocproc_lem = elim (Option-cases (find_index free_slot k.procs)) [
      | inl e ↦ (
        none,
        after k k.procs,
        allocproc_full e,
        after-IsQuiet k k.procs q,
        unfold Allocated in inl (e, refl),
        v,
      )
      | inr (i, e) ↦
          let o = by_pages i k.kmem.freelist e refl in
          (
            result i (first_run k.kmem.freelist),
            final i (first_run k.kmem.freelist),
            allocproc_found i e,
            o.0,
            o.1,
            o.2,
          )
    ]
