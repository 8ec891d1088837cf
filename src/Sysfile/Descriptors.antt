-- ===== src/Sysfile/Descriptors.antt =====
-- sys_dup and sys_close keep the reference counts right.
use cs_577_p.Base.{
  ℕ, ◌+◌, ◌-◌, ◌<◌, ◌≡◌, ◌≢◌, ◌⊎◌, inl, inr, refl, sym, ap, ◌∙◌, arith, Bool, true, false, Option,
  none, some, List, get_or, modify, length, length-modify, get_or-modify_self, get_or-modify_ne,
  Outcome, ok, bind_assoc, ◌>>=◌, ◌==◌, Bool-cases,
}
use mathlib.Core.Path.{subst}
use cs_577_p.Spinlock.{Cpu}
use cs_577_p.Spinlock.Laws.{IsNested}
use cs_577_p.Kalloc.Pages.{calm}
use cs_577_p.File.{
  File, FTable, blank, set_ref, drop_ref, close_body, fileclose, FdType, fd_none, fd_pipe, fd_inode,
}
use cs_577_p.File.Refs.{ref_of, table, filedup_run, drop_ref_cases}
use cs_577_p.Sysfile.{
  Caller, fd_file, argfd, opened, closed, Left, dup_file, sys_dup, close_fd, sys_close, nofile,
}
use cs_577_p.Sysfile.Counts.{
  count, Counted, fdalloc_cases, count_pos, count-open, count-close, points_self, points_ne,
  Counted-change,
}

-- What argfd hands out is open.
argfd_open :
    (p : Caller) (n fd f : ℕ)
    → length p.ofile ≡ nofile
    → argfd p n ≡ some (fd, f)
    → (fd < length p.ofile) × (get_or p.ofile fd none ≡ some f)
unfolding argfd fd_file
argfd_open p n fd f l h = ground arith

-- A free descriptor `fd` is given to `f`.
opened-Counted :
    (others : ℕ → ℕ) (os : List (Option ℕ)) (t : FTable) (fd0 fd f : ℕ)
    → Counted others os t
    → fd0 < length os
    → get_or os fd0 none ≡ some f
    → fd < length os
    → get_or os fd none ≡ none
    → Counted others (modify os fd (opened f)) (table (modify t.files f (set_ref (ref_of t f + 1))))
opened-Counted others os t fd0 fd f k h0 e0 h e =
    Counted-change others os (modify os fd (opened f)) t f (set_ref (ref_of t f + 1)) k
      (k.open_files fd0 f h0 e0)
      (omega (arith, k.refs f (k.open_files fd0 f h0 e0), count-open os fd f f h e, points_self f))
      (λ g n. omega (arith, count-open os fd f g h e, points_ne f g n))
      (λ i g h' z.
        where_from i g (omega (arith, length-modify os fd (opened f))) z (Bool-cases (fd == i)))
  where
    where_from :
        (i g : ℕ)
        → i < length os
        → get_or (modify os fd (opened f)) i none ≡ some g
        → (fd == i ≡ true) ⊎ (fd == i ≡ false)
        → g < length t.files
    where_from i g l z (inl p) =
        let at_fd : get_or (modify os fd (opened f)) fd none ≡ some g =
          ap (λ x. get_or (modify os fd (opened f)) x none) (ground arith) ∙ z in
        let q : some f ≡ some g = sym (get_or-modify_self os fd (opened f) none h) ∙ at_fd in
        subst (λ x. x < length t.files) (cc q) (k.open_files fd0 f h0 e0)
    where_from i g l z (inr p) =
        k.open_files i g l (sym (get_or-modify_ne os fd i (opened f) none (ground arith)) ∙ z)

closed-Counted :
    (others : ℕ → ℕ) (os : List (Option ℕ)) (t : FTable) (fd f : ℕ) (change : File → File)
    → Counted others os t
    → fd < length os
    → get_or os fd none ≡ some f
    → (change (get_or t.files f blank)).ref ≡ ref_of t f - 1
    → Counted others (modify os fd closed) (table (modify t.files f change))
closed-Counted others os t fd f change k h e c =
    Counted-change others os (modify os fd closed) t f change k (k.open_files fd f h e)
      (c
        ∙ omega (arith, k.refs f (k.open_files fd f h e), count-close os fd f f h e, points_self f))
      (λ g n. omega (arith, count-close os fd f g h e, points_ne f g n))
      (λ i g h' z.
        where_from i g (omega (arith, length-modify os fd closed)) z (Bool-cases (fd == i)))
  where
    where_from :
        (i g : ℕ)
        → i < length os
        → get_or (modify os fd closed) i none ≡ some g
        → (fd == i ≡ true) ⊎ (fd == i ≡ false)
        → g < length t.files
    where_from i g l z (inl p) =
        let at_fd : get_or (modify os fd closed) fd none ≡ some g =
          ap (λ x. get_or (modify os fd closed) x none) (ground arith) ∙ z in
        let q : none ≡ some g = sym (get_or-modify_self os fd closed none h) ∙ at_fd in
        absurd (cc q)
    where_from i g l z (inr p) =
        k.open_files i g l (sym (get_or-modify_ne os fd i closed none (ground arith)) ∙ z)

-- What sys_dup does with the caller's table and the files: -1 where the argument is no open descriptor
-- or none is free, else a free descriptor, which now has the same file, with one more reference.
abbrev pub Dup : Caller → FTable → Left → Type 0
Dup p t l =
    ((l.result ≡ none)
      × (l.ofile ≡ p.ofile)
      × (l.files ≡ t)
      × ((argfd p 0 ≡ none) ⊎ ((i : ℕ) → i < length p.ofile → get_or p.ofile i none ≢ none)))
    ⊎ ((old : ℕ) × (f : ℕ) × (fd : ℕ) × (argfd p 0 ≡ some (old, f))
        × (l.result ≡ some fd)
        × (fd < nofile)
        × (get_or p.ofile fd none ≡ none)
        × (l.ofile ≡ modify p.ofile fd (λ o. some f))
        × (l.files.files ≡ modify t.files f (λ g. record g { ref = ref_of t f + 1 })))

-- sys_dup never panics where each file has a reference for each descriptor, and it keeps that so. It
-- returns -1, with no table changed, exactly for a bad argument or a full table; else a descriptor below
-- NOFILE that was free and has the same file, of which nothing has changed but the count.
pub sys_dup_lem :
    (others : ℕ → ℕ) (p : Caller) (t : FTable) (c : Cpu)
    → IsNested c
    → length p.ofile ≡ nofile
    → Counted others p.ofile t
    → (l : Left) × (sys_dup p t c ≡ ok l) × Counted others l.ofile l.files × Dup p t l
unfolding sys_dup dup_file
sys_dup_lem others p t c n len k = by_arg (argfd p 0) refl
  where
    by_arg :
        (a : Option (ℕ × ℕ))
        → argfd p 0 ≡ a
        → (l : Left) × (sys_dup p t c ≡ ok l) × Counted others l.ofile l.files × Dup p t l
    by_arg none e = (
      record { result = none; ofile = p.ofile; files = t; cpu = c },
      rw (e, sys_dup) refl,
      k,
      inl (refl, refl, refl, inl e),
    )
    by_arg (some (old, f)) e =
        let (h0, e0) = argfd_open p 0 old f len e in
        elim (fdalloc_cases f p.ofile) [
          | inl (q, full) ↦ (
            record { result = none; ofile = p.ofile; files = t; cpu = c },
            rw (e, sys_dup) (rw (q, dup_file) refl),
            k,
            inl (refl, refl, refl, inr full),
          )
          | inr (fd, q, h, free) ↦
              let lt = k.open_files old f h0 e0 in
              let one = count_pos p.ofile old f h0 e0 in
              (
                record {
                  result = some fd;
                  ofile = modify p.ofile fd (opened f);
                  files = table (modify t.files f (set_ref (ref_of t f + 1)));
                  cpu = calm c;
                },
                rw (e, sys_dup)
                    (rw (q, dup_file)
                      (rw (filedup_run t c n k.unlocked_table f (omega (arith, k.refs f lt)))
                        refl)),
                opened-Counted others p.ofile t old fd f k h0 e0 h free,
                inr (old, f, fd, e, refl, rw len at h, free, refl, refl),
              )
        ]

-- What sys_close leaves after the close behind the file.
abbrev pub left : {S : Type 0} → Caller → ℕ → FTable → S × Cpu → Outcome (Left × S)
left p fd t e =
    ok
      (record { result = some 0; ofile = modify p.ofile fd (λ o. none); files = t; cpu = e.1 }, e.0)

kind_cases : (x : FdType) → (x ≡ fd_pipe) ⊎ ((x ≡ fd_inode) ⊎ (x ≡ fd_none))
kind_cases fd_pipe = inl refl
kind_cases fd_inode = inr (inl refl)
kind_cases fd_none = inr (inr refl)

module _ {S : Type 0} (pipeclose : ℕ → Bool → S → Cpu → Outcome (S × Cpu))
    (iput : ℕ → S → Cpu → Outcome (S × Cpu)) where
  -- sys_close once the reference is dropped.
  close_run :
      (p : Caller) (t : FTable) (s : S) (c : Cpu) (fd f : ℕ) (d : Option File) (t' : FTable)
      (c' : Cpu)
      → argfd p 0 ≡ some (fd, f)
      → drop_ref f t c ≡ ok (d, t', c')
      → sys_close pipeclose iput p t s c ≡ (
          close_body pipeclose iput d s c' >>= λ e. ok (
            record { result = some 0; ofile = modify p.ofile fd closed; files = t'; cpu = e.1 },
            e.0,
          ))
  unfolding sys_close close_fd fileclose
  close_run p t s c fd f d t' c' e run =
      rw (e, sys_close)
        (rw (run, drop_ref)
          (bind_assoc (close_body pipeclose iput d s c') (λ r. ok (t', r.0, r.1)) _))

  -- What a call with the result `r` did with the file `g` of which no descriptor is left: it closed the
  -- pipe or the inode behind it, as its kind says, or nothing if it has none.
  abbrev pub Closed : File → (S × Cpu → Outcome (Left × S)) → S → Cpu → Outcome (Left × S) → Type 0
  Closed g done s c r =
      ((g.kind ≡ fd_pipe) × (r ≡ (pipeclose g.pipe g.writable s c >>= done)))
      ⊎ (((g.kind ≡ fd_inode) × (r ≡ (iput g.ip s c >>= done)))
          ⊎ ((g.kind ≡ fd_none) × (r ≡ done (s, c))))

  close_body_cases :
      (g : File) (done : S × Cpu → Outcome (Left × S)) (s : S) (c : Cpu)
      → Closed g done s c (close_body pipeclose iput (some g) s c >>= done)
  unfolding close_body
  close_body_cases g done s c = elim (kind_cases g.kind) [
    | inl e ↦ inl (e, rw (e, close_body) refl)
    | inr (inl e) ↦ inr (inl (e, rw (e, close_body) refl))
    | inr (inr e) ↦ inr (inr (e, rw (e, close_body) refl))
  ]

  -- Where each file has a reference for each descriptor, and the argument is the open descriptor `fd`
  -- of the file `f`: sys_close frees the descriptor, returns 0 and keeps that so. If a descriptor of any
  -- process is left for the file it closes nothing behind it; if none is left, it closes the pipe, or
  -- puts the inode, that the file has.
  pub sys_close_lem :
      (others : ℕ → ℕ) (p : Caller) (t : FTable) (s : S) (c : Cpu) (fd f : ℕ)
      → IsNested c
      → length p.ofile ≡ nofile
      → Counted others p.ofile t
      → argfd p 0 ≡ some (fd, f)
      → (t' : FTable) × Counted others (modify p.ofile fd (λ o. none)) t'
        × (((0 < others f + count f (modify p.ofile fd (λ o. none)))
              × (sys_close pipeclose iput p t s c ≡ left p fd t' (s, calm c)))
            ⊎ ((others f + count f (modify p.ofile fd (λ o. none)) ≡ 0)
                × Closed
                    (get_or t.files f blank)
                    (left p fd t')
                    s
                    (calm c)
                    (sys_close pipeclose iput p t s c)))
  unfolding sys_close close_fd close_body
  sys_close_lem others p t s c fd f n len k e =
      let (h, e0) = argfd_open p 0 fd f len e in
      let lt = k.open_files fd f h e0 in
      let one = count_pos p.ofile fd f h e0 in
      let fewer = count-close p.ofile fd f f h e0 in
      elim (drop_ref_cases t c n k.unlocked_table f) [
        | inl (z, x, y) ↦ absurd (omega (arith, k.refs f lt))
        | inr (inl (z, run)) ↦
            let t' = table (modify t.files f (λ g. record g { ref = 0; kind = fd_none })) in
            (
              t',
              closed-Counted others p.ofile t fd f (λ g. record g { ref = 0; kind = fd_none }) k h
                  e0 (omega arith),
              inr (
                omega (arith, k.refs f lt, points_self f),
                subst (Closed (get_or t.files f blank) (left p fd t') s (calm c))
                    (sym (
                      close_run p t s c fd f (some (set_ref 0 (get_or t.files f blank))) t' (calm c)
                        e run))
                    (close_body_cases (set_ref 0 (get_or t.files f blank)) (left p fd t') s
                      (calm c)),
              ),
            )
        | inr (inr (z, run)) ↦
            let t' = table (modify t.files f (set_ref (ref_of t f - 1))) in
            (
              t',
              closed-Counted others p.ofile t fd f (set_ref (ref_of t f - 1)) k h e0 refl,
              inl (
                omega (arith, k.refs f lt, points_self f),
                close_run p t s c fd f none t' (calm c) e run,
              ),
            )
      ]
