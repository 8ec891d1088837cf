-- ===== src/Ide/Locked.antt =====
-- One interrupt and one request, under idelock.
use cs_577_p.Base.{
  ℕ, true, false, not, ◌&&◌, List, [], ◌∷◌, ◌≡◌, ◌⊎◌, refl, ap, arith, ok, ◌==◌, Outcome,
}
use cs_577_p.Spinlock.{acquire, release, unlocked, pushcli}
use cs_577_p.Spinlock.Laws.{IsNested}
use cs_577_p.Kalloc.Pages.{calm}
use cs_577_p.Mutex.Invariant.{elem}
use cs_577_p.Ide.{Drive, Queue, Ide, serve_first, serve, enqueue, with_lock, ideintr, iderw}
use cs_577_p.Ide.Invariant.{IsRequest, Inv}
use cs_577_p.Ide.Service.{Interrupted, serve_lem, Requested, enqueue_lem}

module _ {D : Type 0} (drive : Drive D) where
  -- Under idelock, when no one has it.
  with_lock_lem :
      (body : Queue D → Outcome (Queue D)) (s : Ide D) (q : Queue D)
      → s.idelock.locked ≡ false
      → IsNested s.cpu
      → body s.inner ≡ ok q
      → with_lock drive body s ≡ ok (record s { inner = q; idelock = unlocked; cpu = calm s.cpu })
  unfolding with_lock acquire release
  with_lock_lem body s q f c e = rw (f, e) (ground arith)

  -- Between two critical sections.
  pub record IsValid (s : Ide D) : Type 0 where
    pub inner_Inv : Inv drive s.inner
    pub free : s.idelock.locked ≡ false
    pub nested : IsNested s.cpu

  abbrev pub leave_lock : Ide D → Queue D → Ide D
  leave_lock s q = record s { inner = q; idelock = unlocked; cpu = calm s.cpu }

  leave_lock-IsValid :
      (s : Ide D) (q : Queue D) → Inv drive q → IsValid s → IsValid (leave_lock s q)
  unfolding pushcli
  leave_lock-IsValid s q v w = record { inner_Inv = v; free = refl; nested = w.nested }

  -- With requests waiting, an interrupt finishes the first one: its buffer is valid and not dirty, holds
  -- what the drive holds for its block unless the drive reports an error, and whoever sleeps on
  -- it is woken. After a write, and after an error, its bytes are as before. The other buffers and the order of the other requests are as before,
  -- and the drive works on the next one.
  pub ideintr_lem :
      (s : Ide D) (i : ℕ) (rest : List ℕ)
      → IsValid s
      → s.inner.queue ≡ i ∷ rest
      → (t : Ide D) × (ideintr drive s ≡ ok t)
        × IsValid t
        × Interrupted drive s.inner t.inner i rest
  unfolding ideintr
  ideintr_lem s i rest v e =
      let (q, e', r) = serve_lem drive s.inner i rest e v.inner_Inv in
      (
        leave_lock s q,
        with_lock_lem (serve drive) s q v.free v.nested e',
        leave_lock-IsValid s q r.kept_Inv v,
        r,
      )

  -- A spurious interrupt changes nothing but the flags of the CPU.
  pub ideintr_idle :
      (s : Ide D)
      → IsValid s
      → s.inner.queue ≡ []
      → (t : Ide D) × (ideintr drive s ≡ ok t) × IsValid t × (t.inner ≡ s.inner)
  unfolding ideintr serve serve_first
  ideintr_idle s v e = (
    leave_lock s s.inner,
    with_lock_lem (serve drive) s s.inner v.free v.nested (ap (λ l. serve_first drive l s.inner) e),
    leave_lock-IsValid s s.inner v.inner_Inv v,
    refl,
  )

  pub iderw_lem :
      (s : Ide D) (i : ℕ)
      → IsValid s
      → IsRequest (s.inner.bufs i)
      → ((s.inner.bufs i).dev ≡ 0) ⊎ (s.havedisk1 ≡ true)
      → elem i s.inner.queue ≡ false
      → (t : Ide D) × (iderw drive i s ≡ ok t) × IsValid t × Requested drive s.inner t.inner i
  unfolding iderw
  iderw_lem s i v r d n =
      let (q, e, r') = enqueue_lem drive s.inner i n r v.inner_Inv in
      (leave_lock s q, passed q e, leave_lock-IsValid s q r'.kept_Inv v, r')
    where
      passed :
          (q : Queue D) → enqueue drive i s.inner ≡ ok q → iderw drive i s ≡ ok (leave_lock s q)
      passed q e =
          let present : (not ((s.inner.bufs i).dev == 0) && not s.havedisk1) ≡ false =
            ground (arith, d) in
          rw (r.is_busy, r.undone, present) (with_lock_lem (enqueue drive i) s q v.free v.nested e)
