-- ===== src/Ide/Invariant.antt =====
-- What holds of the queue of the disk whenever nobody has idelock, and that each operation keeps it.
use cs_577_p.Base.{
  ℕ, ◌^◌, ◌<◌, true, false, List, [], ◌∷◌, ◌≡◌, refl, sym, ap, ◌∙◌, inl, inr, arith, ok,
  if◌then◌else◌, Bool-cases,
}
use cs_577_p.Mutex.Invariant.{elem, Distinct}
use cs_577_p.Bio.{Buf}
use cs_577_p.Ide.{
  Drive, Queue, is_done, request_regs, idestart, finish, unit_of, sector_of, start_next,
}
use cs_577_p.Ide.Registers.{request_regs_lem}

-- A buffer for which iderw has something to do, on a sector that the registers can address.
pub record IsRequest (b : Buf) : Type 0 where
  pub is_busy : b.busy ≡ true
  pub undone : is_done b ≡ false
  pub device : b.dev < 2
  pub on_disk : b.sector < 2 ^ 28

module _ {D : Type 0} (drive : Drive D) where
  abbrev pub block_of : Queue D → Buf → List ℕ
  block_of q b = drive.content q.drive b.dev b.sector

  -- The drive works on the buffer: it has its registers, and its data, if they are to be written.
  pub record Started (q : Queue D) (b : Buf) : Type 0 where
    pub at_ports : q.regs ≡ request_regs b
    pub sent : b.dirty ≡ true → drive.failed q.drive ≡ false → block_of q b ≡ b.bytes

  abbrev pub FirstStarted : List ℕ → Queue D → Type 0
  FirstStarted [] q = Unit
  FirstStarted (i ∷ rest) q = Started q (q.bufs i)

  pub record Inv (q : Queue D) : Type 0 where
    pub requests : (i : ℕ) → elem i q.queue ≡ true → IsRequest (q.bufs i)
    pub distinct : Distinct q.queue
    pub working : FirstStarted q.queue q

  -- The state after idestart.
  abbrev pub begun : ℕ → Queue D → Queue D
  begun i q = record q {
    regs = request_regs (q.bufs i);
    drive =
        if (q.bufs i).dirty
        then drive.store q.drive (request_regs (q.bufs i)) (q.bufs i).bytes
        else q.drive;
  }

  pub begun-Started : (i : ℕ) (q : Queue D) → IsRequest (q.bufs i) → Started (begun i q) (q.bufs i)
  begun-Started i q r = record {
    at_ports = refl;
    sent = λ d f. picked (q.bufs i) d ∙ stored (q.bufs i) r (same_drive (q.bufs i) d f);
  }
    where
      -- A dirty buffer is sent.
      picked :
          (b : Buf)
          → b.dirty ≡ true
          → drive.content
              (if b.dirty then drive.store q.drive (request_regs b) b.bytes else q.drive)
              b.dev
              b.sector
            ≡ drive.content (drive.store q.drive (request_regs b) b.bytes) b.dev b.sector
      picked b d =
          ap
            (λ x.
              drive.content (if x then drive.store q.drive (request_regs b) b.bytes else q.drive)
                b.dev b.sector)
            d

      same_drive :
          (b : Buf)
          → b.dirty ≡ true
          → drive.failed (if b.dirty then drive.store q.drive (request_regs b) b.bytes else q.drive)
            ≡ false
          → drive.failed (drive.store q.drive (request_regs b) b.bytes) ≡ false
      same_drive b d f =
          sym (
            ap
              (λ x.
                drive.failed (if x then drive.store q.drive (request_regs b) b.bytes else q.drive))
              d)
          ∙ f

      stored :
          (b : Buf)
          → IsRequest b
          → drive.failed (drive.store q.drive (request_regs b) b.bytes) ≡ false
          → drive.content (drive.store q.drive (request_regs b) b.bytes) b.dev b.sector ≡ b.bytes
      stored b s f =
          let (u, t) = request_regs_lem b s.device s.on_disk in
          let e = drive.store_same q.drive (request_regs b) b.bytes f in rw (u, t) at e

  -- The end of ideintr, with the queue `rest`.
  pub next_lem :
      (rest : List ℕ) (q : Queue D)
      → ((i : ℕ) → elem i rest ≡ true → IsRequest (q.bufs i))
      → Distinct rest
      → (q' : Queue D) × (start_next drive rest (record q { queue = rest }) ≡ ok q')
        × Inv q'
        × (q'.queue ≡ rest)
        × (q'.bufs ≡ q.bufs)
        × (q'.woken ≡ q.woken)
  unfolding start_next idestart
  next_lem [] q r d =
      (_, refl, record { requests = r; distinct = d; working = tt }, refl, refl, refl)
  next_lem (j ∷ more) q r d = (
    begun j (record q { queue = j ∷ more }),
    refl,
    record {
      requests = r;
      distinct = d;
      working = begun-Started j (record q { queue = j ∷ more }) (r j (ground arith));
    },
    refl,
    refl,
    refl,
  )

  -- What an interrupt makes of the first buffer.
  pub record Served (q : Queue D) (b b' : Buf) : Type 0 where
    pub finished : is_done b' ≡ true
    pub kept : b.dirty ≡ true → b'.bytes ≡ b.bytes
    pub on_error : drive.failed q.drive ≡ true → b'.bytes ≡ b.bytes
    pub on_drive : drive.failed q.drive ≡ false → b'.bytes ≡ block_of q b

  pub finish-Served :
      (q : Queue D) (b : Buf) → IsRequest b → Started q b → Served q b (finish drive q b)
  unfolding finish
  finish-Served q b r s = record {
    finished = refl;
    kept = λ d. ground arith;
    on_error = λ f. ground arith;
    on_drive = λ f. elim (Bool-cases b.dirty) [
      | inl d ↦ ground (arith, s.sent d f)
      | inr d ↦ ground (arith, fetched)
    ];
  }
    where
      fetched : drive.fetch q.drive q.regs ≡ block_of q b
      fetched =
          let (u, t) = request_regs_lem b r.device r.on_disk in
          let e : drive.fetch q.drive (request_regs b)
              ≡ drive.content q.drive (unit_of (request_regs b)) (sector_of (request_regs b)) =
            drive.fetch_content q.drive (request_regs b) in
          ap (drive.fetch q.drive) s.at_ports ∙ (rw (u, t) at e)
