-- ===== src/Ide.antt =====
-- kernel/ide.c: the queue of requests to the disk. A `struct buf *` is the buffer's number; the queue is
-- the list of its buffers, which the code links by `qnext`. The drive is a parameter with the laws that an
-- ATA drive with 28-bit addresses keeps: its registers address a sector, a write that does not fail stores
-- what was sent, and a read yields what is stored.
pub mod Registers
pub mod Invariant
pub mod Service
pub mod Locked
pub mod Order
mod Tests
use cs_577_p.Base.{
  ℕ, ◌+◌, ◌*◌, ◌/◌, ◌%◌, ◌^◌, Bool, true, false, not, ◌&&◌, ◌||◌, Option, none, some, List, [], ◌∷◌,
  ◌++◌, ◌≡◌, ◌≢◌, ◌⊎◌, Outcome, ok, panic, ◌>>=◌, if◌then◌else◌, ◌==◌,
}
use cs_577_p.Spinlock.{Cpu, Lock, acquire, release}
use cs_577_p.Bio.{Buf}
use cs_577_p.Mutex.{update}

-- The ports 0x1f2 to 0x1f7 as idestart writes them.
pub record Regs : Type 0 where
  pub count : ℕ
  pub low : ℕ
  pub mid : ℕ
  pub high : ℕ
  pub select : ℕ
  pub command : ℕ

abbrev pub cmd_read : ℕ
cmd_read = 0x20

abbrev pub cmd_write : ℕ
cmd_write = 0x30

-- The drive and the sector that the registers address.
abbrev pub unit_of : Regs → ℕ
unit_of r = r.select / 16 % 2

abbrev pub sector_of : Regs → ℕ
sector_of r = r.low + r.mid * 2 ^ 8 + r.high * 2 ^ 16 + r.select % 16 * 2 ^ 24

-- What the driver uses of the drives. `failed` is that the status has the error or the fault bit.
pub record Drive (D : Type 0) : Type 0 where
  pub fetch : D → Regs → List ℕ
  pub store : D → Regs → List ℕ → D
  pub failed : D → Bool
  pub content : D → ℕ → ℕ → List ℕ
  pub fetch_content : (d : D) (r : Regs) → fetch d r ≡ content d (unit_of r) (sector_of r)
  pub store_same :
      (d : D) (r : Regs) (bytes : List ℕ)
      → failed (store d r bytes) ≡ false
      → content (store d r bytes) (unit_of r) (sector_of r) ≡ bytes
  pub store_other :
      (d : D) (r : Regs) (bytes : List ℕ) (u t : ℕ)
      → (u ≢ unit_of r) ⊎ (t ≢ sector_of r)
      → content (store d r bytes) u t ≡ content d u t

-- What idelock protects: the queue, the buffers, the ports and the drives; `woken` are the channels of
-- the wakeups so far, the last first.
pub record Queue (D : Type 0) : Type 0 where
  pub queue : List ℕ
  pub bufs : ℕ → Buf
  pub regs : Regs
  pub drive : D
  pub woken : List ℕ

pub record Ide (D : Type 0) : Type 0 where
  pub inner : Queue D
  pub idelock : Lock
  pub cpu : Cpu
  pub havedisk1 : Bool

abbrev pub is_done : Buf → Bool
is_done b = b.valid && not b.dirty

-- The registers for the buffer; the parts of `select` that the code joins by `|` have no bit in common.
abbrev pub request_regs : Buf → Regs
request_regs b = record {
  count = 1;
  low = b.sector % 256;
  mid = b.sector / 2 ^ 8 % 256;
  high = b.sector / 2 ^ 16 % 256;
  select = 0xe0 + b.dev % 2 * 16 + b.sector / 2 ^ 24 % 16;
  command = if b.dirty then cmd_write else cmd_read;
}

abbrev pub is_first : ℕ → List ℕ → Bool
is_first i [] = false
is_first i (j ∷ more) = j == i

module _ {D : Type 0} (drive : Drive D) where
  -- idestart, once the drive is ready.
  unfoldable pub idestart : Option ℕ → Queue D → Outcome (Queue D)
  idestart none q = panic
  idestart (some i) q =
      let b = q.bufs i in
      let r = request_regs b in
      ok (record q { regs = r; drive = if b.dirty then drive.store q.drive r b.bytes else q.drive })

  -- The buffer that the drive is done with.
  unfoldable pub finish : Queue D → Buf → Buf
  finish q b = record b {
    bytes =
        if not b.dirty && not (drive.failed q.drive) then drive.fetch q.drive q.regs else b.bytes;
    valid = true;
    dirty = false;
  }

  -- `if(idequeue != 0) idestart(idequeue)`, for the queue `ids`.
  unfoldable pub start_next : List ℕ → Queue D → Outcome (Queue D)
  unfolding idestart
  start_next [] q = ok q
  start_next (j ∷ more) q = idestart (some j) q

  -- ideintr between acquire and release.
  unfoldable pub serve_first : List ℕ → Queue D → Outcome (Queue D)
  unfolding start_next finish
  serve_first [] q = ok q
  serve_first (i ∷ rest) q =
      start_next rest (record q {
        queue = rest;
        bufs = update q.bufs i (finish q (q.bufs i));
        woken = i ∷ q.woken;
      })

  unfoldable pub serve : Queue D → Outcome (Queue D)
  unfolding serve_first
  serve q = serve_first q.queue q

  -- iderw from its acquire to its first test of the loop, for a buffer that is not in the queue.
  unfoldable pub enqueue : ℕ → Queue D → Outcome (Queue D)
  unfolding idestart
  enqueue i q =
      let q1 : Queue D = record q { queue = q.queue ++ i ∷ [] } in
      if is_first i q1.queue then idestart (some i) q1 else ok q1

  -- A critical section of idelock.
  unfoldable pub with_lock : (Queue D → Outcome (Queue D)) → Ide D → Outcome (Ide D)
  with_lock body s = do
    a ← acquire s.idelock s.cpu
    q ← body s.inner
    b ← release a.0 a.1
    ok (record s { inner = q; idelock = b.0; cpu = b.1 })

  unfoldable pub ideintr : Ide D → Outcome (Ide D)
  unfolding serve with_lock
  ideintr s = with_lock serve s

  -- iderw up to the first sleep. The sleep gives idelock back, and the process goes on when the buffer
  -- `is_done`.
  unfoldable pub iderw : ℕ → Ide D → Outcome (Ide D)
  unfolding enqueue with_lock
  iderw i s =
      let b = s.inner.bufs i in
      if not b.busy
      then panic
      else if is_done b
      then panic
      else if not (b.dev == 0) && not s.havedisk1
      then panic
      else with_lock (enqueue i) s
