-- ===== src/Bio.antt =====
-- kernel/bio.c: the cache of disk blocks. The ring of buffers is the list from the most to the least
-- recently used one, and a buffer keeps its `id`, its address. iderw is a whole request to kernel/ide.c,
-- from iderw to its return: it writes a dirty buffer, and else reads one that is not valid. After a read
-- with an error ideintr leaves the bytes of the buffer and marks it valid all the same.
pub mod Unique
pub mod Coherent
mod Tests
use cs_577_p.Base.{
  ℕ, zero, suc, Bool, true, false, not, ◌&&◌, Option, none, some, List, [], ◌∷◌, ◌++◌, find_index,
  modify, get_or, Outcome, ok, panic, ◌>>=◌, if◌then◌else◌, ◌==◌,
}
use mathlib.Core.Option

abbrev pub nbuf : ℕ
nbuf = 10

-- `struct buf`: its flags B_BUSY, B_VALID and B_DIRTY, and its block. `dev` is -1 (2^32 - 1) at first.
pub record Buf : Type 0 where
  pub id : ℕ
  pub busy : Bool
  pub valid : Bool
  pub dirty : Bool
  pub dev : ℕ
  pub sector : ℕ
  pub bytes : List ℕ

abbrev pub no_dev : ℕ
no_dev = 0xffffffff

-- The blocks of the disks.
abbrev pub Disk : Type 0
Disk = ℕ → ℕ → List ℕ

abbrev pub write_disk : Disk → ℕ → ℕ → List ℕ → Disk
write_disk disk d s bytes e t = if d == e && s == t then bytes else disk e t

-- `fails` are the blocks at which the drive reports an error, and `torn` is what such a write leaves.
pub record Cache : Type 0 where
  pub bufs : List Buf
  pub disk : Disk
  pub fails : ℕ → ℕ → Bool
  pub torn : Disk

-- binit: each buffer goes to the front, so the last one of the array is first.
unfoldable pub binit : ℕ → List Buf → List Buf
binit zero done = done
binit (suc n) done = binit n (
    record {
      id = n;
      busy = false;
      valid = false;
      dirty = false;
      dev = no_dev;
      sector = 0;
      bytes = [];
    }
    ∷ done)

abbrev pub is_block : ℕ → ℕ → Buf → Bool
is_block dev sector b = (b.dev == dev) && (b.sector == sector)

-- The second loop goes from the back: the last buffer that is not busy.
abbrev pub last_free : List Buf → Option ℕ
last_free [] = none
last_free (b ∷ bs) = elim (last_free bs) [
  | some i ↦ some (suc i)
  | none ↦ if b.busy then none else some 0
]

-- `got i`: the buffer at place `i` is the caller's. `asleep`: the block's buffer is busy.
pub data Got : Type 0 where
  got : ℕ → Cache → Got
  asleep : Got

abbrev pub claim : Buf → Buf
claim b = record b { busy = true }

abbrev pub recycle : ℕ → ℕ → Buf → Buf
recycle dev sector b = record b {
  dev = dev;
  sector = sector;
  busy = true;
  valid = false;
  dirty = false;
}

abbrev pub blank : Buf
blank = record {
  id = 0;
  busy = false;
  valid = false;
  dirty = false;
  dev = no_dev;
  sector = 0;
  bytes = [];
}

unfoldable pub bget : ℕ → ℕ → Cache → Outcome Got
bget dev sector c = elim (find_index (is_block dev sector) c.bufs) [
  | some i ↦
      if (get_or c.bufs i blank).busy
      then ok asleep
      else ok (got i (record c { bufs = modify c.bufs i claim }))
  | none ↦ elim (last_free c.bufs) [
    | some i ↦ ok (got i (record c { bufs = modify c.bufs i (recycle dev sector) }))
    | none ↦ panic
  ]
]

-- iderw on the buffer at place `i`.
unfoldable pub iderw : ℕ → Cache → Cache
iderw i c =
    let b = get_or c.bufs i blank in
    if b.dirty
    then record c {
      bufs = modify c.bufs i (λ x. record x { dirty = false; valid = true });
      disk =
          write_disk c.disk b.dev b.sector
            (if c.fails b.dev b.sector then c.torn b.dev b.sector else b.bytes);
    }
    else if not b.valid
    then record c {
      bufs = modify c.bufs i (λ x. record x {
        valid = true;
        bytes = if c.fails b.dev b.sector then x.bytes else c.disk b.dev b.sector;
      });
    }
    else c

abbrev pub fill : Got → Got
fill asleep = asleep
fill (got i c) = if not (get_or c.bufs i blank).valid then got i (iderw i c) else got i c

unfoldable pub bread : ℕ → ℕ → Cache → Outcome Got
unfolding bget iderw
bread dev sector c = bget dev sector c >>= λ g. ok (fill g)

unfoldable pub bwrite : ℕ → Cache → Outcome Cache
unfolding iderw
bwrite i c =
    if not (get_or c.bufs i blank).busy
    then panic
    else ok (iderw i (record c { bufs = modify c.bufs i (λ b. record b { dirty = true }) }))

abbrev pub without : List Buf → ℕ → List Buf
without [] i = []
without (b ∷ bs) zero = bs
without (b ∷ bs) (suc i) = b ∷ without bs i

-- The buffer goes to the front of the list, no longer busy; those who sleep on it are woken.
unfoldable pub brelse : ℕ → Cache → Outcome Cache
brelse i c =
    let b = get_or c.bufs i blank in
    if not b.busy
    then panic
    else ok (record c { bufs = record b { busy = false } ∷ without c.bufs i })
