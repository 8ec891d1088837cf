-- ===== src/Fs/Blocks.antt =====
-- The free map of kernel/fs.c: readsb, bzero, balloc and bfree on one device.
-- A disk gives each block its bytes. bread hands out the block of the disk, as Bio shows, and a change of
-- its data that bwrite follows is a change of the disk.
pub mod Bits
pub mod Bitmap
pub mod Alloc
pub mod Free
pub mod Cycle
pub mod Samples
mod Tests
use cs_577_p.Base.{
  ℕ, zero, suc, ◌+◌, ◌-◌, ◌*◌, ◌/◌, ◌%◌, ◌^◌, Bool, ◌&&◌, Option, none, some, Outcome, ok, panic,
  ◌>>=◌, if◌then◌else◌, ◌==◌, ltb, not,
}

abbrev pub Disk : Type 0
Disk = ℕ → ℕ → ℕ

abbrev pub write_byte : ℕ → ℕ → ℕ → Disk → Disk
write_byte bno o v d b p = if (bno == b) && (o == p) then v else d b p

abbrev pub bsize : ℕ
bsize = 512

-- BPB and IPB.
abbrev pub bpb : ℕ
bpb = 4096

abbrev pub ipb : ℕ
ipb = 8

-- BBLOCK
abbrev pub bblock : ℕ → ℕ → ℕ
bblock b ninodes = b / bpb + ninodes / ipb + 3

pub record Superblock : Type 0 where
  pub size : ℕ
  pub nblocks : ℕ
  pub ninodes : ℕ

-- A little-endian word of a block.
abbrev pub word : (ℕ → ℕ) → ℕ → ℕ
word bytes o = bytes o + bytes (o + 1) * 2 ^ 8 + bytes (o + 2) * 2 ^ 16 + bytes (o + 3) * 2 ^ 24

unfoldable pub readsb : Disk → Superblock
readsb d = record { size = word (d 1) 0; nblocks = word (d 1) 4; ninodes = word (d 1) 8 }

unfoldable pub bzero : ℕ → Disk → Disk
bzero bno d b p = if (bno == b) && ltb p bsize then 0 else d b p

-- `(data[bi/8] & (1 << (bi % 8))) == 0`
abbrev pub is_clear : (ℕ → ℕ) → ℕ → Bool
is_clear bytes bi = bytes (bi / 8) / 2 ^ (bi % 8) % 2 == 0

-- The first clear bit of the `n` from `bi` on.
unfoldable pub first_clear : ℕ → ℕ → (ℕ → ℕ) → Option ℕ
first_clear zero bi bytes = none
first_clear (suc n) bi bytes =
    let rest = first_clear n (suc bi) bytes in if is_clear bytes bi then some bi else rest

-- `data[bi/8] |= m` for a clear bit, and `data[bi/8] &= ~m` for a set one.
abbrev pub set_bit : ℕ → ℕ → Disk → Disk
set_bit bno bi d = write_byte bno (bi / 8) (d bno (bi / 8) + 2 ^ (bi % 8)) d

abbrev pub clear_bit : ℕ → ℕ → Disk → Disk
clear_bit bno bi d = write_byte bno (bi / 8) (d bno (bi / 8) - 2 ^ (bi % 8)) d

-- What a round of the loop does with the bit that it found in the map's block for `b`.
abbrev pub take_bit : ℕ → Superblock → Disk → Outcome (ℕ × Disk) → Option ℕ → Outcome (ℕ × Disk)
take_bit b sb d rest (some bi) = ok (b + bi, set_bit (bblock b sb.ninodes) bi d)
take_bit b sb d rest none = rest

-- The loop of balloc from block `b` on, for at most `n` rounds.
unfoldable pub balloc_from : ℕ → ℕ → Superblock → Disk → Outcome (ℕ × Disk)
balloc_from zero b sb d = panic
balloc_from (suc n) b sb d =
    let rest = balloc_from n (b + bpb) sb d in
    if ltb b sb.size
    then take_bit b sb d rest (first_clear bpb 0 (d (bblock b sb.ninodes)))
    else panic

-- `size / BPB + 1` rounds are enough for all of the map.
unfoldable pub balloc : Disk → Outcome (ℕ × Disk)
unfolding balloc_from readsb
balloc d = let sb = readsb d in balloc_from (sb.size / bpb + 1) 0 sb d

unfoldable pub bfree : ℕ → Disk → Outcome Disk
unfolding readsb bzero
bfree b d =
    let d1 = bzero b d in
    let bno = bblock b (readsb d1).ninodes in
    if is_clear (d1 bno) (b % bpb) then panic else ok (clear_bit bno (b % bpb) d1)
