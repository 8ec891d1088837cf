-- ===== src/Fs/Contents/Mapped.antt =====
-- The blocks of a file that are there: bmap finds them and changes nothing.
use cs_577_p.Base.{
  ℕ, ◌-◌, ◌*◌, ◌/◌, ◌%◌, ◌<◌, ◌≤◌, ◌≡◌, ◌≢◌, arith, ltb, if◌then◌else◌, inl, inr, Bool-cases, ok,
}
use cs_577_p.Fs.Icache.{Dinode}
use cs_577_p.Fs.Blocks.{Disk, bsize, word}
use cs_577_p.Fs.Contents.{ndirect, maxfile, addr_at, own_addr, indirect_addr, bmap}

-- The number of the file's block `bn`, as the inode and its indirect block have it; 0 is none.
abbrev pub block_of : Dinode → Disk → ℕ → ℕ
block_of ip d bn =
    if ltb bn ndirect then addr_at ip bn else word (d (addr_at ip ndirect)) (4 * (bn - ndirect))

pub record IsMapped (ip : Dinode) (d : Disk) (bn : ℕ) : Type 0 where
  pub in_range : bn < maxfile
  pub there : block_of ip d bn ≢ 0
  pub has_indirect : ndirect ≤ bn → addr_at ip ndirect ≢ 0

-- For a block that the file has, bmap returns its number and changes neither the inode nor the disk.
pub bmap_mapped :
    (bn : ℕ) (ip : Dinode) (d : Disk)
    → IsMapped ip d bn
    → bmap bn ip d ≡ ok (record { addr = block_of ip d bn; inode = ip; disk = d })
unfolding bmap own_addr indirect_addr
bmap_mapped bn ip d m = elim (Bool-cases (ltb bn ndirect)) [
  | inl direct ↦ ground (arith, m.there)
  | inr indirect ↦ ground (arith, m.there, m.has_indirect, m.in_range)
]

-- The byte of the file at `o`.
abbrev pub file_byte : Dinode → Disk → ℕ → ℕ
file_byte ip d o = d (block_of ip d (o / bsize)) (o % bsize)
