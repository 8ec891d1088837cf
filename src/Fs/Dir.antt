-- ===== src/Fs/Dir.antt =====
-- The directories of kernel/fs.c: namecmp and dirlookup, on an inode that the caller has locked.
pub mod Scan
pub mod Lookup
mod Tests
use cs_577_p.Base.{
  ℕ, zero, suc, ◌+◌, ◌-◌, ◌*◌, ◌/◌, ◌%◌, ◌^◌, Bool, true, false, not, ◌&&◌, Option, none, some,
  Outcome, ok, panic, ◌>>=◌, if◌then◌else◌, ◌==◌, ltb,
}
use cs_577_p.Spinlock.{Cpu}
use cs_577_p.Str.{Diff, strncmp}
use cs_577_p.Fs.Icache.{Dinode, Icache, iget}
use cs_577_p.Fs.Blocks.{Disk, bsize}
use cs_577_p.Fs.Contents.{Found, bmap}

abbrev pub dirsiz : ℕ
dirsiz = 14

abbrev pub t_dir : ℕ
t_dir = 1

-- `sizeof(struct dirent)`, and the entries of a block.
abbrev pub dirent_size : ℕ
dirent_size = 16

abbrev pub per_block : ℕ
per_block = 32

-- Two names in one memory, for strncmp.
abbrev pub side_by_side : (ℕ → ℕ) → (ℕ → ℕ) → ℕ → ℕ
side_by_side s t p = if ltb p 16 then s p else t (p - 16)

abbrev pub is_zero : Diff → Bool
is_zero r = r.0 == r.1

-- `namecmp(s, t) == 0`
unfoldable pub same_name : (ℕ → ℕ) → (ℕ → ℕ) → Bool
unfolding strncmp
same_name s t = is_zero (strncmp 0 16 dirsiz (side_by_side s t))

abbrev pub inum_at : (ℕ → ℕ) → ℕ → ℕ
inum_at bytes o = bytes o + bytes (o + 1) * 2 ^ 8

-- The entry at `o` of a block is in use and has the name.
abbrev pub is_entry : (ℕ → ℕ) → (ℕ → ℕ) → ℕ → Bool
is_entry name bytes o =
    if inum_at bytes o == 0 then false else same_name name (λ p. bytes (o + 2 + p))

-- The inner loop, over the `n` entries from `o` on.
unfoldable pub scan_block : (ℕ → ℕ) → (ℕ → ℕ) → ℕ → ℕ → Option ℕ
scan_block name bytes zero o = none
scan_block name bytes (suc n) o =
    let rest = scan_block name bytes n (o + dirent_size) in
    if is_entry name bytes o then some o else rest

-- What the loops come to: the entry's inode number and its offset, or nothing, with the inode and the disk.
pub record Entry : Type 0 where
  pub inum : ℕ
  pub off : ℕ

pub record Looked : Type 0 where
  pub entry : Option Entry
  pub inode : Dinode
  pub disk : Disk

-- What a round of the outer loop does with the result of the inner one.
abbrev pub leave_or : ℕ → Found → Outcome Looked → Option ℕ → Outcome Looked
leave_or off f rest none = rest
leave_or off f rest (some o) = ok (record {
  entry = some (record { inum = inum_at (f.disk f.addr) o; off = off + o });
  inode = f.inode;
  disk = f.disk;
})

-- The outer loop from `off` on, for at most `n` blocks.
unfoldable pub lookup_from : (ℕ → ℕ) → ℕ → ℕ → Dinode → Disk → Outcome Looked
unfolding bmap scan_block
lookup_from name zero off ip d = ok (record { entry = none; inode = ip; disk = d })
lookup_from name (suc n) off ip d =
    if ltb off ip.size
    then bmap (off / bsize) ip d >>= (λ f.
      leave_or off f (lookup_from name n (off + bsize) f.inode f.disk)
        (scan_block name (f.disk f.addr) per_block 0))
    else ok (record { entry = none; inode = ip; disk = d })

-- dirlookup up to its iget; `size / BSIZE + 1` rounds are enough.
unfoldable pub find_entry : (ℕ → ℕ) → Dinode → Disk → Outcome Looked
unfolding lookup_from
find_entry name ip d =
    if not (ip.kind == t_dir) then panic else lookup_from name (ip.size / bsize + 1) 0 ip d

-- What dirlookup returns: the inode in the cache and the offset, or nothing.
pub record Result : Type 0 where
  pub inode : Option ℕ
  pub poff : ℕ
  pub icache : Icache
  pub cpu : Cpu

unfoldable pub dirlookup : (ℕ → ℕ) → ℕ → Dinode → Disk → Icache → Cpu → Outcome (Looked × Result)
unfolding find_entry iget
dirlookup name dev ip d k c = find_entry name ip d >>= λ l. elim l.entry [
  | none ↦ ok (l, record { inode = none; poff = 0; icache = k; cpu = c })
  | some e ↦ iget dev e.inum k c >>= λ r.
      ok (l, record { inode = some r.0; poff = e.off; icache = r.1; cpu = r.2 })
]
