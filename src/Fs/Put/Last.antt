-- ===== src/Fs/Put/Last.antt =====
-- What iput does with a reference that is not the last one, and with the last one.
use cs_577_p.Base.{
  ℕ, ◌<◌, ◌≤◌, true, false, not, ◌&&◌, zero, suc, ◌^◌, [], ◌∷◌, map, length-map, List, get_or,
  modify, Outcome, ok, ◌>>=◌, ◌≡◌, ◌≢◌, ◌∙◌, arith, some,
}
use cs_577_p.Spinlock.{Cpu, Lock, unlocked, acquire, release, pushcli}
use cs_577_p.Spinlock.Laws.{IsNested}
use cs_577_p.Kalloc.Pages.{calm}
use cs_577_p.Mutex.Invariant.{elem}
use cs_577_p.Fs.Icache.{Dinode, Inode, Icache, blank}
use cs_577_p.Fs.Blocks.{Disk, readsb}
use cs_577_p.Fs.Blocks.Bitmap.{in_use, IsDisk}
use cs_577_p.Fs.Contents.{itrunc, iupdate, no_addrs}
use cs_577_p.Fs.Contents.Trunc.{Freeable}
use cs_577_p.Fs.Contents.Emptied.{owned, itrunc_lem, in_use-iupdate}
use cs_577_p.Fs.Contents.Inodes.{IsDinode, read_dinode, read_dinode-iupdate}
use cs_577_p.Fs.Put.{drop_ref, is_last, no_kind, emptied, iput}

no_addr : (xs : List ℕ) (i : ℕ) → get_or (map (λ _. 0) xs) i 0 < 2 ^ 32
no_addr [] i = omega arith
no_addr (x ∷ xs) zero = omega arith
no_addr (x ∷ xs) (suc i) = no_addr xs i

-- The inode of a file that is gone.
abbrev pub gone : Dinode → Dinode
gone ip = no_kind (record (no_addrs ip) { size = 0 })

gone-IsDinode : (ip : Dinode) → IsDinode ip → IsDinode (gone ip)
gone-IsDinode ip h = record {
  short_kind = omega arith;
  short_major = h.short_major;
  short_minor = h.short_minor;
  short_nlink = h.short_nlink;
  word_size = omega arith;
  thirteen = length-map (λ _. 0) ip.addrs ∙ h.thirteen;
  word_addrs = no_addr ip.addrs;
}

module _ (i : ℕ) (k : Icache) (c : Cpu) (d : Disk) (n : IsNested c)
    (free : k.lock.locked ≡ false) where
  abbrev entry : Inode
  entry = get_or k.inodes i blank

  -- A reference that is not the last one to a file without links is dropped, and nothing else happens.
  pub iput_more :
      is_last entry ≡ false
      → iput i k c d
        ≡ ok (record { lock = unlocked; inodes = modify k.inodes i drop_ref }, calm c, d)
  unfolding iput acquire release
  iput_more l = rw (free, l) (ground arith)

  section_lem :
      (f : Lock × Cpu → Outcome (Icache × Cpu × Disk))
      → (acquire k.lock c >>= f) ≡ f (record { locked = true; cpu = some c.id }, pushcli c)
  unfolding acquire
  section_lem f = rw free (ground arith)

  iput_last_eq :
      (ip : Dinode) (d1 : Disk)
      → is_last entry ≡ true
      → entry.busy ≡ false
      → itrunc entry.inum entry.copy d ≡ ok (ip, d1)
      → iput i k c d
        ≡ ok (
          record {
            lock = unlocked;
            inodes = modify (modify k.inodes i (emptied (no_kind ip))) i drop_ref;
          },
          calm (calm c),
          iupdate entry.inum (no_kind ip) d1,
        )
  unfolding iput acquire release
  iput_last_eq ip d1 l b e = rw (free, l, b, e) (ground arith)

  -- With the last reference to a file without links, whose blocks are different data blocks in use, and which
  -- no one has locked, iput returns; the inode on the disk is free, of the blocks of the disk
  -- exactly those of the file have become free, and the entry of the cache is given back.
  pub iput_last :
      is_last entry ≡ true
      → entry.busy ≡ false
      → IsDisk d
      → IsDinode entry.copy
      → entry.inum ≤ (readsb d).ninodes
      → Freeable d (owned entry.copy d)
      → (d' : Disk) × (iput i k c d
          ≡ ok (
            record {
              lock = unlocked;
              inodes = modify (modify k.inodes i (emptied (gone entry.copy))) i drop_ref;
            },
            calm (calm c),
            d',
          ))
        × (read_dinode entry.inum d' ≡ gone entry.copy)
        × ((b : ℕ)
            → b ≢ 0
            → b < (readsb d).size
            → in_use (readsb d).ninodes d' b
              ≡ (in_use (readsb d).ninodes d b && not (elem b (owned entry.copy d))))
  iput_last l busy all h low f =
      let (d1, e, only) = itrunc_lem entry.inum entry.copy d all low f in
      (
        iupdate entry.inum (gone entry.copy) d1,
        iput_last_eq (record (no_addrs entry.copy) { size = 0 }) d1 l busy e,
        read_dinode-iupdate entry.inum (gone entry.copy) d1 (gone-IsDinode entry.copy h),
        λ b nz s.
            in_use-iupdate entry.inum (readsb d).ninodes b (gone entry.copy) d1 low ∙ only b nz s,
      )
