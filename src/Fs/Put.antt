-- ===== src/Fs/Put.antt =====
-- iput of kernel/fs.c: a reference to an in-memory inode is dropped, and with the last one to a file without
-- links the file goes. The wakeup of those who wait for the inode in ilock is Proc's.
pub mod Last
mod Tests
use cs_577_p.Base.{
  ℕ, ◌+◌, ◌-◌, Bool, true, false, not, ◌&&◌, List, get_or, modify, Outcome, ok, panic, ◌>>=◌,
  if◌then◌else◌, ◌==◌,
}
use cs_577_p.Spinlock.{Cpu, Lock, acquire, release}
use cs_577_p.Fs.Icache.{Dinode, Inode, Icache, blank, iunlock}
use cs_577_p.Fs.Blocks.{Disk}
use cs_577_p.Fs.Contents.{itrunc, iupdate}

abbrev pub drop_ref : Inode → Inode
drop_ref p = record p { ref = p.ref - 1 }

-- The inode is no longer used.
abbrev pub is_last : Inode → Bool
is_last p = (p.ref == 1) && (p.valid && (p.copy.nlink == 0))

abbrev pub no_kind : Dinode → Dinode
no_kind ip = record ip { kind = 0 }

-- `ip->flags = 0`, with the fields as itrunc and iput have set them.
abbrev pub emptied : Dinode → Inode → Inode
emptied ip p = record p { copy = ip; busy = false; valid = false }

-- The end of iput, with the lock.
unfoldable pub put_ref : ℕ → Icache → Cpu → Disk → Outcome (Icache × Cpu × Disk)
put_ref i k c d = do
  b ← release k.lock c
  let result : Icache × Cpu × Disk =
      (record { lock = b.0; inodes = modify k.inodes i drop_ref }, b.1, d)
  ok result

-- The body of the if, from its release to its second acquire; the inode is busy meanwhile.
unfoldable pub put_file : ℕ → Icache → Cpu → Disk → Outcome (Icache × Cpu × Disk)
put_file i k c d = do
  b ← release k.lock c
  r ← itrunc (get_or k.inodes i blank).inum (get_or k.inodes i blank).copy d
  let d1 = iupdate (get_or k.inodes i blank).inum (no_kind r.0) r.1
  a ← acquire b.0 b.1
  let result : Icache × Cpu × Disk =
      (record { lock = a.0; inodes = modify k.inodes i (emptied (no_kind r.0)) }, a.1, d1)
  ok result

unfoldable pub iput : ℕ → Icache → Cpu → Disk → Outcome (Icache × Cpu × Disk)
unfolding put_ref put_file
iput i k c d = do
  a ← acquire k.lock c
  let locked : Icache = record k { lock = a.0 }
  if not (is_last (get_or k.inodes i blank))
      then put_ref i locked a.1 d
      else if (get_or k.inodes i blank).busy
      then panic
      else put_file i locked a.1 d >>= λ r. put_ref i r.0 r.1 r.2
