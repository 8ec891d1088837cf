-- ===== src/Fs/Icache.antt =====
-- The in-memory inodes of kernel/fs.c: iget, idup, ilock and iunlock.
-- An inode pointer is an index of the cache. `on_disk` gives the inodes on the disk, as bread finds them.
pub mod Sharing
pub mod Holding
mod Tests
use cs_577_p.Base.{
  ℕ, ◌+◌, Bool, true, false, not, ◌&&◌, ◌||◌, Option, none, some, List, [], ◌∷◌, get_or, modify,
  find_index, Outcome, ok, panic, ◌>>=◌, if◌then◌else◌, ◌==◌, ltb,
}
use cs_577_p.Spinlock.{Cpu, Lock, acquire, release}

-- The fields of `struct dinode`, which an in-memory inode copies.
pub record Dinode : Type 0 where
  pub kind : ℕ
  pub major : ℕ
  pub minor : ℕ
  pub nlink : ℕ
  pub size : ℕ
  pub addrs : List ℕ

-- `struct inode`; `busy` and `valid` are its flags I_BUSY and I_VALID.
pub record Inode : Type 0 where
  pub dev : ℕ
  pub inum : ℕ
  pub ref : ℕ
  pub busy : Bool
  pub valid : Bool
  pub copy : Dinode

abbrev pub empty_copy : Dinode
empty_copy = record { kind = 0; major = 0; minor = 0; nlink = 0; size = 0; addrs = [] }

abbrev pub blank : Inode
blank = record { dev = 0; inum = 0; ref = 0; busy = false; valid = false; copy = empty_copy }

pub record Icache : Type 0 where
  pub lock : Lock
  pub inodes : List Inode

abbrev pub is_inode : ℕ → ℕ → Inode → Bool
is_inode dev inum p = ltb 0 p.ref && ((p.dev == dev) && (p.inum == inum))

abbrev pub is_empty : Inode → Bool
is_empty p = p.ref == 0

abbrev pub add_ref : Inode → Inode
add_ref p = record p { ref = p.ref + 1 }

abbrev pub reuse : ℕ → ℕ → Inode → Inode
reuse dev inum p = record p { dev = dev; inum = inum; ref = 1; busy = false; valid = false }

-- The end of iget: the entry that it returns, changed by `f`, and the lock free again.
abbrev pub give : ℕ → (Inode → Inode) → List Inode → Lock × Cpu → ℕ × Icache × Cpu
give i f inodes b = (i, record { lock = b.0; inodes = modify inodes i f }, b.1)

unfoldable pub iget : ℕ → ℕ → Icache → Cpu → Outcome (ℕ × Icache × Cpu)
iget dev inum k c = do
  a ← acquire k.lock c
  elim (find_index (is_inode dev inum) k.inodes) [
    | some i ↦ release a.0 a.1 >>= λ b. ok (give i add_ref k.inodes b)
    | none ↦ elim (find_index is_empty k.inodes) [
      | none ↦ panic
      | some i ↦ release a.0 a.1 >>= λ b. ok (give i (reuse dev inum) k.inodes b)
    ]
  ]

unfoldable pub idup : ℕ → Icache → Cpu → Outcome (ℕ × Icache × Cpu)
idup i k c = do a ← acquire k.lock c; b ← release a.0 a.1; ok (give i add_ref k.inodes b)

-- ilock either sleeps, where the inode is busy, or returns.
pub data Locked : Type 0 where
  asleep : Locked
  got : Icache → Cpu → Locked

abbrev pub take_lock : Inode → Inode
take_lock p = record p { busy = true }

abbrev pub load : Dinode → Inode → Inode
load d p = record p { copy = d; valid = true }

module _ (on_disk : ℕ → ℕ → Dinode) where
  unfoldable pub ilock : ℕ → Icache → Cpu → Outcome Locked
  ilock i k c =
      let p = get_or k.inodes i blank in
      if p.ref == 0 then panic else do
        a ← acquire k.lock c
        if p.busy then ok asleep else do
          b ← release a.0 a.1
          let k1 : Icache = record { lock = b.0; inodes = modify k.inodes i take_lock }
          let d = on_disk p.dev p.inum
          if p.valid
              then ok (got k1 b.1)
              else if d.kind == 0
              then panic
              else ok (got (record k1 { inodes = modify k1.inodes i (load d) }) b.1)

abbrev pub drop_lock : Inode → Inode
drop_lock p = record p { busy = false }

unfoldable pub iunlock : ℕ → Icache → Cpu → Outcome (Icache × Cpu)
iunlock i k c =
    let p = get_or k.inodes i blank in
    if not p.busy || (p.ref == 0) then panic else do
      a ← acquire k.lock c
      b ← release a.0 a.1
      ok (record { lock = b.0; inodes = modify k.inodes i drop_lock }, b.1)
