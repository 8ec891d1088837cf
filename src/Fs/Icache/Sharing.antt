-- ===== src/Fs/Icache/Sharing.antt =====
-- An inode in use has one entry of the cache, however often iget is called for it.
use cs_577_p.Base.{ℕ, ◌+◌, ◌<◌, ◌≡◌, ◌≢◌, true, false, some, List, get_elem?, get_or, modify}
use cs_577_p.Spinlock.{Cpu, unlocked}
use cs_577_p.Spinlock.Laws.{IsNested}
use cs_577_p.Fs.Icache.{Inode, Icache, blank, is_inode}

-- No two entries in use are for one inode.
abbrev pub Unique : List Inode → Type 0
Unique ps =
    (i j : ℕ) (a b : Inode)
    → get_elem? ps i ≡ some a
    → get_elem? ps j ≡ some b
    → 0 < a.ref
    → 0 < b.ref
    → a.dev ≡ b.dev
    → a.inum ≡ b.inum
    → i ≡ j

-- What a good iget of an inode returns: an entry for the inode, in use, with one reference more than it
-- had, the other entries as before, the cache unique and its lock free.
pub record Fetched (dev inum : ℕ) (k : Icache) (c : Cpu) (i : ℕ) (k' : Icache) (d : Cpu)
    : Type 0 where
  pub unique : Unique k'.inodes
  pub free : k'.lock.locked ≡ false
  pub entry : is_inode dev inum (get_or k'.inodes i blank) ≡ true
  pub counted : (get_or k'.inodes i blank).ref ≡ (get_or k.inodes i blank).ref + 1
  pub others : (j : ℕ) → i ≢ j → get_or k'.inodes j blank ≡ get_or k.inodes j blank
  pub flag : d.flag_if ≡ c.flag_if

module _ (dev inum : ℕ) (k : Icache) (c : Cpu) (n : IsNested c) (free : k.lock.locked ≡ false) where
  abbrev result : ℕ → (Inode → Inode) → Icache
  result i f = record { lock = unlocked; inodes = modify k.inodes i f }
