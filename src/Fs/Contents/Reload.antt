-- ===== src/Fs/Contents/Reload.antt =====
-- ilock on the inodes of a disk of bytes, after iupdate.
use cs_577_p.Base.{
  ℕ, ◌<◌, ◌≡◌, ◌≢◌, sym, ◌∙◌, ap, true, false, get_or, length, modify-modify, get_or-modify_self,
  Outcome, ok,
}
use cs_577_p.Spinlock.{Cpu}
use cs_577_p.Spinlock.Laws.{IsNested}
use cs_577_p.Fs.Icache.{Dinode, Inode, Icache, Locked, blank, take_lock, load, got, ilock}
use cs_577_p.Fs.Icache.Holding.{ilock_read}
use cs_577_p.Fs.Blocks.{Disk}
use cs_577_p.Fs.Contents.{iupdate}
use cs_577_p.Fs.Contents.Inodes.{IsDinode, read_dinode, read_dinode-iupdate}

-- ilock with the loads from the block of the inode.
unfoldable pub ilock_disk : Disk → ℕ → Icache → Cpu → Outcome Locked
ilock_disk d = ilock (λ dev inum. read_dinode inum d)

-- For an inode whose fields fit and whose type is not 0: after iupdate has written it, an ilock of an
-- entry of the cache with its number, which has a reference but is neither held nor valid, returns, and
-- the entry is then held and valid with exactly the fields that were written.
pub ilock-iupdate :
    (ip : Dinode) (d : Disk) (i : ℕ) (k : Icache) (c : Cpu)
    → IsDinode ip
    → ip.kind ≢ 0
    → IsNested c
    → k.lock.locked ≡ false
    → i < length k.inodes
    → 0 < (get_or k.inodes i blank).ref
    → (get_or k.inodes i blank).busy ≡ false
    → (get_or k.inodes i blank).valid ≡ false
    → (k' : Icache) × (c' : Cpu) × (ilock_disk (iupdate (get_or k.inodes i blank).inum ip d) i k c
        ≡ ok (got k' c'))
      × (get_or k'.inodes i blank
          ≡ record (get_or k.inodes i blank) { busy = true; valid = true; copy = ip })
unfolding ilock_disk
ilock-iupdate ip d i k c is z n free lt r b v =
    let p : Inode = get_or k.inodes i blank in
    let e : read_dinode p.inum (iupdate p.inum ip d) ≡ ip = read_dinode-iupdate p.inum ip d is in
    (
      _,
      _,
      ilock_read (λ dev inum. read_dinode inum (iupdate p.inum ip d)) i k c n free r b v
          (λ h. z (ap (λ (x : Dinode). x.kind) (sym e) ∙ h)),
      ap (λ l. get_or l i blank)
            (modify-modify k.inodes i take_lock (load (read_dinode p.inum (iupdate p.inum ip d))))
          ∙ get_or-modify_self k.inodes i
              (λ x. load (read_dinode p.inum (iupdate p.inum ip d)) (take_lock x)) blank lt
          ∙ ap (λ x. load x (take_lock p)) e,
    )
