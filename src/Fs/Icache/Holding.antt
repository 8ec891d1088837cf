-- ===== src/Fs/Icache/Holding.antt =====
-- ilock and iunlock: a held inode has been read from the disk.
use cs_577_p.Base.{
  ℕ, ◌<◌, ◌≡◌, ◌≢◌, refl, ◌∙◌, ap, true, false, arith, inl, inr, get_or, modify, length,
  length-modify, modify-modify, get_or-modify_self, get_or-modify_ne, Bool-cases, ok, if◌then◌else◌,
}
use cs_577_p.Spinlock.{Cpu, unlocked, acquire, release}
use cs_577_p.Spinlock.Laws.{IsNested}
use cs_577_p.Kalloc.Pages.{calm}
use cs_577_p.Fs.Icache.{
  Dinode, Inode, Icache, blank, take_lock, load, drop_lock, got, ilock, iunlock,
}

-- The copy that a held inode has: the one that it had if it was valid, and else that of the disk.
abbrev pub current : (ℕ → ℕ → Dinode) → Inode → Dinode
current on_disk p = if p.valid then p.copy else on_disk p.dev p.inum

module _ (on_disk : ℕ → ℕ → Dinode) (i : ℕ) (k : Icache) (c : Cpu) (n : IsNested c)
    (free : k.lock.locked ≡ false) where
  abbrev entry : Inode
  entry = get_or k.inodes i blank

  abbrev held : (Inode → Inode) → Icache
  held f = record { lock = unlocked; inodes = modify k.inodes i f }

  abbrev read_in : Inode → Inode
  read_in p = load (on_disk entry.dev entry.inum) (take_lock p)

  ilock_valid :
      0 < entry.ref
      → entry.busy ≡ false
      → entry.valid ≡ true
      → ilock on_disk i k c ≡ ok (got (held take_lock) (calm c))
  unfolding ilock acquire release
  ilock_valid r b v = ground arith

  pub ilock_read :
      0 < entry.ref
      → entry.busy ≡ false
      → entry.valid ≡ false
      → (on_disk entry.dev entry.inum).kind ≢ 0
      → ilock on_disk i k c
        ≡ ok (
            got
              (record (held take_lock) {
                inodes =
                    modify (modify k.inodes i take_lock) i (load (on_disk entry.dev entry.inum));
              })
              (calm c))
  unfolding ilock acquire release
  ilock_read r b v z = ground arith

iunlock_run :
    (i : ℕ) (k : Icache) (c : Cpu)
    → IsNested c
    → k.lock.locked ≡ false
    → (get_or k.inodes i blank).busy ≡ true
    → 0 < (get_or k.inodes i blank).ref
    → iunlock i k c ≡ ok (record { lock = unlocked; inodes = modify k.inodes i drop_lock }, calm c)
unfolding iunlock acquire release
iunlock_run i k c n free b r = ground arith

-- What ilock and then iunlock make of the cache: in between the inode is busy, valid, and has the fields
-- of `current`; at the end only these fields and its flag for valid have changed.
pub record Held (on_disk : ℕ → ℕ → Dinode) (i : ℕ) (k k1 k2 : Icache) : Type 0 where
  pub during : get_or k1.inodes i blank ≡ record (get_or k.inodes i blank) {
    busy = true;
    valid = true;
    copy = current on_disk (get_or k.inodes i blank);
  }
  pub at_end : get_or k2.inodes i blank ≡ record (get_or k.inodes i blank) {
    busy = false;
    valid = true;
    copy = current on_disk (get_or k.inodes i blank);
  }
  pub others : (j : ℕ) → i ≢ j → get_or k2.inodes j blank ≡ get_or k.inodes j blank

-- ilock of an inode with a reference that nobody holds returns, if the inode is valid or the disk's has a
-- type, and the iunlock after it does too. In between the inode is held and valid, with the fields that
-- it had or, if it was not valid, those of the disk; no other inode changes.
pub iunlock-ilock :
    (on_disk : ℕ → ℕ → Dinode) (i : ℕ) (k : Icache) (c : Cpu)
    → IsNested c
    → k.lock.locked ≡ false
    → i < length k.inodes
    → 0 < (get_or k.inodes i blank).ref
    → (get_or k.inodes i blank).busy ≡ false
    → (current on_disk (get_or k.inodes i blank)).kind ≢ 0
    → (k1 : Icache) × (d1 : Cpu) × (k2 : Icache) × (d2 : Cpu) × (ilock on_disk i k c
        ≡ ok (got k1 d1))
      × (iunlock i k1 d1 ≡ ok (k2, d2))
      × Held on_disk i k k1 k2
iunlock-ilock on_disk i k c n free lt r b z = elim (Bool-cases (get_or k.inodes i blank).valid) [
  | inl v ↦ finish take_lock (ilock_valid on_disk i k c n free r b v) (rw v refl)
  | inr nv ↦
      finish (read_in on_disk i k c n free)
        (ilock_read on_disk i k c n free r b nv (rw nv at z)
          ∙ rw
              (modify-modify k.inodes i take_lock
                (load (on_disk (get_or k.inodes i blank).dev (get_or k.inodes i blank).inum)))
              refl)
        (rw nv refl)
]
  where
    finish :
        (f : Inode → Inode)
        → ilock on_disk i k c
          ≡ ok (got (record { lock = unlocked; inodes = modify k.inodes i f }) (calm c))
        → f (get_or k.inodes i blank) ≡ record (get_or k.inodes i blank) {
          busy = true;
          valid = true;
          copy = current on_disk (get_or k.inodes i blank);
        }
        → (k1 : Icache) × (d1 : Cpu) × (k2 : Icache) × (d2 : Cpu) × (ilock on_disk i k c
            ≡ ok (got k1 d1))
          × (iunlock i k1 d1 ≡ ok (k2, d2))
          × Held on_disk i k k1 k2
    finish f run e =
        let here : get_or (modify k.inodes i f) i blank ≡ f (get_or k.inodes i blank) =
          get_or-modify_self k.inodes i f blank lt in
        let k1 : Icache = record { lock = unlocked; inodes = modify k.inodes i f } in
        let k2 : Icache = record { lock = unlocked; inodes = modify k1.inodes i drop_lock } in
        let lt1 : i < length k1.inodes = omega (arith, lt, length-modify k.inodes i f) in
        (
          k1,
          calm c,
          k2,
          calm (calm c),
          run,
          iunlock_run i k1 (calm c) n refl (ap (λ (p : Inode). p.busy) (here ∙ e))
              (rw (here ∙ e) r),
          record {
            during = here ∙ e;
            at_end = get_or-modify_self k1.inodes i drop_lock blank lt1 ∙ ap drop_lock (here ∙ e);
            others = λ j ne.
                get_or-modify_ne k1.inodes i j drop_lock blank ne
                ∙ get_or-modify_ne k.inodes i j f blank ne;
          },
        )
