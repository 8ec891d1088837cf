-- ===== src/Fs/Contents/Emptied.antt =====
-- itrunc gives back all the blocks of a file.
use cs_577_p.Base.{
  ℕ, ◌*◌, ◌/◌, ◌%◌, ◌<◌, ◌≤◌, Bool, true, false, not, ◌&&◌, ◌||◌, List, [], ◌∷◌, ◌++◌, take, ◌≡◌,
  ◌≢◌, sym, ap, ◌∙◌, arith, ◌==◌, if◌then◌else◌, inl, inr, Bool-cases, Outcome, ok, ◌>>=◌,
}
use mathlib.Core.Path.{subst, fun_ext}
use cs_577_p.Mutex.Invariant.{elem}
use cs_577_p.Fs.Icache.{Dinode}
use cs_577_p.Fs.Blocks.{Disk, readsb, bblock, bpb, bfree}
use cs_577_p.Fs.Blocks.Bits.{has_bit}
use cs_577_p.Fs.Blocks.Bitmap.{in_use, IsDisk}
use cs_577_p.Fs.Blocks.Free.{IsData}
use cs_577_p.Fs.Contents.{
  ndirect, nindirect, addr_at, words, free_each, free_indirect, itrunc, no_addrs, iupdate, iblock,
  copy_bytes, dinode_byte, dinode_size,
}
use cs_577_p.Fs.Contents.Trunc.{
  Freeable, Released, free_each_lem, free_each-append, free_last, elem-both, Freeable-left,
  Freeable-right, Freeable-last, not_before,
}
use cs_577_p.Fs.Contents.Writing.{write_other}

-- The blocks of a file: the direct ones, those that the indirect block names, and the indirect block.
abbrev pub past_direct : ℕ → Disk → List ℕ
past_direct a d = if a == 0 then [] else words nindirect (d a) 0 ++ a ∷ []

abbrev pub owned : Dinode → Disk → List ℕ
owned ip d = take ndirect ip.addrs ++ past_direct (addr_at ip ndirect) d

-- The second half of itrunc, on a disk that still has the indirect block.
free_indirect_lem :
    (a : ℕ) (d d1 : Disk)
    → (a ≢ 0 → (p : ℕ) → d1 a p ≡ d a p)
    → free_indirect a d1 ≡ free_each (past_direct a d) d1
unfolding free_indirect free_each
free_indirect_lem a d d1 same = elim (Bool-cases (a == 0)) [
  | inl none_there ↦
      ap (λ b. if b then ok d1 else free_each (words nindirect (d1 a) 0) d1 >>= bfree a) none_there
      ∙ sym
          (ap (λ b. free_each (if b then [] else words nindirect (d a) 0 ++ a ∷ []) d1) none_there)
  | inr there ↦
      let nz : a ≢ 0 = ground arith in
      ap (λ b. if b then ok d1 else free_each (words nindirect (d1 a) 0) d1 >>= bfree a) there
      ∙ (ap (λ f. free_each (words nindirect f 0) d1 >>= bfree a) (fun_ext (same nz))
          ∙ (sym (free_last a (free_each (words nindirect (d a) 0) d1) nz)
              ∙ (sym (free_each-append (words nindirect (d a) 0) (a ∷ []) d1)
                  ∙ sym (
                      ap (λ b. free_each (if b then [] else words nindirect (d a) 0 ++ a ∷ []) d1)
                        there))))
]

-- What itrunc does last.
abbrev emptied : ℕ → Dinode → Disk → Outcome (Dinode × Disk)
emptied inum ip d =
    ok (record (no_addrs ip) { size = 0 }, iupdate inum (record (no_addrs ip) { size = 0 }) d)

itrunc_eq :
    (inum : ℕ) (ip : Dinode) (d d1 d2 : Disk)
    → free_each (take ndirect ip.addrs) d ≡ ok d1
    → free_indirect (addr_at ip ndirect) d1 ≡ ok d2
    → itrunc inum ip d
      ≡ ok (record (no_addrs ip) { size = 0 }, iupdate inum (record (no_addrs ip) { size = 0 }) d2)
unfolding itrunc
itrunc_eq inum ip d d1 d2 e e' =
    ap (λ m. m >>= λ x. free_indirect (addr_at ip ndirect) x >>= emptied inum ip) e
    ∙ ap (λ m. m >>= emptied inum ip) e'

pub in_use-iupdate :
    (inum n a : ℕ) (ip : Dinode) (d : Disk)
    → inum ≤ n
    → in_use n (iupdate inum ip d) a ≡ in_use n d a
unfolding iupdate
in_use-iupdate inum n a ip d h =
    ap (λ y. has_bit y (a % bpb % 8))
      (write_other (iblock inum) (bblock a n)
        (copy_bytes (inum % 8 * dinode_size) (dinode_byte ip) 0 dinode_size (d (iblock inum))) d
        (a % bpb / 8) (omega (arith, h)))

-- On a file whose blocks are different data blocks in use, itrunc returns with an inode of size 0
-- that names no block; of the blocks of the disk exactly those of the file have become free.
pub itrunc_lem :
    (inum : ℕ) (ip : Dinode) (d : Disk)
    → IsDisk d
    → inum ≤ (readsb d).ninodes
    → Freeable d (owned ip d)
    → (d' : Disk) × (itrunc inum ip d ≡ ok (record (no_addrs ip) { size = 0 }, d'))
      × ((b : ℕ)
          → b ≢ 0
          → b < (readsb d).size
          → in_use (readsb d).ninodes d' b
            ≡ (in_use (readsb d).ninodes d b && not (elem b (owned ip d))))
itrunc_lem inum ip d all low f =
    let (d1, e, r) =
      free_each_lem (take ndirect ip.addrs) d all
        (Freeable-left d (take ndirect ip.addrs) (past_direct (addr_at ip ndirect) d) f) in
    let (d2, g, s) = free_each_lem (owned ip d) d all f in
    (
      iupdate inum (record (no_addrs ip) { size = 0 }) d2,
      itrunc_eq inum ip d d1 d2 e (second d1 d2 e r g),
      λ b nz h.
          in_use-iupdate inum (readsb d).ninodes b (record (no_addrs ip) { size = 0 }) d2 low
          ∙ s.only b nz h,
    )
  where
    a : ℕ
    a = addr_at ip ndirect

    untouched :
        (d1 : Disk) → Released (take ndirect ip.addrs) d d1 → a ≢ 0 → (p : ℕ) → d1 a p ≡ d a p
    untouched d1 r nz p =
        let ne : (a == 0) ≡ false = ground arith in
        let g : Freeable d (take ndirect ip.addrs ++ (words nindirect (d a) 0 ++ a ∷ [])) =
          subst
            (λ b.
              Freeable d
                (take ndirect ip.addrs ++ (if b then [] else words nindirect (d a) 0 ++ a ∷ [])))
            ne f in
        let last : elem a (words nindirect (d a) 0 ++ a ∷ []) ≡ true =
          elem-both a (words nindirect (d a) 0) (a ∷ [])
          ∙ at_end (elem a (words nindirect (d a) 0)) in
        let dat : IsData d a =
          Freeable-last d (words nindirect (d a) 0) a
            (Freeable-right d (take ndirect ip.addrs) (words nindirect (d a) 0 ++ a ∷ []) g) nz in
        r.kept a
          (not_before d (take ndirect ip.addrs) (words nindirect (d a) 0 ++ a ∷ []) a g last nz)
          dat.no_map p
      where
        at_end : (x : Bool) → (x || ((a == a) || false)) ≡ true
        at_end x = ground arith

    second :
        (d1 d2 : Disk)
        → free_each (take ndirect ip.addrs) d ≡ ok d1
        → Released (take ndirect ip.addrs) d d1
        → free_each (owned ip d) d ≡ ok d2
        → free_indirect a d1 ≡ ok d2
    second d1 d2 e r g =
        free_indirect_lem a d d1 (untouched d1 r)
        ∙ (sym (ap (λ m. m >>= free_each (past_direct a d)) e)
            ∙ (sym (free_each-append (take ndirect ip.addrs) (past_direct a d) d) ∙ g))
