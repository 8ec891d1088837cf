-- ===== src/Fs/Contents/Files.antt =====
-- writei, and a readi after it.
use cs_577_p.Base.{
  ℕ, ◌+◌, ◌-◌, ◌*◌, ◌/◌, ◌%◌, ◌^◌, ◌<◌, ◌≤◌, true, false, ◌&&◌, ◌||◌, ◌≡◌, ◌≢◌, refl, sym, ap, ◌∙◌,
  arith, ◌==◌, ltb, if◌then◌else◌, inl, inr, Bool-cases, Outcome, ok, ◌>>=◌, Option, some,
}
use cs_577_p.Fs.Icache.{Dinode}
use cs_577_p.Fs.Blocks.{Disk, bsize}
use cs_577_p.Fs.Contents.{
  ndirect, maxfile, Mem, addr_at, copy_bytes, write_block, Transfer, write_from, write_bytes, readi,
  writei, grow, write_count, t_dev, iblock, iupdate, dinode_byte, dinode_size,
}
use cs_577_p.Fs.Contents.Copies.{copy_in}
use cs_577_p.Fs.Contents.Mapped.{block_of, file_byte}
use cs_577_p.Fs.Contents.Reading.{read_count, readi_lem}
use cs_577_p.Fs.Contents.Writing.{IsWhole, moved-IsWhole, same_blocks, write_other, write_from_lem}

-- A file of `len` blocks, none of which is the block of its inode.
pub record IsFile (inum : ℕ) (ip : Dinode) (d : Disk) (len : ℕ) : Type 0 where
  pub no_device : ip.kind ≢ t_dev
  pub whole : IsWhole ip d len
  pub off_inode : (b : ℕ) → b < len → iblock inum ≢ block_of ip d b
  pub inode_off_indirect : iblock inum ≢ addr_at ip ndirect
  pub small : len ≤ maxfile
  pub holds : ip.size ≤ len * bsize

moved-IsFile :
    (inum : ℕ) (ip : Dinode) (d d' : Disk) (len size : ℕ)
    → ((b : ℕ) → block_of ip d' b ≡ block_of ip d b)
    → size ≤ len * bsize
    → IsFile inum ip d len
    → IsFile inum (record ip { size = size }) d' len
moved-IsFile inum ip d d' len size stays h f = record {
  no_device = f.no_device;
  whole = moved-IsWhole ip d d' len size stays f.whole;
  off_inode = λ b l e. f.off_inode b l (e ∙ stays b);
  inode_off_indirect = f.inode_off_indirect;
  small = f.small;
  holds = h;
}

-- An inode with a disk.
abbrev pair : Dinode → Disk → Dinode × Disk
pair ip d = (ip, d)

-- The inode after a write of `n` bytes at `off`.
abbrev pub sized : Dinode → ℕ → ℕ → Dinode
sized ip off n = record ip { size = if ltb ip.size (off + n) then off + n else ip.size }

module _ (inum : ℕ) (ip : Dinode) (len : ℕ) where
  -- iupdate of the file's inode leaves its blocks and its bytes.
  updated :
      (ip' : Dinode) (d : Disk)
      → iblock inum ≢ addr_at ip ndirect
      → ((b : ℕ) → b < len → iblock inum ≢ block_of ip d b)
      → ((b : ℕ) → block_of ip (iupdate inum ip' d) b ≡ block_of ip d b)
        × ((o : ℕ) → o / bsize < len → file_byte ip (iupdate inum ip' d) o ≡ file_byte ip d o)
  unfolding iupdate
  updated ip' d h h' = (
    stays,
    λ o l.
        ap (λ b. write_block (iblock inum) bytes d b (o % bsize)) (stays (o / bsize))
        ∙ write_other (iblock inum) (block_of ip d (o / bsize)) bytes d (o % bsize)
            (h' (o / bsize) l),
  )
    where
      bytes : ℕ → ℕ
      bytes = copy_bytes (inum % 8 * dinode_size) (dinode_byte ip') 0 dinode_size (d (iblock inum))

      stays : (b : ℕ) → block_of ip (write_block (iblock inum) bytes d) b ≡ block_of ip d b
      stays = same_blocks ip d (iblock inum) bytes h

module _ (devices : ℕ → Option (ℕ → ℕ → Mem → Outcome (Option ℕ))) (inum : ℕ) (ip : Dinode)
    (src off n : ℕ) (d : Disk) (mem : Mem) (len : ℕ) where
  abbrev longer_file : Disk → Dinode × Disk
  longer_file d1 = (record ip { size = off + n }, iupdate inum (record ip { size = off + n }) d1)

  abbrev end_with : Dinode × Disk → Outcome Transfer
  end_with r = ok (record {
    result = some n;
    inode = (grow inum n (off + n) r).0;
    disk = (grow inum n (off + n) r).1;
    mem = mem;
  })

  fits :
      {d1 : Disk}
      → IsFile inum ip d1 len
      → off + n ≤ len * bsize
      → (if ltb ip.size (off + n) then off + n else ip.size) ≤ len * bsize
  fits f h = ground (arith, f.holds)

  -- The end of writei, on the disk that the loop has left.
  grow_lem :
      (d1 : Disk)
      → IsFile inum ip d1 len
      → off ≤ ip.size
      → off + n ≤ len * bsize
      → (d' : Disk) × (grow inum n (off + n) (ip, d1) ≡ (sized ip off n, d'))
        × IsFile inum (sized ip off n) d' len
        × ((o : ℕ) → o / bsize < len → file_byte ip d' o ≡ file_byte ip d1 o)
  unfolding grow
  grow_lem d1 f h h' = elim (Bool-cases (ltb ip.size (off + n))) [
    | inr same ↦ (
      d1,
      let c : (ltb 0 n && ltb ip.size (off + n)) ≡ false = ground arith in
          ap (λ x. if x then longer_file d1 else pair ip d1) c
          ∙ ap (λ x. pair (record ip { size = if x then off + n else ip.size }) d1) (sym same),
      moved-IsFile inum ip d1 d1 len (sized ip off n).size (λ b. refl) (fits f h') f,
      λ o l. refl,
    )
    | inl longer ↦ (
      (longer_file d1).1,
      let c : (ltb 0 n && ltb ip.size (off + n)) ≡ true = ground (arith, h) in
          ap (λ x. if x then longer_file d1 else pair ip d1) c
          ∙ ap (λ x. pair (record ip { size = if x then off + n else ip.size }) (longer_file d1).1)
              (sym longer),
      let (stays, bytes) =
            updated inum ip len (record ip { size = off + n }) d1 f.inode_off_indirect
              f.off_inode in
          moved-IsFile inum ip d1 (longer_file d1).1 len (sized ip off n).size stays (fits f h') f,
      (updated inum ip len (record ip { size = off + n }) d1 f.inode_off_indirect f.off_inode).1,
    )
  ]

  bytes_written :
      (d1 d' : Disk)
      → write_from n n off src ip d mem ≡ ok (ip, d1)
      → grow inum n (off + n) (ip, d1) ≡ (sized ip off n, d')
      → write_bytes inum ip src off n d mem
        ≡ ok (record { result = some n; inode = sized ip off n; disk = d'; mem = mem })
  unfolding write_bytes
  bytes_written d1 d' e g =
      ap (λ m. m >>= end_with) e
      ∙ ap (λ r. ok (record { result = some n; inode = r.0; disk = r.1; mem = mem })) g

  -- On a file of which the first `len` blocks are there, writei at an offset not past the end, of bytes that fit
  -- into those blocks, returns their count; the file has the bytes of the memory from the offset on, and
  -- otherwise those it had; its size is the end of the write if that is larger, and its blocks are still
  -- there.
  pub writei_lem :
      IsFile inum ip d len
      → off ≤ ip.size
      → off + n ≤ len * bsize
      → (d' : Disk) × (writei devices inum ip src off n d mem
          ≡ ok (record { result = some n; inode = sized ip off n; disk = d'; mem = mem }))
        × IsFile inum (sized ip off n) d' len
        × ((o : ℕ)
            → o / bsize < len
            → file_byte ip d' o ≡ copy_bytes off mem src n (file_byte ip d) o)
  unfolding writei
  writei_lem f h h' =
      let (d1, e, w, stays, bytes) =
        write_from_lem n n off src len ip d mem (omega arith) h' f.whole in
      let (d', g, f', same) =
        grow_lem d1 (moved-IsFile inum ip d d1 len ip.size stays f.holds f) h h' in
      (d', passed d1 d' e g, f', λ o l. same o l ∙ bytes o l)
    where
      passed :
          (d1 d' : Disk)
          → write_from n n off src ip d mem ≡ ok (ip, d1)
          → grow inum n (off + n) (ip, d1) ≡ (sized ip off n, d')
          → writei devices inum ip src off n d mem
            ≡ ok (record { result = some n; inode = sized ip off n; disk = d'; mem = mem })
      passed d1 d' e g =
          let t : (ip.kind == t_dev) ≡ false = ground (arith, f.no_device) in
          let c : (ltb ip.size off || ltb ((off + n) % 2 ^ 32) off) ≡ false =
            ground (arith, h, h', f.small) in
          let k : write_count off n ≡ n = ground (arith, h', f.small) in
          rw (t, c) (ap (λ x. write_bytes inum ip src off x d mem) k ∙ bytes_written d1 d' e g)

  -- What writei has written to such a file, a readi of the same range reads back, into any memory.
  pub readi-writei :
      (readers : ℕ → Option (ℕ → ℕ → Mem → Outcome (Option ℕ × Mem))) (dst : ℕ) (mem2 : Mem)
      → IsFile inum ip d len
      → off ≤ ip.size
      → off + n ≤ len * bsize
      → (d' : Disk) × (mem' : Mem) × (writei devices inum ip src off n d mem
          ≡ ok (record { result = some n; inode = sized ip off n; disk = d'; mem = mem }))
        × (readi readers (sized ip off n) dst off n d' mem2
            ≡ ok (record { result = some n; inode = sized ip off n; disk = d'; mem = mem' }))
        × ((i : ℕ) → i < n → mem' (dst + i) ≡ mem (src + i))
  readi-writei readers dst mem2 f h h' =
      let (d', e, f', bytes) = writei_lem f h h' in
      let (mem', r, c) =
        readi_lem readers (sized ip off n) dst off n d' mem2 f'.no_device (ground (arith, h))
          (omega (arith, h', f.small))
          (λ o l. f'.whole.mapped (o / bsize) (omega (arith, l, f'.holds))) in
      let k : read_count (sized ip off n) off n ≡ n = ground arith in
      (
        d',
        mem',
        e,
        r
            ∙ ap
                (λ x.
                  ok (record { result = some x; inode = sized ip off n; disk = d'; mem = mem' }))
                k,
        λ i l.
            c (dst + i)
            ∙ (ap (λ x. copy_bytes dst (file_byte ip d') off x mem2 (dst + i)) k
                ∙ (copy_in dst (file_byte ip d') off n mem2 (dst + i) (omega arith)
                      (omega (arith, l))
                    ∙ (bytes (off + (dst + i - dst)) (omega (arith, l, h'))
                        ∙ (copy_in off mem src n (file_byte ip d) (off + (dst + i - dst))
                              (omega arith) (omega (arith, l))
                            ∙ ap mem (omega arith))))),
      )
