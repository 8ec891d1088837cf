-- ===== src/Fs/Contents/Writing.antt =====
-- writei: the loop over the blocks writes the bytes of the file.
use cs_577_p.Base.{
  ℕ, zero, suc, ◌+◌, ◌-◌, ◌*◌, ◌/◌, ◌%◌, ◌<◌, ◌≤◌, ◌≡◌, ◌≢◌, ◌⊎◌, refl, sym, ap, ◌∙◌, arith, ◌==◌,
  ltb, if◌then◌else◌, inl, inr, Bool-cases, ok,
}
use mathlib.Core.Path.{fun_ext}
use cs_577_p.Fs.Icache.{Dinode}
use cs_577_p.Fs.Blocks.{Disk, bsize, word}
use cs_577_p.Fs.Contents.{ndirect, Mem, addr_at, copy_bytes, write_block, piece, write_from}
use cs_577_p.Fs.Contents.Copies.{copy_out, copy_none, copy_pieces, copy_shift, copy_same}
use cs_577_p.Fs.Contents.Mapped.{block_of, IsMapped, bmap_mapped, file_byte}
use cs_577_p.Fs.Contents.Reading.{piece_bounds}

-- The first `len` blocks of the file are there, are different ones, and none is its indirect block.
pub record IsWhole (ip : Dinode) (d : Disk) (len : ℕ) : Type 0 where
  pub mapped : (b : ℕ) → b < len → IsMapped ip d b
  pub apart : (b c : ℕ) → b < len → c < len → block_of ip d b ≡ block_of ip d c → b ≡ c
  pub off_indirect : (b : ℕ) → b < len → block_of ip d b ≢ addr_at ip ndirect

write_same : (b : ℕ) (bytes : ℕ → ℕ) (d : Disk) (p : ℕ) → write_block b bytes d b p ≡ bytes p
write_same b bytes d p = ground arith

pub write_other :
    (b c : ℕ) (bytes : ℕ → ℕ) (d : Disk) (p : ℕ) → b ≢ c → write_block b bytes d c p ≡ d c p
write_other b c bytes d p h = ground arith

-- A write to a block that is not the indirect one leaves the file's blocks where they are.
pub same_blocks :
    (ip : Dinode) (d : Disk) (bno : ℕ) (bytes : ℕ → ℕ)
    → bno ≢ addr_at ip ndirect
    → (b : ℕ) → block_of ip (write_block bno bytes d) b ≡ block_of ip d b
same_blocks ip d bno bytes h b =
    ap (λ f. if ltb b ndirect then addr_at ip b else word f (4 * (b - ndirect))) (fun_ext kept)
  where
    kept : (p : ℕ) → write_block bno bytes d (addr_at ip ndirect) p ≡ d (addr_at ip ndirect) p
    kept p = ground arith

-- What keeps the blocks of a file keeps it whole, whatever its size.
pub moved-IsWhole :
    (ip : Dinode) (d d' : Disk) (len size : ℕ)
    → ((b : ℕ) → block_of ip d' b ≡ block_of ip d b)
    → IsWhole ip d len
    → IsWhole (record ip { size = size }) d' len
moved-IsWhole ip d d' len size stays whole = record {
  mapped = λ b h. record {
    in_range = (whole.mapped b h).in_range;
    there = λ e. (whole.mapped b h).there (sym (stays b) ∙ e);
    has_indirect = (whole.mapped b h).has_indirect;
  };
  apart = λ b c h h' e. whole.apart b c h h' (sym (stays b) ∙ (e ∙ stays c));
  off_indirect = λ b h e. whole.off_indirect b h (sym (stays b) ∙ e);
}

-- One piece: the disk after it.
module _ (ip : Dinode) (d : Disk) (mem : Mem) (len off m src : ℕ) (whole : IsWhole ip d len)
    (inside : off / bsize < len) (fit : off % bsize + m ≤ bsize) where
  abbrev old_block : ℕ
  old_block = block_of ip d (off / bsize)

  abbrev pub piece_written : Disk
  piece_written = write_block old_block (copy_bytes (off % bsize) mem src m (d old_block)) d

  stays : (b : ℕ) → block_of ip piece_written b ≡ block_of ip d b
  stays =
      same_blocks ip d old_block (copy_bytes (off % bsize) mem src m (d old_block))
        (whole.off_indirect (off / bsize) inside)

  piece_written-IsWhole : IsWhole ip piece_written len
  piece_written-IsWhole = moved-IsWhole ip d piece_written len ip.size stays whole

  -- The bytes of the file after the piece.
  piece_bytes :
      (o : ℕ)
      → o / bsize < len
      → file_byte ip piece_written o ≡ copy_bytes off mem src m (file_byte ip d) o
  piece_bytes o h = ap (λ b. piece_written b (o % bsize)) (stays (o / bsize)) ∙ by_block
    where
      outside : off / bsize ≢ o / bsize → (o < off) ⊎ (off + m ≤ o)
      outside ne = elim (Bool-cases (ltb o off)) [
        | inl before ↦ inl (ground arith)
        | inr behind ↦ inr (next_block (ground arith) ne)
      ]
        where
          next_block : off ≤ o → off / bsize ≢ o / bsize → off + m ≤ o
          next_block h ne = omega (arith, fit, h, ne)

      by_block :
          piece_written (block_of ip d (o / bsize)) (o % bsize)
          ≡ copy_bytes off mem src m (file_byte ip d) o
      by_block = elim (Bool-cases (off / bsize == o / bsize)) [
        | inl same ↦
            let e : off / bsize ≡ o / bsize = ground arith in
            ap (λ b. piece_written (block_of ip d b) (o % bsize)) (sym e)
            ∙ (write_same old_block (copy_bytes (off % bsize) mem src m (d old_block)) d (o % bsize)
                ∙ copy_shift (off % bsize) off src m (o % bsize) o mem (d old_block)
                    (file_byte ip d) (omega (arith, e))
                    (ap (λ b. d (block_of ip d b) (o % bsize)) e))
        | inr other ↦
            let ne : off / bsize ≢ o / bsize = ground arith in
            write_other old_block (block_of ip d (o / bsize))
              (copy_bytes (off % bsize) mem src m (d old_block)) d (o % bsize)
              (λ z. ne (whole.apart (off / bsize) (o / bsize) inside h z))
            ∙ sym (copy_out off mem src m (file_byte ip d) o (outside ne))
      ]

-- The loop, on blocks that the file has.
pub write_from_lem :
    (fuel left off src len : ℕ) (ip : Dinode) (d : Disk) (mem : Mem)
    → left ≤ fuel
    → off + left ≤ len * bsize
    → IsWhole ip d len
    → (d' : Disk) × (write_from fuel left off src ip d mem ≡ ok (ip, d'))
      × IsWhole ip d' len
      × ((b : ℕ) → block_of ip d' b ≡ block_of ip d b)
      × ((o : ℕ)
          → o / bsize < len
          → file_byte ip d' o ≡ copy_bytes off mem src left (file_byte ip d) o)
unfolding write_from
write_from_lem zero left off src len ip d mem h b w = (
  d,
  refl,
  w,
  λ b. refl,
  λ o i. sym (copy_none off mem src left (file_byte ip d) o (omega (arith, h))),
)
write_from_lem (suc fuel) left off src len ip d mem h b w = elim (Bool-cases (left == 0)) [
  | inl finished ↦ (
    d,
    rw finished refl,
    w,
    λ b. refl,
    λ o i. sym (copy_none off mem src left (file_byte ip d) o (ground arith)),
  )
  | inr more ↦
      let (pos, le, fit) = piece_bounds left off (ground arith) in
      let inside : off / bsize < len = omega (arith, b, pos, le) in
      let (d', e, w', s, c) =
        write_from_lem fuel (left - piece left off) (off + piece left off) (src + piece left off)
          len ip (piece_written ip d mem len off (piece left off) src w inside fit) mem
          (omega (arith, h, pos, le)) (omega (arith, b, le))
          (piece_written-IsWhole ip d mem len off (piece left off) src w inside fit) in
      (
        d',
        rw (more, bmap_mapped (off / bsize) ip d (w.mapped (off / bsize) inside)) e,
        w',
        (λ b. s b ∙ stays ip d mem len off (piece left off) src w inside fit b),
        λ o i.
            c o i
            ∙ (copy_same (off + piece left off) (src + piece left off) (left - piece left off) o mem
                  (file_byte ip (piece_written ip d mem len off (piece left off) src w inside fit))
                  (copy_bytes off mem src (piece left off) (file_byte ip d))
                  (piece_bytes ip d mem len off (piece left off) src w inside fit o i)
                ∙ copy_pieces mem mem (file_byte ip d) src src left off (piece left off) o le
                    (λ j z. refl)),
      )
]
