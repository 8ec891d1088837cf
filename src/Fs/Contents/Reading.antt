-- ===== src/Fs/Contents/Reading.antt =====
-- readi: the loop over the blocks copies the bytes of the file.
use cs_577_p.Base.{
  ℕ, zero, suc, ◌+◌, ◌-◌, ◌/◌, ◌%◌, ◌^◌, ◌<◌, ◌≤◌, false, ◌||◌, ◌≡◌, ◌≢◌, ◌⊎◌, refl, sym, ap, ◌∙◌,
  arith, ◌==◌, ltb, if◌then◌else◌, inl, inr, Bool-cases, Outcome, ok, Option, none, some,
}
use cs_577_p.Fs.Icache.{Dinode}
use cs_577_p.Fs.Blocks.{Disk, bsize}
use cs_577_p.Fs.Contents.{Mem, copy_bytes, piece, read_from, readi, t_dev}
use cs_577_p.Fs.Contents.Copies.{copy_none, copy_pieces}
use cs_577_p.Fs.Contents.Mapped.{block_of, IsMapped, bmap_mapped, file_byte}

pub piece_bounds :
    (left off : ℕ)
    → 0 < left
    → (0 < piece left off) × (piece left off ≤ left) × (off % bsize + piece left off ≤ bsize)
piece_bounds left off h = (omega (arith, h), omega (arith, h), omega (arith, h))

-- The bytes of one block are those of the file.
in_block :
    (ip : Dinode) (d : Disk) (off m i : ℕ)
    → off % bsize + m ≤ bsize
    → i < m
    → d (block_of ip d (off / bsize)) (off % bsize + i) ≡ file_byte ip d (off + i)
in_block ip d off m i h h' =
    let x : off / bsize ≡ (off + i) / bsize = omega (arith, h, h') in
    let y : off % bsize + i ≡ (off + i) % bsize = omega (arith, h, h') in
    ap (λ b. d (block_of ip d b) (off % bsize + i)) x ∙ ap (d (block_of ip d ((off + i) / bsize))) y

-- The loop, on blocks that the file has.
pub read_from_lem :
    (fuel left off dst : ℕ) (ip : Dinode) (d : Disk) (mem : Mem)
    → left ≤ fuel
    → ((o : ℕ) → off ≤ o → o < off + left → IsMapped ip d (o / bsize))
    → (mem' : Mem) × (read_from fuel left off dst ip d mem
        ≡ ok (record { result = none; inode = ip; disk = d; mem = mem' }))
      × ((a : ℕ) → mem' a ≡ copy_bytes dst (file_byte ip d) off left mem a)
unfolding read_from
read_from_lem zero left off dst ip d mem h m =
    (mem, refl, λ a. sym (copy_none dst (file_byte ip d) off left mem a (omega (arith, h))))
read_from_lem (suc fuel) left off dst ip d mem h m = elim (Bool-cases (left == 0)) [
  | inl none_left ↦ (
    mem,
    rw none_left refl,
    λ a. sym (copy_none dst (file_byte ip d) off left mem a (ground arith)),
  )
  | inr more ↦
      let (pos, le, fit) = piece_bounds left off (ground arith) in
      let (mem', e, c) =
        read_from_lem fuel (left - piece left off) (off + piece left off) (dst + piece left off) ip
          d (copy_bytes dst (d (block_of ip d (off / bsize))) (off % bsize) (piece left off) mem)
          (omega (arith, h, pos, le))
          (λ o a a'. m o (omega (arith, a)) (omega (arith, a, a', le))) in
      (
        mem',
        rw (more, bmap_mapped (off / bsize) ip d (m off (omega arith) (ground arith))) e,
        λ a.
            c a
            ∙ copy_pieces (d (block_of ip d (off / bsize))) (file_byte ip d) mem (off % bsize) off
                left dst (piece left off) a le (λ i z. in_block ip d off (piece left off) i fit z),
      )
]

-- The number of bytes from `off` on that readi gives, of the `n` that are asked for.
abbrev pub read_count : Dinode → ℕ → ℕ → ℕ
read_count ip off n = if ltb ip.size (off + n) then ip.size - off else n

module _ (devices : ℕ → Option (ℕ → ℕ → Mem → Outcome (Option ℕ × Mem))) (ip : Dinode)
    (dst off n : ℕ) (d : Disk) (mem : Mem) (no_device : ip.kind ≢ t_dev) where
  -- From a file that is no device and has all its blocks, at an offset not past its end and where offset
  -- and count do not overflow, readi returns the count, cut off at the end of the file; the memory from
  -- `dst` on has the bytes of the file from the offset on, and otherwise is as before, like the file.
  pub readi_lem :
      off ≤ ip.size
      → off + n < 2 ^ 32
      → ((o : ℕ) → o < ip.size → IsMapped ip d (o / bsize))
      → (mem' : Mem) × (readi devices ip dst off n d mem
          ≡ ok (record { result = some (read_count ip off n); inode = ip; disk = d; mem = mem' }))
        × ((a : ℕ) → mem' a ≡ copy_bytes dst (file_byte ip d) off (read_count ip off n) mem a)
  unfolding readi
  readi_lem h f m =
      let (mem', e, c) =
        read_from_lem (read_count ip off n) (read_count ip off n) off dst ip d mem (omega arith)
          (λ o a a'. m o (ground (arith, a', h))) in
      (mem', passed mem' e, c)
    where
      passed :
          (mem' : Mem)
          → read_from (read_count ip off n) (read_count ip off n) off dst ip d mem
            ≡ ok (record { result = none; inode = ip; disk = d; mem = mem' })
          → readi devices ip dst off n d mem
            ≡ ok (record { result = some (read_count ip off n); inode = ip; disk = d; mem = mem' })
      passed mem' e =
          let t : (ip.kind == t_dev) ≡ false = ground arith in
          let g : (ltb ip.size off || ltb ((off + n) % 2 ^ 32) off) ≡ false =
            ground (arith, h, f) in
          rw (t, g, e) refl

  -- At an offset past the end, or where offset and count overflow, readi returns -1 and changes nothing.
  pub readi_outside :
      off < 2 ^ 32
      → n < 2 ^ 32
      → (ip.size < off) ⊎ (2 ^ 32 ≤ off + n)
      → readi devices ip dst off n d mem
        ≡ ok (record { result = none; inode = ip; disk = d; mem = mem })
  unfolding readi
  readi_outside h h' (inl c) = ground (arith, no_device)
  readi_outside h h' (inr c) =
      let wrapped : (off + n) % 2 ^ 32 < off = omega (arith, h, h', c) in
      ground (arith, no_device, wrapped)
