-- ===== src/Fs/Blocks/Free.antt =====
-- What balloc and bfree do to the set of the blocks in use.
use cs_577_p.Base.{
  Bool, ℕ, ◌+◌, ◌-◌, ◌/◌, ◌%◌, ◌^◌, ◌<◌, true, false, not, ◌&&◌, ◌≡◌, ◌≢◌, ◌⊎◌, refl, sym, ap, ◌∙◌,
  arith, ◌==◌, ltb, if◌then◌else◌, inl, inr, Bool-cases, Outcome, ok, panic,
}
use mathlib.Core.Path.{subst, fun_ext}
use cs_577_p.Fs.Blocks.{
  Disk, readsb, bzero, bpb, bsize, bblock, word, write_byte, is_clear, clear_bit, balloc, bfree,
}
use cs_577_p.Fs.Blocks.Bits.{has_bit}
use cs_577_p.Fs.Blocks.Bitmap.{in_use, IsDisk, mark, unmark, in_use-mark, in_use-unmark}
use cs_577_p.Fs.Blocks.Alloc.{FirstFree, AllUsed, balloc_from_cases}

-- A write to another block.
other_block : (bno o v c : ℕ) (d : Disk) → bno ≢ c → (p : ℕ) → write_byte bno o v d c p ≡ d c p
other_block bno o v c d h p = ground arith

pub self : (x : ℕ) → (x == x) ≡ true
self x = ground arith

readsb-same : (d d' : Disk) → ((p : ℕ) → d' 1 p ≡ d 1 p) → readsb d' ≡ readsb d
unfolding readsb
readsb-same d d' e =
    ap (λ x. record { size = word x 0; nblocks = word x 4; ninodes = word x 8 }) (fun_ext e)

-- The disk after balloc has taken `r`.
pub record Allocated (d d' : Disk) (r : ℕ) : Type 0 where
  pub first : FirstFree (readsb d) d 0 r
  pub is_disk : IsDisk d'
  pub only :
      (a : ℕ)
      → in_use (readsb d).ninodes d' a ≡ (if r == a then true else in_use (readsb d).ninodes d a)
  pub same_super : readsb d' ≡ readsb d
  pub same_blocks : (c : ℕ) → bblock r (readsb d).ninodes ≢ c → (p : ℕ) → d' c p ≡ d c p

-- balloc returns the first block that the map has as free; that block is in use afterwards, every other
-- block is as before, and nothing is written but one block of the map. It panics if the map has no free
-- block, and only then.
pub balloc_lem :
    (d : Disk)
    → IsDisk d
    → ((r : ℕ) × (d' : Disk) × (balloc d ≡ ok (r, d')) × Allocated d d' r)
      ⊎ ((balloc d ≡ panic) × AllUsed (readsb d) d 0)
unfolding balloc
balloc_lem d all =
    elim (balloc_from_cases ((readsb d).size / bpb + 1) 0 (readsb d) d refl (omega arith)) [
      | inr (e, u) ↦ inr (e, u)
      | inl (r, e, f) ↦
          let (below, only) = in_use-mark (readsb d).ninodes r d all f.was_free in
          inl (
            r,
            mark (readsb d).ninodes r d,
            e,
            record {
              first = f;
              is_disk = below;
              only = only;
              same_super = readsb-same d (mark (readsb d).ninodes r d) (λ p. off_map r p);
              same_blocks = λ c ne p.
                  other_block (bblock r (readsb d).ninodes) (r % bpb / 8)
                    (d (bblock r (readsb d).ninodes) (r % bpb / 8) + 2 ^ (r % bpb % 8)) c d ne p;
            },
          )
    ]
  where
    off_map : (r p : ℕ) → mark (readsb d).ninodes r d 1 p ≡ d 1 p
    off_map r p =
        other_block (bblock r (readsb d).ninodes) (r % bpb / 8)
          (d (bblock r (readsb d).ninodes) (r % bpb / 8) + 2 ^ (r % bpb % 8)) 1 d (omega arith) p

-- A block of data: inside the disk, and neither the super block nor in the map.
pub record IsData (d : Disk) (b : ℕ) : Type 0 where
  pub on_disk : b < (readsb d).size
  pub no_super : b ≢ 1
  pub no_map : (x : ℕ) → x < (readsb d).size → b ≢ bblock x (readsb d).ninodes

module _ (d : Disk) (b : ℕ) (all : IsDisk d) (data_block : IsData d b) where
  zeroed-IsDisk : IsDisk (bzero b d)
  unfolding bzero
  zeroed-IsDisk c o = elim (Bool-cases ((b == c) && ltb o bsize)) [
    | inl e ↦ subst (λ x. (if x then 0 else d c o) < 256) (sym e) (omega arith)
    | inr e ↦ subst (λ x. (if x then 0 else d c o) < 256) (sym e) (all c o)
  ]

  zeroed_same : (c p : ℕ) → b ≢ c → bzero b d c p ≡ d c p
  unfolding bzero
  zeroed_same c p h = ground arith

  now_zero : (o : ℕ) → o < bsize → bzero b d b o ≡ 0
  unfolding bzero
  now_zero o h = ground arith

  same_super : readsb (bzero b d) ≡ readsb d
  same_super = readsb-same d (bzero b d) (λ p. zeroed_same 1 p data_block.no_super)

  in_use-zeroed :
      (x : ℕ)
      → x < (readsb d).size
      → in_use (readsb d).ninodes (bzero b d) x ≡ in_use (readsb d).ninodes d x
  in_use-zeroed x h =
      ap (λ y. has_bit y (x % bpb % 8))
        (zeroed_same (bblock x (readsb d).ninodes) (x % bpb / 8) (data_block.no_map x h))

  -- bfree after its bzero, with `m` inodes.
  abbrev freed_with : ℕ → Outcome Disk
  freed_with m =
      if is_clear (bzero b d (bblock b m)) (b % bpb)
      then panic
      else ok (clear_bit (bblock b m) (b % bpb) (bzero b d))

  bfree_eq : bfree b d ≡ freed_with (readsb d).ninodes
  unfolding bfree
  bfree_eq = ap (λ s. freed_with s.ninodes) same_super

  -- The disk after bfree has given `b` back.
  pub record Freed (d' : Disk) : Type 0 where
    pub only :
        (a : ℕ)
        → a < (readsb d).size
        → in_use (readsb d).ninodes d' a ≡ (if b == a then false else in_use (readsb d).ninodes d a)
    pub is_disk : IsDisk d'
    pub zeroed : (o : ℕ) → o < bsize → d' b o ≡ 0
    pub super_kept : readsb d' ≡ readsb d
    pub same_blocks : (c : ℕ) → b ≢ c → bblock b (readsb d).ninodes ≢ c → (p : ℕ) → d' c p ≡ d c p

  -- Of a data block in use, bfree makes a free block of zeros, and changes nothing else but the block of the
  -- map. A free block makes it panic.
  pub bfree_lem :
      ((in_use (readsb d).ninodes d b ≡ true) × (d' : Disk) × (bfree b d ≡ ok d') × Freed d')
      ⊎ ((in_use (readsb d).ninodes d b ≡ false) × (bfree b d ≡ panic))
  bfree_lem = elim (Bool-cases (is_clear (bzero b d (bblock b (readsb d).ninodes)) (b % bpb))) [
    | inl free ↦ inr (
      sym (in_use-zeroed b data_block.on_disk) ∙ ap not free,
      bfree_eq ∙ ap (λ x. if x then panic else ok (unmark (readsb d).ninodes b (bzero b d))) free,
    )
    | inr used ↦ inl (
      sym (in_use-zeroed b data_block.on_disk) ∙ ap not used,
      unmark (readsb d).ninodes b (bzero b d),
      bfree_eq ∙ ap (λ x. if x then panic else ok (unmark (readsb d).ninodes b (bzero b d))) used,
      record {
        only = λ a h.
            in_use-unmark (readsb d).ninodes b (bzero b d) zeroed-IsDisk (ap not used) a
            ∙ ap (λ x. if b == a then false else x) (in_use-zeroed a h);
        is_disk = λ c o. still_byte c o;
        zeroed =
            λ o h. in_map b (λ z. data_block.no_map b data_block.on_disk (sym z)) o ∙ now_zero o h;
        super_kept =
            readsb-same (bzero b d) (unmark (readsb d).ninodes b (bzero b d))
              (λ p. in_map 1 (omega arith) p)
            ∙ same_super;
        same_blocks = λ c ne ne' p. in_map c ne' p ∙ zeroed_same c p ne;
      },
    )
  ]
    where
      still_byte : (c o : ℕ) → unmark (readsb d).ninodes b (bzero b d) c o < 256
      still_byte c o =
          below (2 ^ (b % bpb % 8)) ((bblock b (readsb d).ninodes == c) && (b % bpb / 8 == o))
            (zeroed-IsDisk (bblock b (readsb d).ninodes) (b % bpb / 8)) (zeroed-IsDisk c o)
        where
          below :
              {v w : ℕ} (x : ℕ) (test : Bool)
              → v < 256
              → w < 256
              → (if test then v - x else w) < 256
          below x true h h' = omega (arith, h)
          below x false h h' = h'

      in_map :
          (c : ℕ)
          → bblock b (readsb d).ninodes ≢ c
          → (p : ℕ) → unmark (readsb d).ninodes b (bzero b d) c p ≡ bzero b d c p
      in_map c h p =
          other_block (bblock b (readsb d).ninodes) (b % bpb / 8)
            (bzero b d (bblock b (readsb d).ninodes) (b % bpb / 8) - 2 ^ (b % bpb % 8)) c
            (bzero b d) h p
