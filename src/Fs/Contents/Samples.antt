-- ===== src/Fs/Contents/Samples.antt =====
-- Two small files.
use cs_577_p.Base.{ℕ, zero, suc, ◌<◌, ◌^◌, ◌∷◌, inl, inr, refl, arith, get_or, replicate}
use cs_577_p.Fs.Icache.{Dinode}
use cs_577_p.Fs.Blocks.{readsb}
use cs_577_p.Fs.Blocks.Samples.{ten_used, above_map}
use cs_577_p.Fs.Contents.{addr_at}
use cs_577_p.Fs.Contents.Inodes.{IsDinode}
use cs_577_p.Fs.Contents.Trunc.{Freeable}
use cs_577_p.Fs.Contents.Emptied.{owned}

abbrev pub two_blocks : Dinode
two_blocks = record {
  kind = 2;
  major = 0;
  minor = 0;
  nlink = 1;
  size = 600;
  addrs = 20 ∷ 21 ∷ replicate 11 0;
}

no_more : (n i : ℕ) → get_or (replicate n 0) i 0 < 2 ^ 32
no_more zero i = omega arith
no_more (suc n) zero = omega arith
no_more (suc n) (suc i) = no_more n i

pub two_blocks-IsDinode : IsDinode two_blocks
two_blocks-IsDinode = record {
  short_kind = omega arith;
  short_major = omega arith;
  short_minor = omega arith;
  short_nlink = omega arith;
  word_size = omega arith;
  thirteen = refl;
  word_addrs = low;
}
  where
    low : (i : ℕ) → addr_at two_blocks i < 2 ^ 32
    low zero = omega arith
    low (suc zero) = omega arith
    low (suc (suc i)) = no_more 11 i

-- A file in blocks 8 and 9 of the sample disk.
abbrev pub old_file : Dinode
old_file = record two_blocks { nlink = 0; addrs = 8 ∷ 9 ∷ replicate 11 0 }

pub old_file-Freeable : Freeable ten_used (owned old_file ten_used)
unfolding readsb
old_file-Freeable = (
  inr (omega arith, above_map 8 (omega arith) (omega arith), refl, refl),
  (
    inr (omega arith, above_map 9 (omega arith) (omega arith), refl, refl),
    (
      inl refl,
      (
        inl refl,
        (
          inl refl,
          (inl refl, (inl refl, (inl refl, (inl refl, (inl refl, (inl refl, (inl refl, tt))))))),
        ),
      ),
    ),
  ),
)

pub old_file-IsDinode : IsDinode old_file
old_file-IsDinode = record {
  short_kind = omega arith;
  short_major = omega arith;
  short_minor = omega arith;
  short_nlink = omega arith;
  word_size = omega arith;
  thirteen = refl;
  word_addrs = low;
}
  where
    low : (i : ℕ) → addr_at old_file i < 2 ^ 32
    low zero = omega arith
    low (suc zero) = omega arith
    low (suc (suc i)) = no_more 11 i
