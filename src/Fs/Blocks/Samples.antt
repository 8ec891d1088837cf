-- ===== src/Fs/Blocks/Samples.antt =====
-- A disk of 600 blocks, of which the first ten are in use.
use cs_577_p.Base.{ℕ, ◌<◌, ◌&&◌, arith, ◌==◌, if◌then◌else◌}
use cs_577_p.Fs.Blocks.{Disk, readsb}
use cs_577_p.Fs.Blocks.Bitmap.{IsDisk}
use cs_577_p.Fs.Blocks.Free.{IsData}

-- The super block says 600 blocks and 8 inodes, so block 4 is the map.
abbrev pub ten_used : Disk
ten_used b p =
    if (b == 1) && (p == 0)
    then 88
    else if (b == 1) && (p == 1)
    then 2
    else if (b == 1) && (p == 8)
    then 8
    else if (b == 4) && (p == 0)
    then 255
    else if (b == 4) && (p == 1)
    then 3
    else if b == 9
    then 7
    else 0

pub ten_used-IsDisk : IsDisk ten_used
ten_used-IsDisk b o = ground arith

pub above_map : (b : ℕ) → 4 < b → b < 600 → IsData ten_used b
unfolding readsb
above_map b h h' = record {
  on_disk = h';
  no_super = omega (arith, h);
  no_map = λ x l. omega (arith, h, l);
}
