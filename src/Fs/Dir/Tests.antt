-- ===== src/Fs/Dir/Tests.antt =====
-- A directory of one block with an entry for the name `a`.
use cs_577_p.Base.{
  ℕ, zero, suc, false, ◌∷◌, ◌&&◌, ◌≡◌, ◌⊎◌, none, ok, refl, arith, replicate, if◌then◌else◌, ◌==◌,
}
use cs_577_p.Fs.Icache.{Dinode}
use cs_577_p.Fs.Blocks.{Disk}
use cs_577_p.Fs.Dir.{find_entry}
use cs_577_p.Fs.Dir.Lookup.{IsDir, InDir, has_name, entry_at, FirstNamed, find_entry_lem}

abbrev small_dir : Dinode
small_dir = record {
  kind = 1;
  major = 0;
  minor = 0;
  nlink = 1;
  size = 32;
  addrs = 20 ∷ replicate 12 0;
}

-- The second entry is inode 5 with the name `a`.
abbrev with_a : Disk
with_a b p = if (b == 20) && (p == 16) then 5 else if (b == 20) && (p == 18) then b'a' else 0

abbrev a_name : ℕ → ℕ
a_name p = if p == 0 then b'a' else 0

small_dir-IsDir : IsDir small_dir with_a
small_dir-IsDir zero h = record {
  in_range = omega arith;
  there = ground arith;
  has_indirect = λ l. absurd (omega (arith, l));
}
small_dir-IsDir (suc b) h = absurd (omega (arith, h))

find_entry_lem_example :
    ((e : ℕ) × (find_entry a_name small_dir with_a ≡ ok (entry_at small_dir with_a e))
      × FirstNamed a_name small_dir with_a 0 e)
    ⊎ ((find_entry a_name small_dir with_a
          ≡ ok (record { entry = none; inode = small_dir; disk = with_a }))
        × ((x : ℕ) → InDir small_dir x → has_name a_name small_dir with_a x ≡ false))
find_entry_lem_example = find_entry_lem a_name small_dir with_a refl small_dir-IsDir
