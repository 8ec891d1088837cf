-- ===== src/Fs/Blocks/Tests.antt =====
-- Runs on the sample disk.
use cs_577_p.Base.{ℕ, true, false, ◌≡◌, ◌⊎◌, refl, arith, ok, panic}
use cs_577_p.Fs.Blocks.{Disk, readsb, balloc_from, balloc, bfree, first_clear}
use cs_577_p.Fs.Blocks.Bitmap.{in_use, mark}
use cs_577_p.Fs.Blocks.Alloc.{AllUsed}
use cs_577_p.Fs.Blocks.Samples.{ten_used, ten_used-IsDisk, above_map}
use cs_577_p.Fs.Blocks.Free.{Allocated, balloc_lem, IsData, Freed, bfree_lem}

ten_used-size : (readsb ten_used).size ≡ 600
unfolding readsb
ten_used-size = refl

ten_used-ninodes : (readsb ten_used).ninodes ≡ 8
unfolding readsb
ten_used-ninodes = refl

balloc_lem_example :
    ((r : ℕ) × (d' : Disk) × (balloc ten_used ≡ ok (r, d')) × Allocated ten_used d' r)
    ⊎ ((balloc ten_used ≡ panic) × AllUsed (readsb ten_used) ten_used 0)
balloc_lem_example = balloc_lem ten_used ten_used-IsDisk

nine-IsData : IsData ten_used 9
nine-IsData = above_map 9 (omega arith) (omega arith)

bfree_lem_example :
    ((in_use (readsb ten_used).ninodes ten_used 9 ≡ true)
      × (d' : Disk) × (bfree 9 ten_used ≡ ok d')
      × Freed ten_used 9 ten_used-IsDisk nine-IsData d')
    ⊎ ((in_use (readsb ten_used).ninodes ten_used 9 ≡ false) × (bfree 9 ten_used ≡ panic))
bfree_lem_example = bfree_lem ten_used 9 ten_used-IsDisk nine-IsData

ten_taken : balloc ten_used ≡ ok (10, mark 8 10 ten_used)
unfolding balloc balloc_from readsb first_clear
ten_taken = refl
