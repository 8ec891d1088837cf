-- ===== src/Fs/Put/Tests.antt =====
-- The last reference to a file without links, in blocks 8 and 9 of the sample disk.
use cs_577_p.Base.{ℕ, ◌<◌, true, not, ◌&&◌, [], ◌∷◌, modify, ok, ◌≡◌, ◌≢◌, refl, arith}
use cs_577_p.Spinlock.{unlocked}
use cs_577_p.Spinlock.Laws.{IsNested}
use cs_577_p.Kalloc.Pages.{calm}
use cs_577_p.Mutex.Invariant.{elem}
use cs_577_p.Proc.Samples.{cpu_zero}
use cs_577_p.Fs.Icache.{Icache, blank}
use cs_577_p.Fs.Blocks.{Disk, readsb}
use cs_577_p.Fs.Blocks.Bitmap.{in_use}
use cs_577_p.Fs.Blocks.Samples.{ten_used, ten_used-IsDisk}
use cs_577_p.Fs.Contents.Samples.{old_file, old_file-Freeable, old_file-IsDinode}
use cs_577_p.Fs.Contents.Emptied.{owned}
use cs_577_p.Fs.Contents.Inodes.{read_dinode}
use cs_577_p.Fs.Put.{drop_ref, emptied, iput}
use cs_577_p.Fs.Put.Last.{gone, iput_last}

abbrev unlinked : Icache
unlinked = record {
  lock = unlocked;
  inodes = record blank { dev = 1; inum = 3; ref = 1; valid = true; copy = old_file } ∷ [];
}

cpu_zero-IsNested : IsNested cpu_zero
cpu_zero-IsNested h = absurd (omega (arith, h))

iput_last_example :
    (d' : Disk) × (iput 0 unlinked cpu_zero ten_used
      ≡ ok (
        record {
          lock = unlocked;
          inodes = modify (modify unlinked.inodes 0 (emptied (gone old_file))) 0 drop_ref;
        },
        calm (calm cpu_zero),
        d',
      ))
    × (read_dinode 3 d' ≡ gone old_file)
    × ((b : ℕ)
        → b ≢ 0
        → b < (readsb ten_used).size
        → in_use (readsb ten_used).ninodes d' b
          ≡ (in_use (readsb ten_used).ninodes ten_used b && not (elem b (owned old_file ten_used))))
unfolding readsb
iput_last_example =
    iput_last 0 unlinked cpu_zero ten_used cpu_zero-IsNested refl refl refl ten_used-IsDisk
      old_file-IsDinode (omega arith) old_file-Freeable
