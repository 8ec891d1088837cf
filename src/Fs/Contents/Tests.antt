-- ===== src/Fs/Contents/Tests.antt =====
-- A file of two blocks and 600 bytes on a disk of zeros.
use cs_577_p.Base.{
  false, true, get_or, [], ◌∷◌, ℕ, zero, suc, ◌+◌, ◌<◌, ◌≡◌, ◌≢◌, refl, arith, Option, none, some,
  Outcome, ok, ◌/◌, ◌%◌,
}
use cs_577_p.Fs.Blocks.{Disk, bsize}
use cs_577_p.Fs.Contents.{Mem, readi, writei, copy_bytes, iupdate}
use cs_577_p.Fs.Contents.Samples.{two_blocks, two_blocks-IsDinode}
use cs_577_p.Fs.Contents.Mapped.{block_of, IsMapped, file_byte}
use cs_577_p.Fs.Contents.Reading.{readi_lem, read_count}
use cs_577_p.Fs.Contents.Reload.{ilock_disk, ilock-iupdate}
use cs_577_p.Fs.Icache.{Icache, blank, got}
use cs_577_p.Spinlock.{Cpu, unlocked}
use cs_577_p.Fs.Contents.Files.{IsFile, sized, writei_lem, readi-writei}

abbrev zeros : Disk
zeros b p = 0

abbrev counting : Mem
counting a = a % 256

abbrev no_reader : ℕ → Option (ℕ → ℕ → Mem → Outcome (Option ℕ × Mem))
no_reader m = none

abbrev no_writer : ℕ → Option (ℕ → ℕ → Mem → Outcome (Option ℕ))
no_writer m = none

both-IsMapped : (b : ℕ) → b < 2 → IsMapped two_blocks zeros b
both-IsMapped zero h = record {
  in_range = omega arith;
  there = ground arith;
  has_indirect = λ l. absurd (omega (arith, l));
}
both-IsMapped (suc zero) h = record {
  in_range = omega arith;
  there = ground arith;
  has_indirect = λ l. absurd (omega (arith, l));
}
both-IsMapped (suc (suc b)) h = absurd (omega (arith, h))

both_apart :
    (b c : ℕ) → b < 2 → c < 2 → block_of two_blocks zeros b ≡ block_of two_blocks zeros c → b ≡ c
both_apart zero zero h h' e = refl
both_apart zero (suc zero) h h' e = absurd (ground arith)
both_apart (suc zero) zero h h' e = absurd (ground arith)
both_apart (suc zero) (suc zero) h h' e = refl
both_apart zero (suc (suc c)) h h' e = absurd (omega (arith, h'))
both_apart (suc zero) (suc (suc c)) h h' e = absurd (omega (arith, h'))
both_apart (suc (suc b)) c h h' e = absurd (omega (arith, h))

not_block : (x : ℕ) → x ≢ 20 → x ≢ 21 → (b : ℕ) → b < 2 → x ≢ block_of two_blocks zeros b
not_block x h h' zero l = h
not_block x h h' (suc zero) l = h'
not_block x h h' (suc (suc b)) l = absurd (omega (arith, l))

two_blocks-IsFile : IsFile 3 two_blocks zeros 2
two_blocks-IsFile = record {
  no_device = ground arith;
  whole = record {
    mapped = both-IsMapped;
    apart = both_apart;
    off_indirect = λ b h e. not_block 0 (ground arith) (ground arith) b h (ground arith);
  };
  off_inode = not_block 2 (ground arith) (ground arith);
  inode_off_indirect = ground arith;
  small = omega arith;
  holds = omega arith;
}

readi_lem_example :
    (mem' : Mem) × (readi no_reader two_blocks 5000 500 300 zeros counting
      ≡ ok (record {
        result = some (read_count two_blocks 500 300);
        inode = two_blocks;
        disk = zeros;
        mem = mem';
      }))
    × ((a : ℕ)
        → mem' a
          ≡ copy_bytes 5000
              (file_byte two_blocks zeros)
              500
              (read_count two_blocks 500 300)
              counting
              a)
readi_lem_example =
    readi_lem no_reader two_blocks 5000 500 300 zeros counting two_blocks-IsFile.no_device
      (omega arith) (omega arith) (λ o h. both-IsMapped (o / bsize) (omega (arith, h)))

writei_lem_example :
    (d' : Disk) × (writei no_writer 3 two_blocks 7000 500 300 zeros counting
      ≡ ok (record {
        result = some 300;
        inode = sized two_blocks 500 300;
        disk = d';
        mem = counting;
      }))
    × IsFile 3 (sized two_blocks 500 300) d' 2
    × ((o : ℕ)
        → o / bsize < 2
        → file_byte two_blocks d' o
          ≡ copy_bytes 500 counting 7000 300 (file_byte two_blocks zeros) o)
writei_lem_example =
    writei_lem no_writer 3 two_blocks 7000 500 300 zeros counting 2 two_blocks-IsFile (omega arith)
      (omega arith)

readi-writei_example :
    (d' : Disk) × (mem' : Mem) × (writei no_writer 3 two_blocks 7000 500 300 zeros counting
      ≡ ok (record {
        result = some 300;
        inode = sized two_blocks 500 300;
        disk = d';
        mem = counting;
      }))
    × (readi no_reader (sized two_blocks 500 300) 9000 500 300 d' counting
        ≡ ok
            (record { result = some 300; inode = sized two_blocks 500 300; disk = d'; mem = mem' }))
    × ((i : ℕ) → i < 300 → mem' (9000 + i) ≡ counting (7000 + i))
readi-writei_example =
    readi-writei no_writer 3 two_blocks 7000 500 300 zeros counting 2 no_reader 9000 counting
      two_blocks-IsFile (omega arith) (omega arith)

abbrev one_inode : Icache
one_inode = record { lock = unlocked; inodes = record blank { dev = 1; inum = 3; ref = 1 } ∷ [] }

abbrev cpu_zero : Cpu
cpu_zero = record { id = 0; ncli = 0; intena = false; flag_if = true }

ilock-iupdate_example :
    (k' : Icache) × (c' : Cpu) × (ilock_disk (iupdate 3 two_blocks zeros) 0 one_inode cpu_zero
      ≡ ok (got k' c'))
    × (get_or k'.inodes 0 blank
        ≡ record (get_or one_inode.inodes 0 blank) { busy = true; valid = true; copy = two_blocks })
ilock-iupdate_example =
    ilock-iupdate two_blocks zeros 0 one_inode cpu_zero two_blocks-IsDinode (ground arith)
      (λ h. absurd (omega (arith, h))) refl (omega arith) (omega arith) refl refl
