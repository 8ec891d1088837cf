-- ===== src/Fs/Contents.antt =====
-- The contents of files in kernel/fs.c: bmap, itrunc, readi and writei, on an inode that the caller has
-- locked. The devices are a parameter, by their major number.
pub mod Copies
pub mod Mapped
pub mod Reading
pub mod Inodes
pub mod Reload
pub mod Writing
pub mod Files
pub mod Trunc
pub mod Emptied
pub mod Samples
mod Tests
use cs_577_p.Base.{
  [], ◌∷◌, map, take, ℕ, zero, suc, ◌+◌, ◌-◌, ◌*◌, ◌/◌, ◌%◌, ◌^◌, Bool, ◌&&◌, ◌||◌, not, Option,
  none, some, List, modify, get_or, Outcome, ok, panic, ◌>>=◌, if◌then◌else◌, ◌==◌, ltb, leb, min,
}
use cs_577_p.Fs.Icache.{Dinode}
use cs_577_p.Fs.Blocks.{Disk, bsize, ipb, word, balloc, bfree}

abbrev pub ndirect : ℕ
ndirect = 12

abbrev pub nindirect : ℕ
nindirect = 128

abbrev pub maxfile : ℕ
maxfile = 140

abbrev pub t_dev : ℕ
t_dev = 3

abbrev pub ndev : ℕ
ndev = 10

abbrev pub addr_at : Dinode → ℕ → ℕ
addr_at ip i = get_or ip.addrs i 0

abbrev pub set_addr : ℕ → ℕ → Dinode → Dinode
set_addr i a ip = record ip { addrs = modify ip.addrs i (λ _. a) }

-- A block with one word changed.
abbrev pub set_word : ℕ → ℕ → (ℕ → ℕ) → ℕ → ℕ
set_word i v bytes p =
    if (4 * i) == p
    then v % 2 ^ 8
    else if (4 * i + 1) == p
    then v / 2 ^ 8 % 2 ^ 8
    else if (4 * i + 2) == p
    then v / 2 ^ 16 % 2 ^ 8
    else if (4 * i + 3) == p
    then v / 2 ^ 24 % 2 ^ 8
    else bytes p

abbrev pub write_block : ℕ → (ℕ → ℕ) → Disk → Disk
write_block bno bytes d b p = if bno == b then bytes p else d b p

-- A block's number with the inode and the disk after.
pub record Found : Type 0 where
  pub addr : ℕ
  pub inode : Dinode
  pub disk : Disk

-- `if((addr = ip->addrs[i]) == 0) ip->addrs[i] = addr = balloc(ip->dev)`
unfoldable pub own_addr : ℕ → Dinode → Disk → Outcome Found
own_addr i ip d =
    if addr_at ip i == 0
    then balloc d >>= (λ r. ok (record { addr = r.0; inode = set_addr i r.0 ip; disk = r.1 }))
    else ok (record { addr = addr_at ip i; inode = ip; disk = d })

-- The word of the indirect block, which is written after balloc as it was read before it.
unfoldable pub indirect_addr : ℕ → Found → Outcome Found
indirect_addr i f =
    let bytes = f.disk f.addr in
    if word bytes (4 * i) == 0
    then balloc f.disk >>= (λ r. ok (record {
      addr = r.0;
      inode = f.inode;
      disk = write_block f.addr (set_word i r.0 bytes) r.1;
    }))
    else ok (record f { addr = word bytes (4 * i) })

unfoldable pub bmap : ℕ → Dinode → Disk → Outcome Found
unfolding own_addr indirect_addr
bmap bn ip d =
    if ltb bn ndirect
    then own_addr bn ip d
    else if ltb (bn - ndirect) nindirect
    then own_addr ndirect ip d >>= indirect_addr (bn - ndirect)
    else panic

-- The memory that the data goes to, or comes from.
abbrev pub Mem : Type 0
Mem = ℕ → ℕ

-- memmove of `n` bytes between a block and the memory.
abbrev pub copy_bytes : ℕ → (ℕ → ℕ) → ℕ → ℕ → (ℕ → ℕ) → ℕ → ℕ
copy_bytes to source from n target a =
    if leb to a && ltb a (to + n) then source (from + (a - to)) else target a

-- What readi leaves: -1 or a count, the inode, the disk and the memory.
pub record Transfer : Type 0 where
  pub result : Option ℕ
  pub inode : Dinode
  pub disk : Disk
  pub mem : Mem

-- The length of the next piece, with `left` bytes to go.
abbrev pub piece : ℕ → ℕ → ℕ
piece left off = min left (bsize - off % bsize)

-- The loop of readi, for `left` = n - tot, with fuel for a round for each byte.
unfoldable pub read_from : ℕ → ℕ → ℕ → ℕ → Dinode → Disk → Mem → Outcome Transfer
unfolding bmap
read_from zero left off dst ip d mem =
    ok (record { result = none; inode = ip; disk = d; mem = mem })
read_from (suc fuel) left off dst ip d mem =
    if left == 0 then ok (record { result = none; inode = ip; disk = d; mem = mem }) else do
      f ← bmap (off / bsize) ip d
      let m = piece left off
      read_from fuel (left - m) (off + m) (dst + m) f.inode f.disk
          (copy_bytes dst (f.disk f.addr) (off % bsize) m mem)

module _ (devices : ℕ → Option (ℕ → ℕ → Mem → Outcome (Option ℕ × Mem))) where
  -- A device's function, on `dst` and `n`.
  unfoldable pub device_read : Dinode → ℕ → ℕ → Disk → Mem → Outcome Transfer
  device_read ip dst n d mem =
      if not (ltb ip.major ndev)
      then ok (record { result = none; inode = ip; disk = d; mem = mem })
      else elim (devices ip.major) [
        | none ↦ ok (record { result = none; inode = ip; disk = d; mem = mem })
        | some f ↦
            f dst n mem >>= λ r. ok (record { result = r.0; inode = ip; disk = d; mem = r.1 })
      ]

  unfoldable pub readi : Dinode → ℕ → ℕ → ℕ → Disk → Mem → Outcome Transfer
  unfolding read_from device_read
  readi ip dst off n d mem =
      if ip.kind == t_dev
      then device_read ip dst n d mem
      else if ltb ip.size off || ltb ((off + n) % 2 ^ 32) off
      then ok (record { result = none; inode = ip; disk = d; mem = mem })
      else let k = if ltb ip.size (off + n) then ip.size - off else n in
        read_from k k off dst ip d mem >>= λ t. ok (record t { result = some k })

-- Byte `i` of a number, and byte `q` of a `struct dinode`.
abbrev pub byte_of : ℕ → ℕ → ℕ
byte_of v i = v / 2 ^ (8 * i) % 2 ^ 8

abbrev pub dinode_byte : Dinode → ℕ → ℕ
dinode_byte ip q =
    if ltb q 2
    then byte_of ip.kind q
    else if ltb q 4
    then byte_of ip.major (q - 2)
    else if ltb q 6
    then byte_of ip.minor (q - 4)
    else if ltb q 8
    then byte_of ip.nlink (q - 6)
    else if ltb q 12
    then byte_of ip.size (q - 8)
    else byte_of (addr_at ip ((q - 12) / 4)) ((q - 12) % 4)

abbrev pub dinode_size : ℕ
dinode_size = 64

-- IBLOCK
abbrev pub iblock : ℕ → ℕ
iblock inum = inum / ipb + 2

unfoldable pub iupdate : ℕ → Dinode → Disk → Disk
iupdate inum ip d =
    write_block (iblock inum)
      (copy_bytes (inum % ipb * dinode_size) (dinode_byte ip) 0 dinode_size (d (iblock inum))) d

-- `n` words of a block.
unfoldable pub words : ℕ → (ℕ → ℕ) → ℕ → List ℕ
words zero bytes o = []
words (suc n) bytes o = word bytes o ∷ words n bytes (o + 4)

-- The loops of itrunc: each block that is there is freed.
unfoldable pub free_each : List ℕ → Disk → Outcome Disk
free_each [] d = ok d
free_each (a ∷ addrs) d = (if a == 0 then ok d else bfree a d) >>= free_each addrs

abbrev pub no_addrs : Dinode → Dinode
no_addrs ip = record ip { addrs = map (λ _. 0) ip.addrs }

-- The indirect block of itrunc, which is read before its blocks are freed.
unfoldable pub free_indirect : ℕ → Disk → Outcome Disk
unfolding free_each words
free_indirect a d = if a == 0 then ok d else free_each (words nindirect (d a) 0) d >>= bfree a

unfoldable pub itrunc : ℕ → Dinode → Disk → Outcome (Dinode × Disk)
unfolding free_each free_indirect iupdate
itrunc inum ip d = do
  d1 ← free_each (take ndirect ip.addrs) d
  d2 ← free_indirect (addr_at ip ndirect) d1
  let empty : Dinode = record (no_addrs ip) { size = 0 }
  let result : Dinode × Disk = (empty, iupdate inum empty d2)
  ok result

-- The loop of writei, for `left` = n - tot, with fuel for a round for each byte.
unfoldable pub write_from : ℕ → ℕ → ℕ → ℕ → Dinode → Disk → Mem → Outcome (Dinode × Disk)
unfolding bmap
write_from zero left off src ip d mem = ok (ip, d)
write_from (suc fuel) left off src ip d mem = if left == 0 then ok (ip, d) else do
  f ← bmap (off / bsize) ip d
  let m = piece left off
  let bytes = copy_bytes (off % bsize) mem src m (f.disk f.addr)
  write_from fuel (left - m) (off + m) (src + m) f.inode (write_block f.addr bytes f.disk) mem

-- The end of writei, for a write of `n` bytes that ended at `off`.
unfoldable pub grow : ℕ → ℕ → ℕ → Dinode × Disk → Dinode × Disk
unfolding iupdate
grow inum n off r =
    if ltb 0 n && ltb r.0.size off
    then (record r.0 { size = off }, iupdate inum (record r.0 { size = off }) r.1)
    else r

-- The bytes that writei writes: a file ends at MAXFILE blocks.
abbrev pub write_count : ℕ → ℕ → ℕ
write_count off n =
    if ltb (maxfile * bsize) (off + n) then (maxfile * bsize + 2 ^ 32 - off) % 2 ^ 32 else n

-- The rest of writei, for `n` bytes that fit.
unfoldable pub write_bytes : ℕ → Dinode → ℕ → ℕ → ℕ → Disk → Mem → Outcome Transfer
unfolding write_from grow
write_bytes inum ip src off n d mem = do
  r ← write_from n n off src ip d mem
  let g : Dinode × Disk = grow inum n (off + n) r
  ok (record { result = some n; inode = g.0; disk = g.1; mem = mem })

module _ (devices : ℕ → Option (ℕ → ℕ → Mem → Outcome (Option ℕ))) where
  unfoldable pub device_write : Dinode → ℕ → ℕ → Disk → Mem → Outcome Transfer
  device_write ip src n d mem =
      if not (ltb ip.major ndev)
      then ok (record { result = none; inode = ip; disk = d; mem = mem })
      else elim (devices ip.major) [
        | none ↦ ok (record { result = none; inode = ip; disk = d; mem = mem })
        | some f ↦ f src n mem >>= λ r. ok (record { result = r; inode = ip; disk = d; mem = mem })
      ]

  unfoldable pub writei : ℕ → Dinode → ℕ → ℕ → ℕ → Disk → Mem → Outcome Transfer
  unfolding write_bytes device_write
  writei inum ip src off n d mem =
      if ip.kind == t_dev
      then device_write ip src n d mem
      else if ltb ip.size off || ltb ((off + n) % 2 ^ 32) off
      then ok (record { result = none; inode = ip; disk = d; mem = mem })
      else write_bytes inum ip src off (write_count off n) d mem
