-- ===== src/Vm/Load.antt =====
-- loaduvm of kernel/vm.c: a segment of a program, from its file into pages that are mapped.
use cs_577_p.Base.{
  ℕ, zero, suc, ◌+◌, ◌-◌, ◌/◌, ◌%◌, ◌^◌, Bool, true, false, not, Option, none, some, Outcome, ok,
  panic, wild, ◌>>=◌, if◌then◌else◌, ◌==◌, ltb,
}
use cs_577_p.Spinlock.{Cpu}
use cs_577_p.Syscall.{word_at}
use cs_577_p.Kalloc.{Kmem, pgsize}
use cs_577_p.Fs.Icache.{Dinode}
use cs_577_p.Fs.Blocks.{Disk}
use cs_577_p.Fs.Contents.{Mem, readi}
use cs_577_p.Vm.{pte_addr, walkpgdir}

-- What the call leaves: whether it returns 0, the inode, the disk and memory.
pub record Loaded : Type 0 where
  pub result : Bool
  pub inode : Dinode
  pub disk : Disk
  pub kmem : Kmem

-- `readi(…) == n`
abbrev pub is_count : Option ℕ → ℕ → Bool
is_count none n = false
is_count (some m) n = m == n

module _ (devices : ℕ → Option (ℕ → ℕ → Mem → Outcome (Option ℕ × Mem))) where
  -- The loop from byte `i` of the segment on.
  unfoldable pub load_from : ℕ → ℕ → ℕ → ℕ → ℕ → ℕ → Dinode → Disk → Kmem → Cpu → Outcome Loaded
  load_from zero pgdir addr offset sz i ip d k c = wild
  load_from (suc f) pgdir addr offset sz i ip d k c = elim (ltb i sz) [
    | false ↦ ok (record { result = true; inode = ip; disk = d; kmem = k })
    | true ↦ walkpgdir pgdir ((addr + i) % 2 ^ 32) false k c >>= λ r. elim r.0 [
      | none ↦ panic
      | some pte ↦
          let n = if ltb (sz - i) pgsize then sz - i else pgsize in
          readi devices ip (pte_addr (word_at k.mem pte)) ((offset + i) % 2 ^ 32) n d k.mem >>= λ t.
          let k1 = record k { mem = t.mem } in
          elim (is_count t.result n) [
            | false ↦ ok (record { result = false; inode = t.inode; disk = t.disk; kmem = k1 })
            | true ↦ load_from f pgdir addr offset sz (i + pgsize) t.inode t.disk k1 c
          ]
    ]
  ]

  -- A round for each page of the segment, and one for the end.
  unfoldable pub loaduvm : ℕ → ℕ → ℕ → ℕ → Dinode → Disk → Kmem → Cpu → Outcome Loaded
  loaduvm pgdir addr offset sz ip d k c =
      if not (addr % pgsize == 0)
      then panic
      else load_from (sz / pgsize + 2) pgdir addr offset sz 0 ip d k c
