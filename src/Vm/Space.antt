-- ===== src/Vm/Space.antt =====
-- The address space of a process: its set-up, growth, copies and release, and writes into it.
-- Each loop takes rounds of fuel that its bounds give; `wild` where they ran out, which the counts
-- exclude for sizes up to the top of user memory.
use cs_577_p.Base.{
  ℕ, zero, suc, ◌+◌, ◌-◌, ◌/◌, ◌%◌, ◌^◌, Bool, true, false, not, Option, none, some, List, [], ◌∷◌,
  Outcome, ok, panic, wild, ◌>>=◌, if◌then◌else◌, ◌==◌, leb, ltb,
}
use cs_577_p.Spinlock.{Cpu}
use cs_577_p.Str.{memmove}
use cs_577_p.Syscall.{word_at}
use cs_577_p.Kalloc.{Kmem, pgsize, phystop, memset, pgroundup, kalloc, kfree}
use cs_577_p.Vm.{
  usertop, pte_w, pgrounddown, pte_addr, is_present, is_user, store_word, entry, with_mem,
  walkpgdir, mappages,
}

-- PTE_W|PTE_U
abbrev pub user_page : ℕ
user_page = 6

-- A row of kmap. The end of the last one is 0, the end of the address space.
pub record Kmap : Type 0 where
  pub p : ℕ
  pub e : ℕ
  pub perm : ℕ

-- `data_start` is the linker's symbol `data`.
abbrev pub kmap : ℕ → List Kmap
kmap data_start =
    record { p = usertop; e = 0x100000; perm = pte_w }
    ∷ record { p = 0x100000; e = data_start; perm = 0 }
    ∷ record { p = data_start; e = phystop; perm = pte_w }
    ∷ record { p = 0xFE000000; e = 0; perm = pte_w }
    ∷ []

unfoldable pub map_rows : List Kmap → ℕ → Kmem → Cpu → Outcome (Option ℕ × Kmem × Cpu)
unfolding mappages
map_rows [] pgdir k c = ok (some pgdir, k, c)
map_rows (r ∷ rs) pgdir k c =
    mappages pgdir r.p ((r.e + 2 ^ 32 - r.p) % 2 ^ 32) r.p r.perm k c >>= λ m. elim m.0 [
      | false ↦ ok (none, m.1, m.2)
      | true ↦ map_rows rs pgdir m.1 m.2
    ]

unfoldable pub setupkvm : ℕ → Kmem → Cpu → Outcome (Option ℕ × Kmem × Cpu)
unfolding kalloc map_rows
setupkvm data_start k c = kalloc k c >>= λ r. elim r.0 [
  | none ↦ ok (none, r.1, r.2)
  | some pgdir ↦ map_rows (kmap data_start) pgdir (with_mem (λ m. memset m pgdir 0 pgsize) r.1) r.2
]

-- `init` is the address of the code. A null page is written to like any other: `wild`.
unfoldable pub inituvm : ℕ → ℕ → ℕ → Kmem → Cpu → Outcome (Kmem × Cpu)
unfolding kalloc mappages
inituvm pgdir init sz k c =
    if leb pgsize sz
    then panic
    else (kalloc k c >>= λ r. elim r.0 [
      | none ↦ wild
      | some page ↦
          mappages pgdir 0 pgsize page user_page (with_mem (λ m. memset m page 0 pgsize) r.1) r.2
          >>= λ q. ok (with_mem (memmove page init sz) q.1, q.2)
    ])

-- A round of deallocuvm, for the page at `a`.
unfoldable pub free_page : ℕ → ℕ → Kmem → Cpu → Outcome (Kmem × Cpu)
unfolding walkpgdir kfree store_word
free_page pgdir a k c = walkpgdir pgdir a false k c >>= λ r. elim r.0 [
  | none ↦ ok (r.1, r.2)
  | some pte ↦
      let v = word_at r.1.mem pte in
      if is_present v
      then (if pte_addr v == 0
          then panic
          else (kfree (pte_addr v) r.1 r.2 >>= λ f. ok (with_mem (store_word pte 0) f.0, f.1)))
      else ok (r.1, r.2)
]

unfoldable pub free_from : ℕ → ℕ → ℕ → ℕ → Kmem → Cpu → Outcome (Kmem × Cpu)
unfolding free_page
free_from zero pgdir a oldsz k c = wild
free_from (suc n) pgdir a oldsz k c = elim (ltb a oldsz) [
  | true ↦ free_page pgdir a k c >>= λ r. free_from n pgdir ((a + pgsize) % 2 ^ 32) oldsz r.0 r.1
  | false ↦ ok (k, c)
]

unfoldable pub deallocuvm : ℕ → ℕ → ℕ → Kmem → Cpu → Outcome (ℕ × Kmem × Cpu)
unfolding free_from
deallocuvm pgdir oldsz newsz k c =
    if leb oldsz newsz
    then ok (oldsz, k, c)
    else (free_from (oldsz / pgsize + 2) pgdir (pgroundup newsz) oldsz k c >>= λ r.
        ok (newsz, r.0, r.1))

-- The result of mappages is dropped.
unfoldable pub alloc_from : ℕ → ℕ → ℕ → ℕ → ℕ → Kmem → Cpu → Outcome (ℕ × Kmem × Cpu)
unfolding kalloc deallocuvm mappages
alloc_from zero pgdir a oldsz newsz k c = wild
alloc_from (suc n) pgdir a oldsz newsz k c = elim (ltb a newsz) [
  | false ↦ ok (newsz, k, c)
  | true ↦ kalloc k c >>= λ r. elim r.0 [
    | none ↦ deallocuvm pgdir newsz oldsz r.1 r.2 >>= λ d. ok (0, d.1, d.2)
    | some page ↦
        mappages pgdir a pgsize page user_page (with_mem (λ m. memset m page 0 pgsize) r.1) r.2
        >>= λ q. alloc_from n pgdir ((a + pgsize) % 2 ^ 32) oldsz newsz q.1 q.2
  ]
]

unfoldable pub allocuvm : ℕ → ℕ → ℕ → Kmem → Cpu → Outcome (ℕ × Kmem × Cpu)
unfolding alloc_from
allocuvm pgdir oldsz newsz k c =
    if ltb usertop newsz
    then ok (0, k, c)
    else if ltb newsz oldsz
    then ok (oldsz, k, c)
    else alloc_from (newsz / pgsize + 2) pgdir (pgroundup oldsz) oldsz newsz k c

-- The loop of freevm over the directory, from entry `i` on.
unfoldable pub free_tables : ℕ → ℕ → ℕ → Kmem → Cpu → Outcome (Kmem × Cpu)
unfolding entry kfree
free_tables zero pgdir i k c = ok (k, c)
free_tables (suc n) pgdir i k c = elim (is_present (entry pgdir i k.mem)) [
  | true ↦ kfree (pte_addr (entry pgdir i k.mem)) k c >>= λ r. free_tables n pgdir (i + 1) r.0 r.1
  | false ↦ free_tables n pgdir (i + 1) k c
]

unfoldable pub freevm : ℕ → Kmem → Cpu → Outcome (Kmem × Cpu)
unfolding deallocuvm free_tables kfree
freevm pgdir k c =
    if pgdir == 0
    then panic
    else (deallocuvm pgdir usertop 0 k c >>= λ d.
        free_tables 1024 pgdir 0 d.1 d.2 >>= λ t. kfree pgdir t.0 t.1)

-- From the label `bad` on.
unfoldable pub give_up_copy : ℕ → Kmem → Cpu → Outcome (Option ℕ × Kmem × Cpu)
unfolding freevm
give_up_copy d k c = freevm d k c >>= λ r. ok (none, r.0, r.1)

-- A page of the parent, at the entry `pte`, for the child.
unfoldable pub copy_page : ℕ → ℕ → ℕ → Kmem → Cpu → Outcome (Bool × Kmem × Cpu)
unfolding kalloc mappages
copy_page d i pa k c = kalloc k c >>= λ r. elim r.0 [
  | none ↦ ok (false, r.1, r.2)
  | some page ↦ mappages d i pgsize page user_page (with_mem (memmove page pa pgsize) r.1) r.2
]

unfoldable pub copy_from : ℕ → ℕ → ℕ → ℕ → ℕ → Kmem → Cpu → Outcome (Option ℕ × Kmem × Cpu)
unfolding walkpgdir copy_page give_up_copy
copy_from zero pgdir d i sz k c = wild
copy_from (suc n) pgdir d i sz k c = elim (ltb i sz) [
  | false ↦ ok (some d, k, c)
  | true ↦ walkpgdir pgdir i false k c >>= λ r. elim r.0 [
    | none ↦ panic
    | some pte ↦
        let v = word_at r.1.mem pte in
        if not (is_present v)
        then panic
        else (copy_page d i (pte_addr v) r.1 r.2 >>= λ q. elim q.0 [
          | false ↦ give_up_copy d q.1 q.2
          | true ↦ copy_from n pgdir d ((i + pgsize) % 2 ^ 32) sz q.1 q.2
        ])
  ]
]

unfoldable pub copyuvm : ℕ → ℕ → ℕ → Kmem → Cpu → Outcome (Option ℕ × Kmem × Cpu)
unfolding setupkvm copy_from
copyuvm data_start pgdir sz k c = setupkvm data_start k c >>= λ r. elim r.0 [
  | none ↦ ok (none, r.1, r.2)
  | some d ↦ copy_from (sz / pgsize + 2) pgdir d 0 sz r.1 r.2
]

-- `none` is the null pointer. Where the directory has no table for `uva`, the code reads through the
-- null pointer that walkpgdir returns: `wild`.
unfoldable pub uva2ka : ℕ → ℕ → Kmem → Cpu → Outcome (Option ℕ)
unfolding walkpgdir
uva2ka pgdir uva k c = walkpgdir pgdir uva false k c >>= λ r. elim r.0 [
  | none ↦ wild
  | some pte ↦
      let v = word_at r.1.mem pte in
      if not (is_present v)
      then ok none
      else if not (is_user v)
      then ok none
      else ok (some (pte_addr v))
]

-- The bytes of a round of copyout: up to the end of the page, or of the block.
abbrev pub piece : ℕ → ℕ → ℕ
piece va len = let n = pgsize - (va - pgrounddown va) in if ltb len n then len else n

unfoldable pub copyout_from : ℕ → ℕ → ℕ → ℕ → ℕ → Kmem → Cpu → Outcome (Bool × Kmem)
unfolding uva2ka memmove
copyout_from zero pgdir va buf len k c = wild
copyout_from (suc f) pgdir va buf len k c = elim (ltb 0 len) [
  | false ↦ ok (true, k)
  | true ↦ uva2ka pgdir (pgrounddown va) k c >>= λ r. elim r [
    | none ↦ ok (false, k)
    | some pa0 ↦
        let n = piece va len in
        copyout_from f pgdir ((pgrounddown va + pgsize) % 2 ^ 32) (buf + n) (len - n)
          (with_mem (memmove (pa0 + (va - pgrounddown va)) buf n) k) c
  ]
]

-- A round for each page that the block touches, and one for the end.
unfoldable pub copyout : ℕ → ℕ → ℕ → ℕ → Kmem → Cpu → Outcome (Bool × Kmem)
unfolding copyout_from
copyout pgdir va p len k c = copyout_from (len / pgsize + 3) pgdir va p len k c
