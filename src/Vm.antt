-- ===== src/Vm.antt =====
-- kernel/vm.c: page tables in physical memory, and the operations on them.
-- `mem` of the allocator holds the bytes of physical memory, which the kernel maps one to one; a page
-- directory or table is its address. A 32-bit word stands least byte first.
pub mod Words
pub mod Tables
pub mod NewTable
pub mod Walk
pub mod Put
pub mod Mapping
pub mod Rounds
pub mod Loop
pub mod Space
pub mod Load
pub mod Owned
pub mod Release
pub mod Shrink
pub mod Dealloc
pub mod Samples
mod Tests
use cs_577_p.Base.{
  ℕ, zero, suc, ◌+◌, ◌-◌, ◌*◌, ◌/◌, ◌%◌, ◌^◌, Bool, true, false, not, ◌||◌, ◌&&◌, Option, none,
  some, List, [], ◌∷◌, Outcome, ok, panic, wild, ◌>>=◌, ◌>>◌, if◌then◌else◌, ◌==◌, leb, ltb,
}
use Prim.Native.Nat.{bit_or}
use cs_577_p.Spinlock.{Cpu}
use cs_577_p.Str.{memmove}
use cs_577_p.Syscall.{word_at}
use cs_577_p.Kalloc.{Kmem, pgsize, phystop, memset, pgroundup, kalloc, kfree}

abbrev pub usertop : ℕ
usertop = 0xA0000

abbrev pub pte_p : ℕ
pte_p = 1

abbrev pub pte_w : ℕ
pte_w = 2

abbrev pub pte_u : ℕ
pte_u = 4

abbrev pub pdx : ℕ → ℕ
pdx la = la / 2 ^ 22 % 1024

abbrev pub ptx : ℕ → ℕ
ptx la = la / 2 ^ 12 % 1024

abbrev pub pgrounddown : ℕ → ℕ
pgrounddown a = a / pgsize * pgsize

abbrev pub pte_addr : ℕ → ℕ
pte_addr pte = pte / pgsize * pgsize

-- `pte & PTE_P` and `pte & PTE_U`
abbrev pub is_present : ℕ → Bool
is_present pte = pte % 2 == 1

abbrev pub is_user : ℕ → Bool
is_user pte = pte / 4 % 2 == 1

-- `*(uint*)p = v`
unfoldable pub store_word : ℕ → ℕ → (ℕ → ℕ) → ℕ → ℕ
store_word p v mem a =
    if ltb a p || leb (p + 4) a
    then mem a
    else if a == p
    then v % 256
    else if a == p + 1
    then v / 256 % 256
    else if a == p + 2
    then v / 65536 % 256
    else v / 16777216 % 256

-- `t[i]`, for a directory or a table at `t`.
unfoldable pub entry : ℕ → ℕ → (ℕ → ℕ) → ℕ
entry t i mem = word_at mem (t + 4 * i)

abbrev pub with_mem : ((ℕ → ℕ) → ℕ → ℕ) → Kmem → Kmem
with_mem f k = record k { mem = f k.mem }

-- A new page table, zeroed and entered in the directory.
unfoldable pub enter_table : ℕ → ℕ → ℕ → Kmem → Kmem
unfolding store_word
enter_table pgdir va pgtab k =
    let zeroed = with_mem (λ m. memset m pgtab 0 pgsize) k in
    with_mem (store_word (pgdir + 4 * pdx va) (bit_or (bit_or (bit_or pgtab pte_p) pte_w) pte_u))
      zeroed

-- The address of the entry for `va`; `none` is the null pointer.
unfoldable pub walkpgdir : ℕ → ℕ → Bool → Kmem → Cpu → Outcome (Option ℕ × Kmem × Cpu)
unfolding entry kalloc enter_table
walkpgdir pgdir va create k c =
    let pde = entry pgdir (pdx va) k.mem in
    if is_present pde
    then ok (some (pte_addr pde + 4 * ptx va), k, c)
    else if not create
    then ok (none, k, c)
    else (kalloc k c >>= λ r. elim r.0 [
      | none ↦ ok (none, r.1, r.2)
      | some pgtab ↦ ok (some (pgtab + 4 * ptx va), enter_table pgdir va pgtab r.1, r.2)
    ])

-- What a round of mappages does once it has the entry's address; `false` is the result -1.
unfoldable pub map_page : ℕ → ℕ → ℕ → Kmem → Outcome Kmem
unfolding store_word
map_page pte pa perm k =
    if is_present (word_at k.mem pte)
    then panic
    else ok (with_mem (store_word pte (bit_or (bit_or pa perm) pte_p)) k)

-- The loop of mappages from the page at `a` on, with as many rounds as the fuel.
unfoldable pub map_from : ℕ → ℕ → ℕ → ℕ → ℕ → ℕ → Kmem → Cpu → Outcome (Bool × Kmem × Cpu)
unfolding walkpgdir map_page
map_from zero pgdir a last pa perm k c = wild
map_from (suc n) pgdir a last pa perm k c = walkpgdir pgdir a true k c >>= λ r. elim r.0 [
  | none ↦ ok (false, r.1, r.2)
  | some pte ↦ map_page pte pa perm r.1 >>= λ k1. elim (a == last) [
    | true ↦ ok (true, k1, r.2)
    | false ↦ map_from n pgdir ((a + pgsize) % 2 ^ 32) last ((pa + pgsize) % 2 ^ 32) perm k1 r.2
  ]
]

-- From `a` the loop takes a round for each page up to `last`, by way of 0 where `last` lies below.
abbrev pub map_rounds : ℕ → ℕ → ℕ
map_rounds a last = (last + 2 ^ 32 - a) % 2 ^ 32 / pgsize + 1

unfoldable pub mappages : ℕ → ℕ → ℕ → ℕ → ℕ → Kmem → Cpu → Outcome (Bool × Kmem × Cpu)
unfolding map_from
mappages pgdir la size pa perm k c =
    let a = pgrounddown la in
    let last = pgrounddown ((la + size + 2 ^ 32 - 1) % 2 ^ 32) in
    map_from (map_rounds a last) pgdir a last pa perm k c
