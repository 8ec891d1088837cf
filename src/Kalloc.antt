-- ===== src/Kalloc.antt =====
-- kernel/kalloc.c: the allocator of physical pages.
-- The free list, which the code threads through the free pages, is the list of their addresses.
pub mod Pages
pub mod Init
pub mod Runs
mod Tests
use cs_577_p.Base.{
  ℕ, zero, suc, ◌+◌, ◌-◌, ◌/◌, ◌%◌, ◌*◌, ◌^◌, Bool, true, false, not, ◌||◌, ◌&&◌, Option, none,
  some, List, [], ◌∷◌, Outcome, ok, panic, ◌>>=◌, if◌then◌else◌, ◌==◌, leb, ltb,
}
use cs_577_p.Spinlock.{Cpu, Lock, unlocked, initlock, acquire, release}

abbrev pub pgsize : ℕ
pgsize = 4096

abbrev pub phystop : ℕ
phystop = 0x1000000

-- `kernel_end` is the linker's symbol `end`; `mem` are the bytes of physical memory.
pub record Kmem : Type 0 where
  pub lock : Lock
  pub freelist : List ℕ
  pub kernel_end : ℕ
  pub mem : ℕ → ℕ

-- memset(v, c, n)
abbrev pub memset : (ℕ → ℕ) → ℕ → ℕ → ℕ → ℕ → ℕ
memset mem v c n a = if leb v a && ltb a (v + n) then c else mem a

-- PGROUNDUP: `(sz + 4095) & ~4095` on 32 bits.
abbrev pub pgroundup : ℕ → ℕ
pgroundup sz = (sz + pgsize - 1) % 0x100000000 / pgsize * pgsize

-- The pointer to the first page of a list, and null.
abbrev pub head_ptr : List ℕ → ℕ
head_ptr [] = 0
head_ptr (r ∷ rs) = r

-- `r->next = …`: the first word of the page at `v`, low byte first.
abbrev pub set_next : (ℕ → ℕ) → ℕ → ℕ → ℕ → ℕ
set_next mem v next a = if leb v a && ltb a (v + 4) then next / 2 ^ (8 * (a - v)) % 2 ^ 8 else mem a

unfoldable pub kfree : ℕ → Kmem → Cpu → Outcome (Kmem × Cpu)
kfree v k c = if not (v % pgsize == 0) || (ltb v k.kernel_end || leb phystop v) then panic else do
  let filled = record k { mem = memset k.mem v 1 pgsize }
  a ← acquire filled.lock c
  b ← release a.0 a.1
  ok (
    record filled {
      lock = b.0;
      freelist = v ∷ k.freelist;
      mem = set_next filled.mem v (head_ptr k.freelist);
    },
    b.1,
  )

abbrev pub next_run : List ℕ → List ℕ
next_run [] = []
next_run (r ∷ rs) = rs

abbrev pub first_run : List ℕ → Option ℕ
first_run [] = none
first_run (r ∷ rs) = some r

-- `none` is the null pointer.
unfoldable pub kalloc : Kmem → Cpu → Outcome (Option ℕ × Kmem × Cpu)
kalloc k c = do
  a ← acquire k.lock c
  b ← release a.0 a.1
  ok (first_run k.freelist, record k { lock = b.0; freelist = next_run k.freelist }, b.1)

-- The loop of kinit, with as many rounds as the fuel; it stops by its test before.
pub kinit_from : ℕ → ℕ → Kmem → Cpu → Outcome (Kmem × Cpu)
kinit_from zero p k c = ok (k, c)
kinit_from (suc fuel) p k c = elim (leb (p + pgsize) phystop) [
  | true ↦ kfree p k c >>= λ r. kinit_from fuel (p + pgsize) r.0 r.1
  | false ↦ ok (k, c)
]

-- There are at most 4096 pages below PHYSTOP.
pub kinit : Kmem → Cpu → Outcome (Kmem × Cpu)
unfolding kinit_from
kinit k c = kinit_from 4097 (pgroundup k.kernel_end) (record k { lock = initlock k.lock }) c
