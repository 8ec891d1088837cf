-- ===== src/Vm/Tables.antt =====
-- Page directories and tables as tables of 1024 words: what a store and a zeroed page do to them.
use cs_577_p.Base.{
  ℕ, ◌+◌, ◌*◌, ◌%◌, ◌^◌, ◌≤◌, ◌<◌, ◌≡◌, ◌≢◌, ◌⊎◌, inl, inr, sym, ◌∙◌, arith, true, if◌then◌else◌,
  leb, Bool-cases,
}
use Prim.Native.Nat.{bit_or}
use cs_577_p.Kalloc.{Kmem, pgsize, phystop, memset, head_ptr}
use cs_577_p.Kalloc.Pages.{IsPage, Fresh, IsValid, freed}
use cs_577_p.Vm.{store_word, entry, is_present, pte_addr, pdx, enter_table, pte_p, pte_w, pte_u}
use cs_577_p.Vm.Words.{
  bit_or_flags, zero-bit_or, word_at-store_word, word_at-store_word_apart, word_at-memset_in,
  word_at-memset_out, word_at-set_next_out, IsEntry,
}

-- The entry of a page in two levels, by the indices of its table and of its place there; 0 where the
-- directory has no table.
abbrev pub pte_of : ℕ → ℕ → ℕ → (ℕ → ℕ) → ℕ
pte_of pgdir i j m =
    if is_present (entry pgdir i m) then entry (pte_addr (entry pgdir i m)) j m else 0

-- The directory and its tables are pages that the allocator does not hold, each another.
pub record IsDir (k : Kmem) (pgdir : ℕ) : Type 0 where
  pub valid : IsValid k
  pub dir : IsPage k pgdir
  pub dir_used : Fresh pgdir k.freelist
  pub table :
      (i : ℕ)
      → i < 1024
      → is_present (entry pgdir i k.mem) ≡ true
      → IsPage k (pte_addr (entry pgdir i k.mem))
        × (pte_addr (entry pgdir i k.mem) ≢ pgdir)
        × Fresh (pte_addr (entry pgdir i k.mem)) k.freelist
  pub apart :
      (i j : ℕ)
      → i < 1024
      → j < 1024
      → i ≢ j
      → is_present (entry pgdir i k.mem) ≡ true
      → is_present (entry pgdir j k.mem) ≡ true
      → pte_addr (entry pgdir i k.mem) ≢ pte_addr (entry pgdir j k.mem)

pub entry-store_self :
    (m : ℕ → ℕ) (t i v : ℕ) → v < 2 ^ 32 → entry t i (store_word (t + 4 * i) v m) ≡ v
unfolding entry
entry-store_self m t i v h = word_at-store_word m (t + 4 * i) v h

-- Two entries of two tables, or two of one, do not overlap.
entries_apart :
    (t i t' j : ℕ)
    → t % pgsize ≡ 0
    → t' % pgsize ≡ 0
    → i < 1024
    → j < 1024
    → (t ≢ t') ⊎ (i ≢ j)
    → (t + 4 * i + 4 ≤ t' + 4 * j) ⊎ (t' + 4 * j + 4 ≤ t + 4 * i)
entries_apart t i t' j a a' h h' (inl n) = elim (Bool-cases (leb (t + 4 * i + 4) (t' + 4 * j))) [
  | inl e ↦ inl (ground arith)
  | inr e ↦ inr (ground arith)
]
entries_apart t i t' j a a' h h' (inr n) = elim (Bool-cases (leb (t + 4 * i + 4) (t' + 4 * j))) [
  | inl e ↦ inl (ground arith)
  | inr e ↦ inr (ground arith)
]

pub entry-store_ne :
    (m : ℕ → ℕ) (t i t' j v : ℕ)
    → t % pgsize ≡ 0
    → t' % pgsize ≡ 0
    → i < 1024
    → j < 1024
    → (t ≢ t') ⊎ (i ≢ j)
    → entry t' j (store_word (t + 4 * i) v m) ≡ entry t' j m
unfolding entry
entry-store_ne m t i t' j v a a' h h' n =
    word_at-store_word_apart m (t + 4 * i) (t' + 4 * j) v (entries_apart t i t' j a a' h h' n)

entry-zeroed : (m : ℕ → ℕ) (t j : ℕ) → j < 1024 → entry t j (memset m t 0 pgsize) ≡ 0
unfolding entry
entry-zeroed m t j h = word_at-memset_in m t pgsize (t + 4 * j) (omega arith) (omega arith)

pub entry-memset_ne :
    (m : ℕ → ℕ) (t v t' j : ℕ)
    → t % pgsize ≡ 0
    → t' % pgsize ≡ 0
    → t ≢ t'
    → j < 1024
    → entry t' j (memset m t v pgsize) ≡ entry t' j m
unfolding entry
entry-memset_ne m t v t' j a a' n h =
    word_at-memset_out m t v pgsize (t' + 4 * j) (elim (Bool-cases (leb (t' + 4 * j + 4) t)) [
      | inl e ↦ inl (ground arith)
      | inr e ↦ inr (ground arith)
    ])

-- A page that is freed is written, and no entry of another page is.
pub entry-freed_ne :
    (k : Kmem) (t t' j : ℕ)
    → t % pgsize ≡ 0
    → t' % pgsize ≡ 0
    → t ≢ t'
    → j < 1024
    → entry t' j (freed t k).mem ≡ entry t' j k.mem
unfolding entry
entry-freed_ne k t t' j a a' n h =
    word_at-set_next_out (memset k.mem t 1 pgsize) t (head_ptr k.freelist) (t' + 4 * j)
      (elim (Bool-cases (leb (t' + 4 * j + 4) t)) [
        | inl e ↦ inl (ground arith)
        | inr e ↦ inr (ground arith)
      ])
    ∙ entry-memset_ne k.mem t 1 t' j a a' n h

-- The directory entry of a new table.
abbrev pub table_word : ℕ → ℕ
table_word t = bit_or (bit_or (bit_or t pte_p) pte_w) pte_u

pub table_word-eq : (t : ℕ) → t % pgsize ≡ 0 → table_word t ≡ t + 7
table_word-eq t a =
    ground (arith, bit_or_flags t 0 1, bit_or_flags t 1 2, bit_or_flags t 3 4, zero-bit_or 1)

pub table_word-IsEntry : (t : ℕ) → t % pgsize ≡ 0 → t < phystop → IsEntry (table_word t) t
table_word-IsEntry t a h =
    rw (table_word-eq t a)
      (record { small = omega arith; frame = omega arith; present = omega arith })

-- What a new page table at `t` does to the entries.
module _ (k : Kmem) (pgdir va t : ℕ) (dir_at : pgdir % pgsize ≡ 0) (table_at : t % pgsize ≡ 0)
    (below : t < phystop) (other : t ≢ pgdir) where
  pub enter-dir_self : entry pgdir (pdx va) (enter_table pgdir va t k).mem ≡ table_word t
  unfolding enter_table
  enter-dir_self =
      entry-store_self (memset k.mem t 0 pgsize) pgdir (pdx va) (table_word t)
        (table_word-IsEntry t table_at below).small

  pub enter-dir_ne :
      (i : ℕ)
      → i < 1024
      → pdx va ≢ i
      → entry pgdir i (enter_table pgdir va t k).mem ≡ entry pgdir i k.mem
  unfolding enter_table
  enter-dir_ne i h n =
      entry-store_ne (memset k.mem t 0 pgsize) pgdir (pdx va) pgdir i (table_word t) dir_at dir_at
        (omega arith) h (inr n)
      ∙ entry-memset_ne k.mem t 0 pgdir i table_at dir_at other h

  pub enter-table_new : (j : ℕ) → j < 1024 → entry t j (enter_table pgdir va t k).mem ≡ 0
  unfolding enter_table
  enter-table_new j h =
      entry-store_ne (memset k.mem t 0 pgsize) pgdir (pdx va) t j (table_word t) dir_at table_at
        (omega arith) h (inl (λ e. other (sym e)))
      ∙ entry-zeroed k.mem t j h

  pub enter-table_other :
      (t' j : ℕ)
      → t' % pgsize ≡ 0
      → t ≢ t'
      → t' ≢ pgdir
      → j < 1024
      → entry t' j (enter_table pgdir va t k).mem ≡ entry t' j k.mem
  unfolding enter_table
  enter-table_other t' j a n n' h =
      entry-store_ne (memset k.mem t 0 pgsize) pgdir (pdx va) t' j (table_word t) dir_at a
        (omega arith) h (inl (λ e. n' (sym e)))
      ∙ entry-memset_ne k.mem t 0 t' j table_at a n h
