-- ===== src/Vm/Shrink.antt =====
-- A round of deallocuvm, on every branch.
use cs_577_p.Base.{
  ℕ, ◌+◌, ◌*◌, ◌/◌, ◌%◌, ◌<◌, ◌≡◌, inl, inr, refl, sym, ap, ◌∙◌, arith, true, false, if◌then◌else◌,
  ◌==◌, Bool-cases, ok,
}
use cs_577_p.Spinlock.{Cpu}
use cs_577_p.Spinlock.Laws.{IsNested}
use cs_577_p.Syscall.{word_at}
use cs_577_p.Kalloc.{Kmem, pgsize, kfree}
use cs_577_p.Kalloc.Pages.{freed, calm, kfree_ok}
use cs_577_p.Vm.{entry, is_present, pte_addr, store_word, with_mem}
use cs_577_p.Vm.Space.{free_page}
use cs_577_p.Vm.Mapping.{pte_at}
use cs_577_p.Vm.Owned.{user_pages, frame_at, IsFrame, IsSpace, free_dir}
use cs_577_p.Vm.Release.{
  Released, walk_finds, walk_misses, free_page_absent, free_page_present, cleared, cleared-Released,
}

-- A page that is not mapped stays so.
Released-same :
    (k : Kmem) (pgdir x : ℕ)
    → IsSpace k pgdir
    → is_present (pte_at pgdir x k.mem) ≡ false
    → Released k pgdir x k
Released-same k pgdir x s e = record { space = s; gone = e; kept = λ z h n. refl }

abbrev pub FreesPage : Kmem → Cpu → ℕ → ℕ → Type 0
FreesPage k c pgdir x =
    (k' : Kmem) × (c' : Cpu) × (free_page pgdir (x * pgsize) k c ≡ ok (k', c'))
    × IsNested c'
    × Released k pgdir x k'

-- The word that the entry of page `x` is.
abbrev place : Kmem → ℕ → ℕ → ℕ
place k pgdir x = pte_addr (entry pgdir (x / 1024) k.mem) + 4 * (x % 1024)

word_there :
    (k : Kmem) (pgdir x : ℕ)
    → is_present (entry pgdir (x / 1024) k.mem) ≡ true
    → pte_at pgdir x k.mem ≡ word_at k.mem (place k pgdir x)
unfolding entry
word_there k pgdir x p =
    ap (λ b. if b then entry (pte_addr (entry pgdir (x / 1024) k.mem)) (x % 1024) k.mem else 0) p

free_mapped :
    (k : Kmem) (c : Cpu) (pgdir x : ℕ)
    → IsNested c
    → IsSpace k pgdir
    → x < user_pages
    → is_present (entry pgdir (x / 1024) k.mem) ≡ true
    → is_present (pte_at pgdir x k.mem) ≡ true
    → FreesPage k c pgdir x
free_mapped k c pgdir x n s hx there p = (
  cleared k pgdir x s hx there p,
  calm c,
  free_page_present k (freed frame k) c (calm c) pgdir (x * pgsize) (place k pgdir x)
        (walk_finds k c pgdir x (omega arith) there) (sym (ap is_present w) ∙ p) not_null
        (ap (λ a. kfree a k c) (sym (ap pte_addr w))
          ∙ kfree_ok frame k c n s.is_dir.valid.free_lock f.page)
      ∙ ap (λ a. ok (with_mem (store_word (pte_addr a + 4 * (x % 1024)) 0) (freed frame k), calm c))
          (sym (free_dir k pgdir frame s.is_dir f (x / 1024) (omega arith))),
  n,
  cleared-Released k pgdir x s hx there p,
)
  where
    frame : ℕ
    frame = frame_at pgdir x k

    f : IsFrame k pgdir (frame_at pgdir x k)
    f = s.frame x hx p

    w : pte_at pgdir x k.mem ≡ word_at k.mem (place k pgdir x)
    w = word_there k pgdir x there

    not_null : (pte_addr (word_at k.mem (place k pgdir x)) == 0) ≡ false
    not_null =
        ap (λ v. pte_addr v == 0) (sym w)
        ∙ (let low = f.page.above in let base = s.based in ground arith)

pub free_page_lem :
    (k : Kmem) (c : Cpu) (pgdir x : ℕ)
    → IsNested c
    → IsSpace k pgdir
    → x < user_pages
    → FreesPage k c pgdir x
unfolding free_page
free_page_lem k c pgdir x n s hx = elim (Bool-cases (is_present (entry pgdir (x / 1024) k.mem))) [
  | inr e ↦ (
    k,
    c,
    rw (walk_misses k c pgdir x (omega arith) e) refl,
    n,
    Released-same k pgdir x s (
        ap
          (λ b.
            is_present
              (if b then entry (pte_addr (entry pgdir (x / 1024) k.mem)) (x % 1024) k.mem else 0))
          e),
  )
  | inl there ↦ elim (Bool-cases (is_present (pte_at pgdir x k.mem))) [
    | inr e ↦ (
      k,
      c,
      free_page_absent k k c c pgdir (x * pgsize) (place k pgdir x)
          (walk_finds k c pgdir x (omega arith) there)
          (sym (ap is_present (word_there k pgdir x there)) ∙ e),
      n,
      Released-same k pgdir x s e,
    )
    | inl p ↦ free_mapped k c pgdir x n s hx there p
  ]
]
