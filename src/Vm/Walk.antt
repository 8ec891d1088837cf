-- ===== src/Vm/Walk.antt =====
-- walkpgdir with `create` set.
use cs_577_p.Base.{
  ℕ, ◌+◌, ◌*◌, ◌<◌, ◌≡◌, ◌⊎◌, inl, inr, refl, sym, ap, arith, true, false, Bool-cases, List, [],
  ◌∷◌, none, some, ok,
}
use cs_577_p.Spinlock.{Cpu}
use cs_577_p.Spinlock.Laws.{IsNested}
use cs_577_p.Kalloc.{Kmem}
use cs_577_p.Kalloc.Pages.{taken, calm, kalloc_ok}
use cs_577_p.Vm.{entry, is_present, pte_addr, pdx, ptx, walkpgdir}
use cs_577_p.Vm.Tables.{pte_of, IsDir}
use cs_577_p.Vm.NewTable.{after, after-IsDir, tables_after, same_ptes, Told}

-- What walkpgdir leaves: the entry's address in a table that is there, and every entry as it was.
pub record Walked (k : Kmem) (pgdir va pte : ℕ) (k' : Kmem) (c' : Cpu) : Type 0 where
  pub is_dir : IsDir k' pgdir
  pub nested : IsNested c'
  pub present : is_present (entry pgdir (pdx va) k'.mem) ≡ true
  pub at_entry : pte ≡ pte_addr (entry pgdir (pdx va) k'.mem) + 4 * ptx va
  pub same : (i j : ℕ) → i < 1024 → j < 1024 → pte_of pgdir i j k'.mem ≡ pte_of pgdir i j k.mem

after-Walked :
    (k : Kmem) (c : Cpu) (n : IsNested c) (pgdir va t : ℕ) (rest : List ℕ) (d : IsDir k pgdir)
    (e : k.freelist ≡ t ∷ rest) (p : is_present (entry pgdir (pdx va) k.mem) ≡ false)
    → Walked k pgdir va (t + 4 * ptx va) (after k pgdir va t rest d e p) (calm c)
after-Walked k c n pgdir va t rest d e p = record {
  is_dir = after-IsDir k pgdir va t rest d e p;
  nested = n;
  present = (at_table (tables_after k pgdir va t rest d e p (pdx va) (omega arith))).0;
  at_entry =
      ap (λ x. x + 4 * ptx va)
        (sym (at_table (tables_after k pgdir va t rest d e p (pdx va) (omega arith))).1);
  same = same_ptes k pgdir va t rest d e p;
}
  where
    at_table :
        Told k pgdir va t rest d e p (pdx va)
        → (is_present (entry pgdir (pdx va) (after k pgdir va t rest d e p).mem) ≡ true)
          × (pte_addr (entry pgdir (pdx va) (after k pgdir va t rest d e p).mem) ≡ t)
    at_table (inl (z, q, a)) = (q, a)
    at_table (inr (z, q)) = absurd (z refl)

-- It fails exactly where it needs a table and no page is free.
pub walk_creates :
    (k : Kmem) (c : Cpu) (pgdir va : ℕ)
    → IsNested c
    → IsDir k pgdir
    → ((walkpgdir pgdir va true k c ≡ ok (none, taken k, calm c)) × (k.freelist ≡ []))
      ⊎ ((pte : ℕ) × (k' : Kmem) × (c' : Cpu) × (walkpgdir pgdir va true k c
            ≡ ok (some pte, k', c'))
          × Walked k pgdir va pte k' c')
unfolding walkpgdir
walk_creates k c pgdir va n d = elim (Bool-cases (is_present (entry pgdir (pdx va) k.mem))) [
  | inl p ↦ inr (
    pte_addr (entry pgdir (pdx va) k.mem) + 4 * ptx va,
    k,
    c,
    rw p refl,
    record { is_dir = d; nested = n; present = p; at_entry = refl; same = λ i j h h'. refl },
  )
  | inr p ↦ by_list k.freelist refl p
]
  where
    by_list :
        (l : List ℕ)
        → k.freelist ≡ l
        → is_present (entry pgdir (pdx va) k.mem) ≡ false
        → ((walkpgdir pgdir va true k c ≡ ok (none, taken k, calm c)) × (k.freelist ≡ []))
          ⊎ ((pte : ℕ) × (k' : Kmem) × (c' : Cpu) × (walkpgdir pgdir va true k c
                ≡ ok (some pte, k', c'))
              × Walked k pgdir va pte k' c')
    by_list [] e p = inl (rw (p, kalloc_ok k c n d.valid.free_lock, e) refl, e)
    by_list (t ∷ rest) e p = inr (
      t + 4 * ptx va,
      after k pgdir va t rest d e p,
      calm c,
      rw (p, kalloc_ok k c n d.valid.free_lock, e) refl,
      after-Walked k c n pgdir va t rest d e p,
    )
