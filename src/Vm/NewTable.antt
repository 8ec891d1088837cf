-- ===== src/Vm/NewTable.antt =====
-- A new page table in a directory: the directory stays well formed, and no translation changes.
use cs_577_p.Base.{
  ℕ, ◌<◌, ◌≡◌, ◌≢◌, ◌⊎◌, inl, inr, refl, sym, ap, ◌∙◌, arith, true, false, if◌then◌else◌, ◌==◌,
  Bool-cases, List, ◌∷◌,
}
use mathlib.Core.Path.{subst}
use cs_577_p.Kalloc.{Kmem}
use cs_577_p.Kalloc.Pages.{IsPage, Fresh, Free, IsValid, Free-same, taken}
use cs_577_p.Vm.{entry, is_present, pte_addr, pdx, enter_table}
use cs_577_p.Vm.Words.{IsEntry}
use cs_577_p.Vm.Tables.{
  pte_of, IsDir, table_word, table_word-IsEntry, enter-dir_self, enter-dir_ne, enter-table_new,
  enter-table_other,
}

pub IsPage-same : (k k' : Kmem) (v : ℕ) → k'.kernel_end ≡ k.kernel_end → IsPage k v → IsPage k' v
IsPage-same k k' v e p = record { aligned = p.aligned; above = rw e p.above; below = p.below }

-- The page of a free list's head becomes the table of `va`, which had none.
module _ (k : Kmem) (pgdir va t : ℕ) (rest : List ℕ) (d : IsDir k pgdir)
    (listed : k.freelist ≡ t ∷ rest)
    (absent : is_present (entry pgdir (pdx va) k.mem) ≡ false) where
  abbrev pub after : Kmem
  after = enter_table pgdir va t (record (taken k) { freelist = rest })

  free : Free k (t ∷ rest)
  free = subst (Free k) listed d.valid.pages

  other : t ≢ pgdir
  other = (subst (Fresh pgdir) listed d.dir_used).0

  page : IsPage k t
  page = free.0

  new_table : entry pgdir (pdx va) after.mem ≡ table_word t
  new_table =
      enter-dir_self (record (taken k) { freelist = rest }) pgdir va t d.dir.aligned page.aligned
        page.below other

  old_tables : (i : ℕ) → i < 1024 → pdx va ≢ i → entry pgdir i after.mem ≡ entry pgdir i k.mem
  old_tables =
      enter-dir_ne (record (taken k) { freelist = rest }) pgdir va t d.dir.aligned page.aligned
        page.below other

  abbrev pub Told : ℕ → Type 0
  Told i =
      ((pdx va ≡ i)
        × (is_present (entry pgdir i after.mem) ≡ true)
        × (pte_addr (entry pgdir i after.mem) ≡ t))
      ⊎ ((pdx va ≢ i) × (entry pgdir i after.mem ≡ entry pgdir i k.mem))

  -- The tables of the directory after the call: the new one, and those that it had.
  pub tables_after : (i : ℕ) → i < 1024 → Told i
  tables_after i h = elim (Bool-cases (pdx va == i)) [
    | inl e ↦ inl (at_new (ground arith))
    | inr e ↦ inr (ground arith, old_tables i h (ground arith))
  ]
    where
      word : IsEntry (table_word t) t
      word = table_word-IsEntry t page.aligned page.below

      at_new :
          pdx va ≡ i
          → (pdx va ≡ i)
            × (is_present (entry pgdir i after.mem) ≡ true)
            × (pte_addr (entry pgdir i after.mem) ≡ t)
      at_new e =
          let w = ap (λ x. entry pgdir x after.mem) (sym e) ∙ new_table in
          (e, ap is_present w ∙ ap (λ x. x == 1) word.present, ap pte_addr w ∙ word.frame)

  -- A table that the directory had is another page than the new one.
  old_ne :
      (i : ℕ)
      → i < 1024
      → is_present (entry pgdir i k.mem) ≡ true
      → t ≢ pte_addr (entry pgdir i k.mem)
  old_ne i h p = (subst (Fresh (pte_addr (entry pgdir i k.mem))) listed (d.table i h p).2).0

  -- No translation changes.
  pub same_ptes :
      (i j : ℕ) → i < 1024 → j < 1024 → pte_of pgdir i j after.mem ≡ pte_of pgdir i j k.mem
  same_ptes i j h h' = elim (tables_after i h) [
    | inl (e, p, a) ↦
        ap (λ b. if b then entry (pte_addr (entry pgdir i after.mem)) j after.mem else 0) p
        ∙ ap (λ x. entry x j after.mem) a
        ∙ enter-table_new (record (taken k) { freelist = rest }) pgdir va t d.dir.aligned
            page.aligned page.below other j h'
        ∙ sym (
            ap (λ b. if b then entry (pte_addr (entry pgdir i k.mem)) j k.mem else 0)
              (ap (λ x. is_present (entry pgdir x k.mem)) (sym e) ∙ absent))
    | inr (n, e) ↦
        ap (λ w. if is_present w then entry (pte_addr w) j after.mem else 0) e
        ∙ in_old (Bool-cases (is_present (entry pgdir i k.mem)))
  ]
    where
      in_old :
          (is_present (entry pgdir i k.mem) ≡ true) ⊎ (is_present (entry pgdir i k.mem) ≡ false)
          → (if is_present (entry pgdir i k.mem)
              then entry (pte_addr (entry pgdir i k.mem)) j after.mem
              else 0)
            ≡ pte_of pgdir i j k.mem
      in_old (inl p) =
          ap (λ x. if is_present (entry pgdir i k.mem) then x else 0)
            (enter-table_other (record (taken k) { freelist = rest }) pgdir va t d.dir.aligned
              page.aligned page.below other (pte_addr (entry pgdir i k.mem)) j
              (d.table i h p).0.aligned (old_ne i h p) (d.table i h p).1 h')
      in_old (inr p) = rw p refl

  abbrev Used : ℕ → Type 0
  Used v = IsPage after v × (v ≢ pgdir) × Fresh v after.freelist

  Used-new : Used t
  unfolding enter_table
  Used-new = (IsPage-same k after t refl page, other, free.1)

  Used-old :
      (i : ℕ)
      → i < 1024
      → is_present (entry pgdir i k.mem) ≡ true
      → Used (pte_addr (entry pgdir i k.mem))
  unfolding enter_table
  Used-old i h p =
      let a = pte_addr (entry pgdir i k.mem) in
      let (q, n, f) = d.table i h p in
      (IsPage-same k after a refl q, n, (subst (Fresh a) listed f).1)

  after-IsValid : IsValid after × IsPage after pgdir × Fresh pgdir after.freelist
  unfolding enter_table
  after-IsValid = (
    record { free_lock = refl; pages = Free-same k after rest refl free.2 },
    IsPage-same k after pgdir refl d.dir,
    (subst (Fresh pgdir) listed d.dir_used).1,
  )

  pub after-IsDir : IsDir after pgdir
  after-IsDir = record {
    valid = after-IsValid.0;
    dir = after-IsValid.1;
    dir_used = after-IsValid.2;
    table = λ i h p. elim (tables_after i h) [
      | inl (e, q, a) ↦ subst Used (sym a) Used-new
      | inr (n, e) ↦
          subst (λ w. Used (pte_addr w)) (sym e) (Used-old i h (sym (ap is_present e) ∙ p))
    ];
    apart = λ i j h h' n p q. far i j h h' n p q (tables_after i h) (tables_after j h');
  }
    where
      far :
          (i j : ℕ)
          → i < 1024
          → j < 1024
          → i ≢ j
          → is_present (entry pgdir i after.mem) ≡ true
          → is_present (entry pgdir j after.mem) ≡ true
          → Told i
          → Told j
          → pte_addr (entry pgdir i after.mem) ≢ pte_addr (entry pgdir j after.mem)
      far i j h h' n p q (inl (e, x, a)) (inl (e', x', a')) = absurd (n (sym e ∙ e'))
      far i j h h' n p q (inl (e, x, a)) (inr (m, e')) =
          λ z. old_ne j h' (sym (ap is_present e') ∙ q) (sym a ∙ z ∙ ap pte_addr e')
      far i j h h' n p q (inr (m, e)) (inl (e', x', a')) =
          λ z. old_ne i h (sym (ap is_present e) ∙ p) (sym a' ∙ sym z ∙ ap pte_addr e)
      far i j h h' n p q (inr (m, e)) (inr (m', e')) = λ z.
          d.apart i j h h' n (sym (ap is_present e) ∙ p) (sym (ap is_present e') ∙ q)
            (sym (ap pte_addr e) ∙ z ∙ ap pte_addr e')
