-- ===== src/Vm/Put.antt =====
-- A store in one entry of a page table: the directory stays well formed, and no other entry changes.
use cs_577_p.Base.{
  ℕ, ◌+◌, ◌*◌, ◌^◌, ◌<◌, ◌≡◌, ◌≢◌, ◌⊎◌, inl, inr, refl, sym, ap, ◌∙◌, true, false, if◌then◌else◌,
  Bool-cases,
}
use mathlib.Core.Path.{subst}
use cs_577_p.Kalloc.{Kmem}
use cs_577_p.Kalloc.Pages.{IsPage, Fresh, Free-same}
use cs_577_p.Vm.{entry, is_present, pte_addr, store_word, with_mem}
use cs_577_p.Vm.Tables.{pte_of, IsDir, entry-store_self, entry-store_ne}
use cs_577_p.Vm.NewTable.{IsPage-same}

-- A store of `v` in entry `j` of table `i`.
module _ (k : Kmem) (pgdir i j v : ℕ) (d : IsDir k pgdir) (hi : i < 1024) (hj : j < 1024)
    (fits : v < 2 ^ 32) (p : is_present (entry pgdir i k.mem) ≡ true) where
  abbrev pub put : Kmem
  put = with_mem (store_word (pte_addr (entry pgdir i k.mem) + 4 * j) v) k

  pub dir_kept : (n : ℕ) → n < 1024 → entry pgdir n put.mem ≡ entry pgdir n k.mem
  dir_kept n h =
      entry-store_ne k.mem (pte_addr (entry pgdir i k.mem)) j pgdir n v (d.table i hi p).0.aligned
        d.dir.aligned hj h (inl (d.table i hi p).1)

  pub put_self : pte_of pgdir i j put.mem ≡ v
  put_self =
      ap (λ w. if is_present w then entry (pte_addr w) j put.mem else 0) (dir_kept i hi)
      ∙ ap (λ b. if b then entry (pte_addr (entry pgdir i k.mem)) j put.mem else 0) p
      ∙ entry-store_self k.mem (pte_addr (entry pgdir i k.mem)) j v fits

  pub put_ne :
      (n m : ℕ)
      → n < 1024
      → m < 1024
      → (i ≢ n) ⊎ (j ≢ m)
      → pte_of pgdir n m put.mem ≡ pte_of pgdir n m k.mem
  put_ne n m h h' e =
      ap (λ w. if is_present w then entry (pte_addr w) m put.mem else 0) (dir_kept n h)
      ∙ in_table (Bool-cases (is_present (entry pgdir n k.mem)))
    where
      elsewhere :
          (i ≢ n) ⊎ (j ≢ m)
          → is_present (entry pgdir n k.mem) ≡ true
          → (pte_addr (entry pgdir i k.mem) ≢ pte_addr (entry pgdir n k.mem)) ⊎ (j ≢ m)
      elsewhere (inl x) q = inl (d.apart i n hi h x p q)
      elsewhere (inr x) q = inr x

      in_table :
          (is_present (entry pgdir n k.mem) ≡ true) ⊎ (is_present (entry pgdir n k.mem) ≡ false)
          → (if is_present (entry pgdir n k.mem)
              then entry (pte_addr (entry pgdir n k.mem)) m put.mem
              else 0)
            ≡ pte_of pgdir n m k.mem
      in_table (inl q) =
          ap (λ x. if is_present (entry pgdir n k.mem) then x else 0)
            (entry-store_ne k.mem (pte_addr (entry pgdir i k.mem)) j
              (pte_addr (entry pgdir n k.mem)) m v (d.table i hi p).0.aligned
              (d.table n h q).0.aligned hj h' (elsewhere e q))
      in_table (inr q) = rw q refl

  pub put-IsDir : IsDir put pgdir
  put-IsDir = record {
    valid = record {
      free_lock = d.valid.free_lock;
      pages = Free-same k put k.freelist refl d.valid.pages;
    };
    dir = IsPage-same k put pgdir refl d.dir;
    dir_used = d.dir_used;
    table = λ n h q.
        let e = dir_kept n h in
        subst (λ w. IsPage put (pte_addr w) × (pte_addr w ≢ pgdir) × Fresh (pte_addr w) k.freelist)
          (sym e)
          (let (x, y, z) = d.table n h (sym (ap is_present e) ∙ q) in
            (IsPage-same k put (pte_addr (entry pgdir n k.mem)) refl x, y, z));
    apart = λ n m h h' x q q' z.
        d.apart n m h h' x (sym (ap is_present (dir_kept n h)) ∙ q)
          (sym (ap is_present (dir_kept m h')) ∙ q')
          (sym (ap pte_addr (dir_kept n h)) ∙ z ∙ ap pte_addr (dir_kept m h'));
  }
