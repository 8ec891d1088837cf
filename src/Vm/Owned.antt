-- ===== src/Vm/Owned.antt =====
-- The frames of a process: each is a page of its own, and what freeing one leaves.
use cs_577_p.Base.{
  ℕ, ◌<◌, ◌≡◌, ◌≢◌, ◌⊎◌, inl, inr, refl, sym, ap, ◌∙◌, true, false, if◌then◌else◌, Bool-cases,
}
use mathlib.Core.Path.{subst}
use cs_577_p.Kalloc.{Kmem}
use cs_577_p.Kalloc.Pages.{IsPage, Fresh, Free-same, freed}
use cs_577_p.Vm.{entry, is_present, pte_addr}
use cs_577_p.Vm.Tables.{pte_of, IsDir, entry-freed_ne}
use cs_577_p.Vm.NewTable.{IsPage-same}
use cs_577_p.Vm.Mapping.{pte_at}

-- The pages of user memory.
abbrev pub user_pages : ℕ
user_pages = 160

abbrev pub frame_at : ℕ → ℕ → Kmem → ℕ
frame_at pgdir z k = pte_addr (pte_at pgdir z k.mem)

-- A page that is in use for no directory or table, and not free.
pub record IsFrame (k : Kmem) (pgdir f : ℕ) : Type 0 where
  pub page : IsPage k f
  pub no_dir : f ≢ pgdir
  pub used : Fresh f k.freelist
  pub no_table :
      (i : ℕ)
      → i < 1024
      → is_present (entry pgdir i k.mem) ≡ true
      → f ≢ pte_addr (entry pgdir i k.mem)

-- A directory whose user pages have frames of their own.
pub record IsSpace (k : Kmem) (pgdir : ℕ) : Type 0 where
  pub is_dir : IsDir k pgdir
  pub based : 0 < k.kernel_end
  pub frame :
      (z : ℕ)
      → z < user_pages
      → is_present (pte_at pgdir z k.mem) ≡ true
      → IsFrame k pgdir (frame_at pgdir z k)
  pub distinct :
      (z y : ℕ)
      → z < user_pages
      → y < user_pages
      → z ≢ y
      → is_present (pte_at pgdir z k.mem) ≡ true
      → is_present (pte_at pgdir y k.mem) ≡ true
      → frame_at pgdir z k ≢ frame_at pgdir y k

-- Freeing a frame changes no entry.
module _ (k : Kmem) (pgdir f : ℕ) (d : IsDir k pgdir) (u : IsFrame k pgdir f) where
  abbrev pub after_free : Kmem
  after_free = freed f k

  pub free_dir : (i : ℕ) → i < 1024 → entry pgdir i after_free.mem ≡ entry pgdir i k.mem
  free_dir i h = entry-freed_ne k f pgdir i u.page.aligned d.dir.aligned u.no_dir h

  pub free_ptes :
      (i j : ℕ) → i < 1024 → j < 1024 → pte_of pgdir i j after_free.mem ≡ pte_of pgdir i j k.mem
  free_ptes i j h h' =
      ap (λ w. if is_present w then entry (pte_addr w) j after_free.mem else 0) (free_dir i h)
      ∙ in_table (Bool-cases (is_present (entry pgdir i k.mem)))
    where
      in_table :
          (is_present (entry pgdir i k.mem) ≡ true) ⊎ (is_present (entry pgdir i k.mem) ≡ false)
          → (if is_present (entry pgdir i k.mem)
              then entry (pte_addr (entry pgdir i k.mem)) j after_free.mem
              else 0)
            ≡ pte_of pgdir i j k.mem
      in_table (inl q) =
          ap (λ x. if is_present (entry pgdir i k.mem) then x else 0)
            (entry-freed_ne k f (pte_addr (entry pgdir i k.mem)) j u.page.aligned
              (d.table i h q).0.aligned (u.no_table i h q) h')
      in_table (inr q) = rw q refl

  pub free-IsDir : IsDir after_free pgdir
  free-IsDir = record {
    valid = record {
      free_lock = refl;
      pages = (
        IsPage-same k after_free f refl u.page,
        u.used,
        Free-same k after_free k.freelist refl d.valid.pages,
      );
    };
    dir = IsPage-same k after_free pgdir refl d.dir;
    dir_used = (u.no_dir, d.dir_used);
    table = λ i h p.
        let e = free_dir i h in
        let q = sym (ap is_present e) ∙ p in
        subst
          (λ w.
            IsPage after_free (pte_addr w)
            × (pte_addr w ≢ pgdir)
            × Fresh (pte_addr w) after_free.freelist)
          (sym e)
          (let (x, y, z) = d.table i h q in
            (
              IsPage-same k after_free (pte_addr (entry pgdir i k.mem)) refl x,
              y,
              (u.no_table i h q, z),
            ));
    apart = λ i j h h' n p q z.
        d.apart i j h h' n (sym (ap is_present (free_dir i h)) ∙ p)
          (sym (ap is_present (free_dir j h')) ∙ q)
          (sym (ap pte_addr (free_dir i h)) ∙ z ∙ ap pte_addr (free_dir j h'));
  }
