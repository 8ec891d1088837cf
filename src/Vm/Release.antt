-- ===== src/Vm/Release.antt =====
-- A round of deallocuvm: the frame that it frees, and the entry that it clears.
use cs_577_p.Base.{
  ℕ, ◌+◌, ◌*◌, ◌/◌, ◌%◌, ◌^◌, ◌<◌, ◌≡◌, ◌≢◌, ◌⊎◌, inl, inr, refl, sym, ap, ◌∙◌, arith, true, false,
  ◌==◌, Bool-cases, none, some, ok,
}
use mathlib.Core.Path.{subst}
use cs_577_p.Spinlock.{Cpu}
use cs_577_p.Syscall.{word_at}
use cs_577_p.Kalloc.{Kmem, pgsize, kfree}
use cs_577_p.Kalloc.Pages.{freed}
use cs_577_p.Vm.{entry, is_present, pte_addr, pdx, ptx, store_word, with_mem, walkpgdir}
use cs_577_p.Vm.Space.{free_page}
use cs_577_p.Vm.Tables.{IsDir}
use cs_577_p.Vm.NewTable.{IsPage-same}
use cs_577_p.Vm.Put.{put, put_self, put_ne, put-IsDir, dir_kept}
use cs_577_p.Vm.Mapping.{pte_at}
use cs_577_p.Vm.Owned.{user_pages, frame_at, IsFrame, IsSpace, free_dir, free_ptes, free-IsDir}

-- walkpgdir without `create`.
module _ (k : Kmem) (c : Cpu) (pgdir x : ℕ) (hx : x < 2 ^ 20) where
  pub walk_finds :
      is_present (entry pgdir (x / 1024) k.mem) ≡ true
      → walkpgdir pgdir (x * pgsize) false k c
        ≡ ok (some (pte_addr (entry pgdir (x / 1024) k.mem) + 4 * (x % 1024)), k, c)
  unfolding walkpgdir
  walk_finds p =
      let i : pdx (x * pgsize) ≡ x / 1024 = omega arith in
      let j : ptx (x * pgsize) ≡ x % 1024 = omega arith in rw (i, j) (rw p refl)

  pub walk_misses :
      is_present (entry pgdir (x / 1024) k.mem) ≡ false
      → walkpgdir pgdir (x * pgsize) false k c ≡ ok (none, k, c)
  unfolding walkpgdir
  walk_misses p = let i : pdx (x * pgsize) ≡ x / 1024 = omega arith in rw i (rw p refl)

module _ (k k1 : Kmem) (c c1 : Cpu) (pgdir a pte : ℕ) where
  pub free_page_absent :
      walkpgdir pgdir a false k c ≡ ok (some pte, k, c)
      → is_present (word_at k.mem pte) ≡ false
      → free_page pgdir a k c ≡ ok (k, c)
  unfolding free_page
  free_page_absent e p = rw e (rw p refl)

  pub free_page_present :
      walkpgdir pgdir a false k c ≡ ok (some pte, k, c)
      → is_present (word_at k.mem pte) ≡ true
      → (pte_addr (word_at k.mem pte) == 0) ≡ false
      → kfree (pte_addr (word_at k.mem pte)) k c ≡ ok (k1, c1)
      → free_page pgdir a k c ≡ ok (with_mem (store_word pte 0) k1, c1)
  unfolding free_page
  free_page_present e p z f = rw e (rw p (rw z (rw f refl)))

-- What a round of deallocuvm leaves, for page `x`.
pub record Released (k : Kmem) (pgdir x : ℕ) (k' : Kmem) : Type 0 where
  pub space : IsSpace k' pgdir
  pub gone : is_present (pte_at pgdir x k'.mem) ≡ false
  pub kept : (z : ℕ) → z < 2 ^ 20 → x ≢ z → pte_at pgdir z k'.mem ≡ pte_at pgdir z k.mem

-- The frame of page `x` is freed and its entry cleared.
module _ (k : Kmem) (pgdir x : ℕ) (s : IsSpace k pgdir) (hx : x < user_pages)
    (there : is_present (entry pgdir (x / 1024) k.mem) ≡ true)
    (p : is_present (pte_at pgdir x k.mem) ≡ true) where
  pub owned : IsFrame k pgdir (frame_at pgdir x k)
  owned = s.frame x hx p

  pub k1_dir : IsDir (freed (frame_at pgdir x k) k) pgdir
  k1_dir = free-IsDir k pgdir (frame_at pgdir x k) s.is_dir owned

  pub k1_there : is_present (entry pgdir (x / 1024) (freed (frame_at pgdir x k) k).mem) ≡ true
  k1_there =
      ap is_present (free_dir k pgdir (frame_at pgdir x k) s.is_dir owned (x / 1024) (omega arith))
      ∙ there

  abbrev pub cleared : Kmem
  cleared =
      put (freed (frame_at pgdir x k) k) pgdir (x / 1024) (x % 1024) 0 k1_dir (omega arith)
        (omega arith) (omega arith) k1_there

  cleared_dir : (i : ℕ) → i < 1024 → entry pgdir i cleared.mem ≡ entry pgdir i k.mem
  cleared_dir i h =
      dir_kept (freed (frame_at pgdir x k) k) pgdir (x / 1024) (x % 1024) 0 k1_dir (omega arith)
        (omega arith) (omega arith) k1_there i h
      ∙ free_dir k pgdir (frame_at pgdir x k) s.is_dir owned i h

  cleared_self : pte_at pgdir x cleared.mem ≡ 0
  cleared_self =
      put_self (freed (frame_at pgdir x k) k) pgdir (x / 1024) (x % 1024) 0 k1_dir (omega arith)
        (omega arith) (omega arith) k1_there

  cleared_ne : (z : ℕ) → z < 2 ^ 20 → x ≢ z → pte_at pgdir z cleared.mem ≡ pte_at pgdir z k.mem
  cleared_ne z h n =
      put_ne (freed (frame_at pgdir x k) k) pgdir (x / 1024) (x % 1024) 0 k1_dir (omega arith)
        (omega arith) (omega arith) k1_there (z / 1024) (z % 1024) (omega arith) (omega arith)
        (apart (Bool-cases (x / 1024 == z / 1024)))
      ∙ free_ptes k pgdir (frame_at pgdir x k) s.is_dir owned (z / 1024) (z % 1024) (omega arith)
          (omega arith)
    where
      apart :
          (x / 1024 == z / 1024 ≡ true) ⊎ (x / 1024 == z / 1024 ≡ false)
          → (x / 1024 ≢ z / 1024) ⊎ (x % 1024 ≢ z % 1024)
      apart (inl e) = inr (ground arith)
      apart (inr e) = inl (ground arith)

  -- A page that is still mapped is another one.
  still : (z : ℕ) → is_present (pte_at pgdir z cleared.mem) ≡ true → x ≢ z
  still z q e =
      let y : is_present 0 ≡ true =
        sym (ap is_present (ap (λ w. pte_at pgdir w cleared.mem) (sym e) ∙ cleared_self)) ∙ q in
      cc y

  cleared-IsSpace : IsSpace cleared pgdir
  cleared-IsSpace = record {
    is_dir =
        put-IsDir (freed (frame_at pgdir x k) k) pgdir (x / 1024) (x % 1024) 0 k1_dir (omega arith)
          (omega arith) (omega arith) k1_there;
    based = s.based;
    frame = λ z h q.
        let n = still z q in
        let e = cleared_ne z (omega arith) n in
        let q' = sym (ap is_present e) ∙ q in
        let f = s.frame z h q' in
        subst (IsFrame cleared pgdir) (sym (ap pte_addr e)) (record {
          page = IsPage-same k cleared (frame_at pgdir z k) refl f.page;
          no_dir = f.no_dir;
          used = (s.distinct x z hx h n p q', f.used);
          no_table = λ i l r w.
              f.no_table i l (sym (ap is_present (cleared_dir i l)) ∙ r)
                (w ∙ ap pte_addr (cleared_dir i l));
        });
    distinct = λ z y h h' n q r w.
        let e = cleared_ne z (omega arith) (still z q) in
        let e' = cleared_ne y (omega arith) (still y r) in
        s.distinct z y h h' n (sym (ap is_present e) ∙ q) (sym (ap is_present e') ∙ r)
          (sym (ap pte_addr e) ∙ w ∙ ap pte_addr e');
  }

  pub cleared-Released : Released k pgdir x cleared
  cleared-Released = record {
    space = cleared-IsSpace;
    gone = ap is_present cleared_self;
    kept = cleared_ne;
  }
