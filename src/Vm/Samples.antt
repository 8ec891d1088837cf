-- ===== src/Vm/Samples.antt =====
-- An empty directory with two free pages, and one with a page that is mapped.
use cs_577_p.Base.{
  ℕ, ◌/◌, ◌%◌, ◌<◌, ◌≡◌, ◌≢◌, ◌⊎◌, inl, inr, refl, sym, ap, ◌∙◌, arith, true, false, [], ◌∷◌, ◌==◌,
  Bool-cases,
}
use mathlib.Core.Path.{subst}
use cs_577_p.Spinlock.{Cpu, unlocked}
use cs_577_p.Kalloc.{Kmem}
use cs_577_p.Vm.{entry, enter_table, is_present, pte_addr}
use cs_577_p.Vm.Tables.{IsDir}
use cs_577_p.Vm.NewTable.{after, after-IsDir, tables_after, same_ptes, Told}
use cs_577_p.Vm.Put.{put, put-IsDir, put_self, put_ne, dir_kept}
use cs_577_p.Vm.Mapping.{pte_at}
use cs_577_p.Vm.Owned.{user_pages, IsFrame, IsSpace}

abbrev pub calm_cpu : Cpu
calm_cpu = record { id = 0; ncli = 0; intena = false; flag_if = true }

abbrev pub two_pages : Kmem
two_pages = record {
  lock = unlocked;
  freelist = 0x201000 ∷ 0x202000 ∷ [];
  kernel_end = 0x100000;
  mem = λ a. 0;
}

pub two_pages-IsDir : IsDir two_pages 0x200000
unfolding entry
two_pages-IsDir = record {
  valid = record {
    free_lock = refl;
    pages = (
      record { aligned = refl; above = omega arith; below = omega arith },
      (omega arith, tt),
      (record { aligned = refl; above = omega arith; below = omega arith }, tt, tt),
    );
  };
  dir = record { aligned = refl; above = omega arith; below = omega arith };
  dir_used = (omega arith, (omega arith, tt));
  table = λ i h p. absurd (ground arith);
  apart = λ i j h h' n p q. absurd (ground arith);
}

pub no_table : is_present (entry 0x200000 0 two_pages.mem) ≡ false
unfolding entry
no_table = refl

-- The directory with the page at 0x201000 as its first table.
abbrev pub with_table : Kmem
with_table = after two_pages 0x200000 4096 0x201000 (0x202000 ∷ []) two_pages-IsDir refl no_table

pub with_table-IsDir : IsDir with_table 0x200000
with_table-IsDir =
    after-IsDir two_pages 0x200000 4096 0x201000 (0x202000 ∷ []) two_pages-IsDir refl no_table

told :
    (i : ℕ)
    → i < 1024
    → Told two_pages 0x200000 4096 0x201000 (0x202000 ∷ []) two_pages-IsDir refl no_table i
told = tables_after two_pages 0x200000 4096 0x201000 (0x202000 ∷ []) two_pages-IsDir refl no_table

pub first_table : is_present (entry 0x200000 0 with_table.mem) ≡ true
first_table = at_first (told 0 (omega arith))
  where
    at_first :
        Told two_pages 0x200000 4096 0x201000 (0x202000 ∷ []) two_pages-IsDir refl no_table 0
        → is_present (entry 0x200000 0 with_table.mem) ≡ true
    at_first (inl (e, p, a)) = p
    at_first (inr (n, e)) = absurd (n refl)

-- Page 1 is mapped to the frame at 0x203000.
abbrev pub mapped_page : Kmem
mapped_page =
    put with_table 0x200000 0 1 0x203007 with_table-IsDir (omega arith) (omega arith) (omega arith)
      first_table

only_page :
    (z : ℕ)
    → z < user_pages
    → ((z ≡ 1) × (pte_at 0x200000 z mapped_page.mem ≡ 0x203007))
      ⊎ (is_present (pte_at 0x200000 z mapped_page.mem) ≡ false)
unfolding entry
only_page z h = elim (Bool-cases (z == 1)) [
  | inl e ↦
      let one : z ≡ 1 = ground arith in
      inl (
        one,
        ap (λ w. pte_at 0x200000 w mapped_page.mem) one
            ∙ put_self with_table 0x200000 0 1 0x203007 with_table-IsDir (omega arith) (omega arith)
                (omega arith) first_table,
      )
  | inr e ↦
      let other : 1 ≢ z % 1024 = ground arith in
      inr (
        ap is_present (
          put_ne with_table 0x200000 0 1 0x203007 with_table-IsDir (omega arith) (omega arith)
            (omega arith) first_table (z / 1024) (z % 1024) (omega arith) (omega arith) (inr other)
          ∙ same_ptes two_pages 0x200000 4096 0x201000 (0x202000 ∷ []) two_pages-IsDir refl no_table
              (z / 1024) (z % 1024) (omega arith) (omega arith)))
]

frame-IsFrame : IsFrame mapped_page 0x200000 0x203000
unfolding enter_table entry
frame-IsFrame = record {
  page = record { aligned = refl; above = omega arith; below = omega arith };
  no_dir = omega arith;
  used = (omega arith, tt);
  no_table = λ i h p.
      far i p
        (sym (
            ap is_present (
              dir_kept with_table 0x200000 0 1 0x203007 with_table-IsDir (omega arith) (omega arith)
                (omega arith) first_table i h))
          ∙ p)
        (dir_kept with_table 0x200000 0 1 0x203007 with_table-IsDir (omega arith) (omega arith)
          (omega arith) first_table i h)
        (told i h);
}
  where
    far :
        (i : ℕ)
        → is_present (entry 0x200000 i mapped_page.mem) ≡ true
        → is_present (entry 0x200000 i with_table.mem) ≡ true
        → entry 0x200000 i mapped_page.mem ≡ entry 0x200000 i with_table.mem
        → Told two_pages 0x200000 4096 0x201000 (0x202000 ∷ []) two_pages-IsDir refl no_table i
        → 0x203000 ≢ pte_addr (entry 0x200000 i mapped_page.mem)
    far i p q e (inl (x, y, a)) =
        λ z. let w : ◌≡◌ {A = ℕ} 0x203000 0x201000 = z ∙ ap pte_addr e ∙ a in absurd (omega arith)
    far i p q e (inr (x, y)) = absurd (let w = sym (ap is_present y) ∙ q in cc w)

low : 0 < mapped_page.kernel_end
unfolding enter_table
low = omega arith

pub mapped_page-IsSpace : IsSpace mapped_page 0x200000
mapped_page-IsSpace = record {
  is_dir =
      put-IsDir with_table 0x200000 0 1 0x203007 with_table-IsDir (omega arith) (omega arith)
        (omega arith) first_table;
  based = low;
  frame = λ z h p. framed z p (only_page z h);
  distinct = λ z y h h' n p q. absurd (alone z y n p q (only_page z h) (only_page y h'));
}
  where
    framed :
        (z : ℕ)
        → is_present (pte_at 0x200000 z mapped_page.mem) ≡ true
        → ((z ≡ 1) × (pte_at 0x200000 z mapped_page.mem ≡ 0x203007))
          ⊎ (is_present (pte_at 0x200000 z mapped_page.mem) ≡ false)
        → IsFrame mapped_page 0x200000 (pte_addr (pte_at 0x200000 z mapped_page.mem))
    framed z p (inl (one, e)) =
        subst (IsFrame mapped_page 0x200000) (sym (ap pte_addr e)) frame-IsFrame
    framed z p (inr e) = absurd (let w = sym e ∙ p in cc w)

    alone :
        (z y : ℕ)
        → z ≢ y
        → is_present (pte_at 0x200000 z mapped_page.mem) ≡ true
        → is_present (pte_at 0x200000 y mapped_page.mem) ≡ true
        → ((z ≡ 1) × (pte_at 0x200000 z mapped_page.mem ≡ 0x203007))
          ⊎ (is_present (pte_at 0x200000 z mapped_page.mem) ≡ false)
        → ((y ≡ 1) × (pte_at 0x200000 y mapped_page.mem ≡ 0x203007))
          ⊎ (is_present (pte_at 0x200000 y mapped_page.mem) ≡ false)
        → ⊥
    alone z y n p q (inl (e, a)) (inl (e', a')) = n (e ∙ sym e')
    alone z y n p q (inl a) (inr e) = let w = sym e ∙ q in cc w
    alone z y n p q (inr e) a = let w = sym e ∙ p in cc w
