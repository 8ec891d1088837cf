-- ===== src/Kalloc/Tests.antt =====
-- An allocator with two free pages.
use cs_577_p.Base.{ℕ, ◌≡◌, refl, true, false, Option, none, some, ◌⊎◌, [], ◌∷◌, ok, arith}
use cs_577_p.Spinlock.{Cpu, unlocked}
use cs_577_p.Spinlock.Laws.{IsNested}
use cs_577_p.Kalloc.{Kmem, kalloc, kinit}
use cs_577_p.Kalloc.Pages.{IsPage, IsValid, taken, calm, kalloc_ok}
use cs_577_p.Kalloc.Runs.{Run, start, served, kalloc_once}
use cs_577_p.Mutex.Invariant.{elem}
use cs_577_p.Kalloc.Init.{On, kinit_complete}

abbrev cpu_zero : Cpu
cpu_zero = record { id = 0; ncli = 0; intena = false; flag_if = true }

cpu_zero-IsNested : IsNested cpu_zero
cpu_zero-IsNested h = absurd (omega arith)

abbrev two_pages : Kmem
two_pages = record {
  lock = unlocked;
  freelist = 0x200000 ∷ 0x300000 ∷ [];
  kernel_end = 0x110000;
  mem = λ a. 0;
}

two_pages-IsValid : IsValid two_pages
two_pages-IsValid = record {
  free_lock = refl;
  pages = (
    record { aligned = omega arith; above = omega arith; below = omega arith },
    (omega arith, tt),
    (record { aligned = omega arith; above = omega arith; below = omega arith }, tt, tt),
  );
}

-- One page is handed out.
first_served : Run two_pages cpu_zero (taken two_pages) (calm cpu_zero) (0x200000 ∷ [])
first_served = served start (kalloc_ok two_pages cpu_zero cpu_zero-IsNested refl)

kalloc_once_example :
    (r : Option ℕ) × (k2 : Kmem) × (c2 : Cpu) × (kalloc (taken two_pages) (calm cpu_zero)
      ≡ ok (r, k2, c2))
    × (((r ≡ none) × ((taken two_pages).freelist ≡ []))
        ⊎ ((v : ℕ) × (r ≡ some v) × IsPage (taken two_pages) v × (elem v (0x200000 ∷ []) ≡ false)))
kalloc_once_example =
    kalloc_once two_pages (taken two_pages) cpu_zero (calm cpu_zero) (0x200000 ∷ [])
      cpu_zero-IsNested two_pages-IsValid first_served

abbrev at_boot : Kmem
at_boot = record two_pages { freelist = [] }

kinit_complete_example :
    (k' : Kmem) × (d : Cpu) × (kinit at_boot cpu_zero ≡ ok (k', d))
    × IsValid k'
    × ((v : ℕ) → IsPage at_boot v → On v k'.freelist)
    × (d.flag_if ≡ cpu_zero.flag_if)
kinit_complete_example = kinit_complete at_boot cpu_zero cpu_zero-IsNested (omega arith) refl
