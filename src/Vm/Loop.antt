-- ===== src/Vm/Loop.antt =====
-- mappages: the loop over the pages.
use cs_577_p.Base.{
  ℕ, zero, suc, ◌+◌, ◌-◌, ◌*◌, ◌/◌, ◌%◌, ◌^◌, ◌≤◌, ◌<◌, ◌≡◌, inl, inr, refl, ap, ◌∙◌, arith, Bool,
  true, false, ◌==◌, ok,
}
use cs_577_p.Spinlock.{Cpu}
use cs_577_p.Spinlock.Laws.{IsNested}
use cs_577_p.Kalloc.{Kmem, pgsize}
use cs_577_p.Vm.{is_present, map_from, mappages, map_rounds, pgrounddown}
use cs_577_p.Vm.Tables.{IsDir}
use cs_577_p.Vm.Walk.{walk_creates}
use cs_577_p.Vm.Mapping.{frame_word, pte_at, Put, map_page_lem}
use cs_577_p.Vm.Rounds.{
  Mapped, Absent, MapsTo, first_round, loop_full, one_page, one_more, next_round,
}

map_from_lem :
    (n x f perm pgdir : ℕ) (k : Kmem) (c : Cpu)
    → x + n < 2 ^ 20
    → f + n < 2 ^ 20
    → perm < 8
    → IsNested c
    → IsDir k pgdir
    → Absent k pgdir x n
    → MapsTo n x f perm pgdir k c
map_from_lem zero x f perm pgdir k c hx hf hp nc d absent =
    elim (walk_creates k c pgdir (x * pgsize) nc d) [
      | inl (e, l) ↦ loop_full zero x f perm pgdir k c nc d e l
      | inr (pte, k1, c1, e, w) ↦
          let (k2, e', p) =
            map_page_lem k pgdir x pte f perm k1 c1 (omega arith) (omega arith) hp w
              (absent_here 0) in
          (
            true,
            k2,
            c1,
            first_round 0 pgdir (x * pgsize) ((x + 0) * pgsize) (f * pgsize) perm pte k k1 k2 c c1 e
                  e'
                ∙ rw at_last refl,
            one_page x f perm pgdir k k2 c1 w.nested p,
          )
    ]
  where
    absent_here : (i : ℕ) → is_present (pte_at pgdir x k.mem) ≡ false
    absent_here i =
        ap (λ a. is_present (pte_at pgdir a k.mem)) (omega arith) ∙ absent 0 (omega arith)

    at_last : (x * pgsize == (x + 0) * pgsize) ≡ true
    at_last = ground arith
map_from_lem (suc m) x f perm pgdir k c hx hf hp nc d absent =
    elim (walk_creates k c pgdir (x * pgsize) nc d) [
      | inl (e, l) ↦ loop_full (suc m) x f perm pgdir k c nc d e l
      | inr (pte, k1, c1, e, w) ↦
          let (k2, e', p) =
            map_page_lem k pgdir x pte f perm k1 c1 (omega arith) (omega arith) hp w
              (absent_here 0) in
          let (r, k', c', e'', q) =
            map_from_lem m (x + 1) (f + 1) perm pgdir k2 c1 (omega arith) (omega arith) hp w.nested
              p.is_dir (absent_next k2 p) in
          (
            r,
            k',
            c',
            first_round (suc m) pgdir (x * pgsize) ((x + suc m) * pgsize) (f * pgsize) perm pte k k1
                  k2 c c1 e e'
                ∙ next_round m x f perm pgdir k2 c1 (ok (r, k', c')) hx hf e'',
            one_more m x f perm pgdir k k2 r k' c' hx p q,
          )
    ]
  where
    absent_here : (i : ℕ) → is_present (pte_at pgdir x k.mem) ≡ false
    absent_here i =
        ap (λ a. is_present (pte_at pgdir a k.mem)) (omega arith) ∙ absent 0 (omega arith)

    absent_next : (k2 : Kmem) → Put k pgdir x (frame_word f perm) k2 → Absent k2 pgdir (x + 1) m
    absent_next k2 p i h =
        ap is_present (p.kept (x + 1 + i) (omega arith) (omega arith))
        ∙ ap (λ a. is_present (pte_at pgdir a k.mem)) (omega arith)
        ∙ absent (suc i) (omega arith)

-- For a block that is not empty and ends below 4 GB, of whose pages none is mapped: mappages returns,
-- and the directory stays well formed. It maps every page of the block to its frame, from the one at
-- `pa` on, or, if it returns -1, no page is free. The entries of all other pages stay as they are.
pub mappages_lem :
    (pgdir la size f perm : ℕ) (k : Kmem) (c : Cpu)
    → 0 < size
    → la + size ≤ 2 ^ 32
    → f * pgsize + size ≤ 2 ^ 32 - pgsize
    → perm < 8
    → IsNested c
    → IsDir k pgdir
    → Absent k pgdir (la / pgsize) ((la + size - 1) / pgsize - la / pgsize)
    → (r : Bool) × (k' : Kmem) × (c' : Cpu) × (mappages pgdir la size (f * pgsize) perm k c
        ≡ ok (r, k', c'))
      × Mapped k pgdir (la / pgsize) ((la + size - 1) / pgsize - la / pgsize) f perm r k' c'
unfolding mappages
mappages_lem pgdir la size f perm k c hs hl hf hp nc d absent =
    let n = (la + size - 1) / pgsize - la / pgsize in
    let (r, k', c', e, m) =
      map_from_lem n (la / pgsize) f perm pgdir k c (omega arith) (omega arith) hp nc d absent in
    (
      r,
      k',
      c',
      ap
            (λ a.
              map_from (map_rounds (pgrounddown la) a) pgdir (pgrounddown la) a (f * pgsize) perm k
                c)
            last_page
          ∙ ap
              (λ a.
                map_from a pgdir (pgrounddown la) ((la / pgsize + n) * pgsize) (f * pgsize) perm k
                  c)
              rounds
          ∙ e,
      m,
    )
  where
    last_page :
        pgrounddown ((la + size + 2 ^ 32 - 1) % 2 ^ 32)
        ≡ (la / pgsize + ((la + size - 1) / pgsize - la / pgsize)) * pgsize
    last_page = omega arith

    rounds :
        map_rounds
          (pgrounddown la)
          ((la / pgsize + ((la + size - 1) / pgsize - la / pgsize)) * pgsize)
        ≡ suc ((la + size - 1) / pgsize - la / pgsize)
    rounds = omega arith
