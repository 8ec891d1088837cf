-- ===== src/Kalloc/Init.antt =====
-- kinit puts every page between the end of the kernel and PHYSTOP on the free list.
use cs_577_p.Base.{
  ℕ, zero, suc, ◌+◌, ◌*◌, ◌%◌, ◌≤◌, ◌<◌, ◌≡◌, refl, true, false, List, [], ◌∷◌, ok, ◌==◌, leb,
  arith, ◌∙◌, ◌⊎◌, inl, inr, Bool-cases,
}
use cs_577_p.Spinlock.{Cpu, initlock}
use cs_577_p.Spinlock.Laws.{IsNested}
use cs_577_p.Kalloc.{Kmem, pgsize, phystop, pgroundup, kfree, kinit_from, kinit}
use cs_577_p.Kalloc.Pages.{IsPage, Fresh, Free-same, IsValid, freed, calm, kfree_ok}

-- `v` is on the list.
abbrev pub On : ℕ → List ℕ → Type 0
On v [] = ⊥
On v (x ∷ xs) = (x ≡ v) ⊎ On v xs

abbrev AllBelow : ℕ → List ℕ → Type 0
AllBelow p [] = Unit
AllBelow p (x ∷ xs) = (x < p) × AllBelow p xs

AllBelow-Fresh : (p : ℕ) (xs : List ℕ) → AllBelow p xs → Fresh p xs
AllBelow-Fresh p [] h = tt
AllBelow-Fresh p (x ∷ xs) h = (omega arith, AllBelow-Fresh p xs h.1)

AllBelow-mono : (p q : ℕ) (xs : List ℕ) → p ≤ q → AllBelow p xs → AllBelow q xs
AllBelow-mono p q [] l h = tt
AllBelow-mono p q (x ∷ xs) l h = (omega arith, AllBelow-mono p q xs l h.1)

record Filled (p : ℕ) (k : Kmem) (c : Cpu) (k' : Kmem) (d : Cpu) : Type 0 where
  valid : IsValid k'
  same_end : k'.kernel_end ≡ k.kernel_end
  kept : (v : ℕ) → On v k.freelist → On v k'.freelist
  fills : (v : ℕ) → IsPage k v → p ≤ v → On v k'.freelist
  flag : d.flag_if ≡ c.flag_if

kinit_from_more :
    (fuel p : ℕ) (k : Kmem) (c : Cpu) {k' : Kmem} {d : Cpu}
    → leb (p + pgsize) phystop ≡ true
    → kfree p k c ≡ ok (k', d)
    → kinit_from (suc fuel) p k c ≡ kinit_from fuel (p + pgsize) k' d
unfolding kinit_from
kinit_from_more fuel p k c go e = rw (go, kinit_from) (rw e refl)

kinit_from_end :
    (fuel p : ℕ) (k : Kmem) (c : Cpu)
    → leb (p + pgsize) phystop ≡ false
    → kinit_from (suc fuel) p k c ≡ ok (k, c)
unfolding kinit_from
kinit_from_end fuel p k c stop = rw (stop, kinit_from) refl

kinit_from-Filled :
    (fuel p : ℕ) (k : Kmem) (c : Cpu)
    → IsNested c
    → IsValid k
    → p % pgsize ≡ 0
    → k.kernel_end ≤ p
    → AllBelow p k.freelist
    → phystop < p + fuel * pgsize
    → (k' : Kmem) × (d : Cpu) × (kinit_from fuel p k c ≡ ok (k', d)) × Filled p k c k' d
unfolding kinit_from
kinit_from-Filled zero p k c n v a e b f = (
  k,
  c,
  refl,
  record {
    valid = v;
    same_end = refl;
    kept = λ w h. h;
    fills = λ w h q. absurd (omega (arith, h.below));
    flag = refl;
  },
)
kinit_from-Filled (suc fuel) p k c n v a e b f = elim (Bool-cases (leb (p + pgsize) phystop)) [
  | inr stop ↦ (
    k,
    c,
    kinit_from_end fuel p k c stop,
    record {
      valid = v;
      same_end = refl;
      kept = λ w h. h;
      fills = λ w h q. absurd (ground (arith, h.below, h.aligned));
      flag = refl;
    },
  )
  | inl go ↦
      let page : IsPage k p = record { aligned = a; above = e; below = ground arith } in
      let k1 : Kmem = freed p k in
      let v1 : IsValid k1 = record {
        free_lock = refl;
        pages = (
          record { aligned = a; above = e; below = page.below },
          AllBelow-Fresh p k.freelist b,
          Free-same k k1 k.freelist refl v.pages,
        );
      } in
      let (k2, d, q, r) =
        kinit_from-Filled fuel (p + pgsize) k1 (calm c) n v1 (omega arith) (omega arith)
          (omega arith, AllBelow-mono p (p + pgsize) k.freelist (omega arith) b) (omega arith) in
      (
        k2,
        d,
        kinit_from_more fuel p k c go (kfree_ok p k c n v.free_lock page) ∙ q,
        record {
          valid = r.valid;
          same_end = r.same_end;
          kept = λ w h. r.kept w (inr h);
          fills = λ w h le. first w h le r;
          flag = r.flag;
        },
      )
]
  where
    first :
        {k2 : Kmem} {d : Cpu} (w : ℕ)
        → IsPage k w
        → p ≤ w
        → Filled (p + pgsize) (freed p k) (calm c) k2 d
        → On w k2.freelist
    first w h le r = elim (Bool-cases (p == w)) [
      | inl same ↦ r.kept w (inl (ground arith))
      | inr other ↦
          r.fills w (record { aligned = h.aligned; above = h.above; below = h.below })
            (ground (arith, h.aligned))
    ]

-- kinit returns, with the fuel that it is given, for every kernel that ends below PHYSTOP. The
-- allocator is then valid, every page from the kernel's end on is on the free list, once, and
-- interrupts are as before.
pub kinit_complete :
    (k : Kmem) (c : Cpu)
    → IsNested c
    → k.kernel_end ≤ phystop
    → k.freelist ≡ []
    → (k' : Kmem) × (d : Cpu) × (kinit k c ≡ ok (k', d))
      × IsValid k'
      × ((v : ℕ) → IsPage k v → On v k'.freelist)
      × (d.flag_if ≡ c.flag_if)
unfolding kinit initlock
kinit_complete k c n small empty =
    let k0 : Kmem = record k { lock = initlock k.lock } in
    let (k', d, q, r) =
      kinit_from-Filled 4097 (pgroundup k.kernel_end) k0 c n
        (record { free_lock = refl; pages = rw empty tt }) (omega arith) (omega arith) (rw empty tt)
        (omega arith) in
    (
      k',
      d,
      q,
      r.valid,
      λ v h.
          r.fills v (record { aligned = h.aligned; above = h.above; below = h.below })
            (omega (arith, h.aligned, h.above)),
      r.flag,
    )
