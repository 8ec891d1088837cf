-- ===== src/Vm/Dealloc.antt =====
-- deallocuvm: the pages that it unmaps, and those that it leaves.
use cs_577_p.Base.{
  ℕ, zero, suc, ◌+◌, ◌-◌, ◌*◌, ◌/◌, ◌^◌, ◌≤◌, ◌<◌, ◌≡◌, ◌≢◌, ◌⊎◌, inl, inr, refl, ap, ◌∙◌, arith,
  true, false, ◌==◌, ltb, leb, Bool-cases, ok, ◌>>=◌,
}
use cs_577_p.Spinlock.{Cpu}
use cs_577_p.Spinlock.Laws.{IsNested}
use cs_577_p.Kalloc.{Kmem, pgsize, pgroundup}
use cs_577_p.Vm.{is_present, usertop}
use cs_577_p.Vm.Space.{free_page, free_from, deallocuvm}
use cs_577_p.Vm.Mapping.{pte_at}
use cs_577_p.Vm.Owned.{user_pages, IsSpace}
use cs_577_p.Vm.Release.{Released}
use cs_577_p.Vm.Shrink.{free_page_lem}

-- What deallocuvm leaves, from page `x` up to the address `oldsz`.
pub record Shrunk (k : Kmem) (pgdir x oldsz : ℕ) (k' : Kmem) : Type 0 where
  pub space : IsSpace k' pgdir
  pub gone : (z : ℕ) → x ≤ z → z * pgsize < oldsz → is_present (pte_at pgdir z k'.mem) ≡ false
  pub kept :
      (z : ℕ)
      → z < 2 ^ 20
      → (z < x) ⊎ (oldsz ≤ z * pgsize)
      → pte_at pgdir z k'.mem ≡ pte_at pgdir z k.mem

abbrev Frees : ℕ → Kmem → Cpu → ℕ → ℕ → ℕ → Type 0
Frees n k c pgdir x oldsz =
    (k' : Kmem) × (c' : Cpu) × (free_from n pgdir (x * pgsize) oldsz k c ≡ ok (k', c'))
    × IsNested c'
    × Shrunk k pgdir x oldsz k'

free_from-step :
    (n : ℕ) (k k1 : Kmem) (c c1 : Cpu) (pgdir x oldsz : ℕ)
    → x < user_pages
    → ltb (x * pgsize) oldsz ≡ true
    → free_page pgdir (x * pgsize) k c ≡ ok (k1, c1)
    → free_from (suc n) pgdir (x * pgsize) oldsz k c
      ≡ free_from n pgdir ((x + 1) * pgsize) oldsz k1 c1
unfolding free_from
free_from-step n k k1 c c1 pgdir x oldsz hx t e =
    rw (t, free_from) (rw e (ap (λ a. free_from n pgdir a oldsz k1 c1) (omega arith)))

free_from-stop :
    (n : ℕ) (k : Kmem) (c : Cpu) (pgdir x oldsz : ℕ)
    → ltb (x * pgsize) oldsz ≡ false
    → free_from (suc n) pgdir (x * pgsize) oldsz k c ≡ ok (k, c)
unfolding free_from
free_from-stop n k c pgdir x oldsz t = rw (t, free_from) refl

Shrunk-step :
    (k k1 k' : Kmem) (pgdir x oldsz : ℕ)
    → oldsz ≤ usertop
    → x * pgsize < oldsz
    → Released k pgdir x k1
    → Shrunk k1 pgdir (x + 1) oldsz k'
    → Shrunk k pgdir x oldsz k'
Shrunk-step k k1 k' pgdir x oldsz top lt r s = record {
  space = s.space;
  gone = λ z h h'. gone z h h' (Bool-cases (x == z));
  kept = λ z h o. s.kept z h (wider z o) ∙ r.kept z h (other z o);
}
  where
    wider : (z : ℕ) → (z < x) ⊎ (oldsz ≤ z * pgsize) → (z < x + 1) ⊎ (oldsz ≤ z * pgsize)
    wider z (inl h) = inl (omega arith)
    wider z (inr h) = inr h

    other : (z : ℕ) → (z < x) ⊎ (oldsz ≤ z * pgsize) → x ≢ z
    other z (inl h) = omega arith
    other z (inr h) = λ e. absurd (omega arith)

    gone :
        (z : ℕ)
        → x ≤ z
        → z * pgsize < oldsz
        → (x == z ≡ true) ⊎ (x == z ≡ false)
        → is_present (pte_at pgdir z k'.mem) ≡ false
    gone z h h' (inl e) =
        ap is_present (s.kept z (omega arith) (inl (ground arith)))
        ∙ ap (λ w. is_present (pte_at pgdir w k1.mem)) (ground arith)
        ∙ r.gone
    gone z h h' (inr e) = s.gone z (ground arith) h'

Frees-nothing :
    (m : ℕ) (k : Kmem) (c : Cpu) (pgdir x oldsz : ℕ)
    → IsNested c
    → IsSpace k pgdir
    → ltb (x * pgsize) oldsz ≡ false
    → Frees (suc m) k c pgdir x oldsz
Frees-nothing m k c pgdir x oldsz nc s e = (
  k,
  c,
  free_from-stop m k c pgdir x oldsz e,
  nc,
  record {
    space = s;
    gone = λ z h h'. let past : oldsz ≤ x * pgsize = ground arith in absurd (omega arith);
    kept = λ z h o. refl;
  },
)

free_from_lem :
    (n : ℕ) (k : Kmem) (c : Cpu) (pgdir x oldsz : ℕ)
    → oldsz ≤ usertop
    → oldsz ≤ (x + n) * pgsize
    → IsNested c
    → IsSpace k pgdir
    → Frees (suc n) k c pgdir x oldsz
free_from_lem zero k c pgdir x oldsz top enough nc s = elim (Bool-cases (ltb (x * pgsize) oldsz)) [
  | inl e ↦ let lt : x * pgsize < oldsz = ground arith in absurd (omega arith)
  | inr e ↦ Frees-nothing zero k c pgdir x oldsz nc s e
]
free_from_lem (suc m) k c pgdir x oldsz top enough nc s =
    elim (Bool-cases (ltb (x * pgsize) oldsz)) [
      | inr e ↦ Frees-nothing (suc m) k c pgdir x oldsz nc s e
      | inl e ↦
          let lt : x * pgsize < oldsz = ground arith in
          let (k1, c1, e1, nc1, r) = free_page_lem k c pgdir x nc s (omega arith) in
          let (k', c', e', nc', t) =
            free_from_lem m k1 c1 pgdir (x + 1) oldsz top (omega arith) nc1 r.space in
          (
            k',
            c',
            free_from-step (suc m) k k1 c c1 pgdir x oldsz (omega arith) e e1 ∙ e',
            nc',
            Shrunk-step k k1 k' pgdir x oldsz top lt r t,
          )
    ]

-- For a process whose user pages have frames of their own, deallocuvm from `oldsz`, within user memory,
-- down to `newsz` returns `newsz`. No page from the one behind `newsz` up to `oldsz` is mapped any
-- more, the entries of all other pages are as they were, and the pages that are left have frames of
-- their own, none of them free.
pub deallocuvm_lem :
    (pgdir oldsz newsz : ℕ) (k : Kmem) (c : Cpu)
    → newsz < oldsz
    → oldsz ≤ usertop
    → IsNested c
    → IsSpace k pgdir
    → (k' : Kmem) × (c' : Cpu) × (deallocuvm pgdir oldsz newsz k c ≡ ok (newsz, k', c'))
      × IsNested c'
      × Shrunk k pgdir ((newsz + pgsize - 1) / pgsize) oldsz k'
unfolding deallocuvm
deallocuvm_lem pgdir oldsz newsz k c lt top nc s =
    let x = (newsz + pgsize - 1) / pgsize in
    let (k', c', e, nc', t) =
      free_from_lem (oldsz / pgsize + 1) k c pgdir x oldsz top (omega arith) nc s in
    let rounds : oldsz / pgsize + 2 ≡ suc (oldsz / pgsize + 1) = omega arith in
    let start : pgroundup newsz ≡ x * pgsize = omega arith in
    let shrinks : leb oldsz newsz ≡ false = ground arith in
    (
      k',
      c',
      rw (shrinks, deallocuvm)
          (ap (λ a. free_from a pgdir (pgroundup newsz) oldsz k c >>= λ r. ok (newsz, r.0, r.1))
              rounds
            ∙ ap
                (λ a. free_from (suc (oldsz / pgsize + 1)) pgdir a oldsz k c >>= λ r.
                  ok (newsz, r.0, r.1))
                start
            ∙ ap (λ m. m >>= λ r. ok (newsz, r.0, r.1)) e),
      nc',
      t,
    )
