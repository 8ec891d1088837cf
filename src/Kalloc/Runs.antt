-- ===== src/Kalloc/Runs.antt =====
-- Any number of calls of kalloc and kfree: no page is handed out twice.
use cs_577_p.Base.{
  ℕ, ◌≡◌, ◌≢◌, refl, sym, ap, ◌∙◌, true, false, Option, none, some, List, [], ◌∷◌, ok, Outcome,
  arith, ◌⊎◌, inl, inr, ◌==◌, if◌then◌else◌, Bool-cases,
}
use mathlib.Core.Path.{subst}
use cs_577_p.Spinlock.{Cpu}
use cs_577_p.Spinlock.Laws.{IsNested}
use cs_577_p.Mutex.Invariant.{elem}
use cs_577_p.Kalloc.{Kmem, kfree, kalloc, first_run, next_run}
use cs_577_p.Kalloc.Pages.{
  IsPage, Fresh, Free, IsValid, freed, taken, calm, kfree_ok, kalloc_ok, Free-same,
}

-- The list without its first `v`.
abbrev pub dropped : ℕ → List ℕ → List ℕ
dropped v [] = []
dropped v (x ∷ xs) = if x == v then xs else x ∷ dropped v xs

-- From an allocator and no page handed out to an allocator with the pages `held`, which kalloc has
-- returned and kfree has not got back. A page that is freed is one of them.
pub data Run (k : Kmem) (c : Cpu) : Kmem → Cpu → List ℕ → Type 0 where
  start : Run k c k c []
  served :
      {k1 k2 : Kmem} {c1 c2 : Cpu} {held : List ℕ} {v : ℕ}
      → Run k c k1 c1 held
      → kalloc k1 c1 ≡ ok (some v, k2, c2)
      → Run k c k2 c2 (v ∷ held)
  refused :
      {k1 k2 : Kmem} {c1 c2 : Cpu} {held : List ℕ}
      → Run k c k1 c1 held
      → kalloc k1 c1 ≡ ok (none, k2, c2)
      → Run k c k2 c2 held
  returned :
      {k1 k2 : Kmem} {c1 c2 : Cpu} {held : List ℕ} (v : ℕ)
      → Run k c k1 c1 held
      → elem v held ≡ true
      → kfree v k1 c1 ≡ ok (k2, c2)
      → Run k c k2 c2 (dropped v held)

-- The pages handed out are pages, each once, and none is on the list.
abbrev Out : Kmem → List ℕ → List ℕ → Type 0
Out k fl [] = Unit
Out k fl (x ∷ xs) = IsPage k x × Fresh x fl × Fresh x xs × Out k fl xs

record Inv (k : Kmem) (c : Cpu) (held : List ℕ) : Type 0 where
  valid : IsValid k
  nested : IsNested c
  out : Out k k.freelist held

IsPage-move : (k k' : Kmem) (v : ℕ) → k'.kernel_end ≡ k.kernel_end → IsPage k v → IsPage k' v
IsPage-move k k' v e p = record { aligned = p.aligned; above = rw e p.above; below = p.below }

-- The first page of the list is handed out.
Out-take :
    (k k' : Kmem) (v : ℕ) (fl held : List ℕ)
    → k'.kernel_end ≡ k.kernel_end
    → Out k (v ∷ fl) held
    → Fresh v held × Out k' fl held
Out-take k k' v fl [] e o = (tt, tt)
Out-take k k' v fl (x ∷ xs) e (p, (ne, f), f', o) =
    let (g, o') = Out-take k k' v fl xs e o in
    ((λ s. ne (sym s), g), (IsPage-move k k' x e p, f, f', o'))

dropped-Fresh : (x v : ℕ) (held : List ℕ) → Fresh x held → Fresh x (dropped v held)
dropped-Fresh x v [] f = tt
dropped-Fresh x v (y ∷ ys) f = elim (Bool-cases (y == v)) [
  | inl e ↦ rw e f.1
  | inr e ↦ rw e (f.0, dropped-Fresh x v ys f.1)
]

Fresh-elem : (x v : ℕ) (held : List ℕ) → Fresh x held → elem v held ≡ true → x ≢ v
Fresh-elem x v [] f m = absurd (ground arith)
Fresh-elem x v (y ∷ ys) f m = elim (Bool-cases (y == v)) [
  | inl e ↦ ground (arith, f.0)
  | inr e ↦ Fresh-elem x v ys f.1 (ground arith)
]

Out-more :
    (k k' : Kmem) (v : ℕ) (fl held : List ℕ)
    → k'.kernel_end ≡ k.kernel_end
    → Fresh v held
    → Out k fl held
    → Out k' (v ∷ fl) held
Out-more k k' v fl [] e g o = tt
Out-more k k' v fl (x ∷ xs) e (ne, g) (p, f, f', o) =
    (IsPage-move k k' x e p, (λ s. ne (sym s), f), f', Out-more k k' v fl xs e g o)

-- A page goes back to the list.
Out-give :
    (k k' : Kmem) (v : ℕ) (fl held : List ℕ)
    → k'.kernel_end ≡ k.kernel_end
    → elem v held ≡ true
    → Out k fl held
    → IsPage k v × Fresh v fl × Out k' (v ∷ fl) (dropped v held)
Out-give k k' v fl [] e m o = absurd (ground arith)
Out-give k k' v fl (x ∷ xs) e m (p, f, f', o) = elim (Bool-cases (x == v)) [
  | inl same ↦
      let s : x ≡ v = ground arith in
      rw same (
        subst (IsPage k) s p,
        subst (λ y. Fresh y fl) s f,
        Out-more k k' v fl xs e (subst (λ y. Fresh y xs) s f') o,
      )
  | inr other ↦
      let m' : elem v xs ≡ true = ground arith in
      let (p', g, o') = Out-give k k' v fl xs e m' o in
      rw other (
        p',
        g,
        (
          IsPage-move k k' x e p,
          (λ s. Fresh-elem x v xs f' m' (sym s), f),
          dropped-Fresh x v xs f',
          o',
        ),
      )
]

same_ok : {A : Type 0} {a b : A} {r : Outcome A} → r ≡ ok a → r ≡ ok b → a ≡ b
same_ok p q = cc (p, q)

Out-same :
    (k k' : Kmem) (fl held : List ℕ) → k'.kernel_end ≡ k.kernel_end → Out k fl held → Out k' fl held
Out-same k k' fl [] e o = tt
Out-same k k' fl (x ∷ xs) e (p, f, f', o) = (IsPage-move k k' x e p, f, f', Out-same k k' fl xs e o)

Free-next :
    (k k' : Kmem) (fl : List ℕ) → k'.kernel_end ≡ k.kernel_end → Free k fl → Free k' (next_run fl)
Free-next k k' [] e h = tt
Free-next k k' (x ∷ xs) e h = Free-same k k' xs e h.2

-- What kalloc finds: an empty list, or a page that is not handed out.
take_lists :
    (k k' : Kmem) (fl held : List ℕ)
    → k'.kernel_end ≡ k.kernel_end
    → Free k fl
    → Out k fl held
    → ((first_run fl ≡ none) × (fl ≡ []) × Out k' (next_run fl) held)
      ⊎ ((v : ℕ) × (first_run fl ≡ some v)
          × IsPage k v
          × Fresh v held
          × Out k' (next_run fl) (v ∷ held))
take_lists k k' [] held e h o = inl (refl, refl, Out-same k k' [] held e o)
take_lists k k' (v ∷ fl) held e (p, f, h) o =
    let (g, o') = Out-take k k' v fl held e o in
    inr (v, refl, p, g, (IsPage-move k k' v e p, f, g, o'))

-- The state after a kalloc.
taken-Inv :
    (k k2 : Kmem) (c c2 : Cpu) (held held' : List ℕ)
    → Inv k c held
    → taken k ≡ k2
    → calm c ≡ c2
    → Out (taken k) (taken k).freelist held'
    → Inv k2 c2 held'
taken-Inv k k2 c c2 held held' i e e' o =
    subst (λ x. Inv x c2 held') e
      (subst (λ y. Inv (taken k) y held') e'
        (record {
          valid = record {
            free_lock = refl;
            pages = Free-next k (taken k) k.freelist refl i.valid.pages;
          };
          nested = i.nested;
          out = o;
        }))

some_inj : {a b : ℕ} → some a ≡ some b → a ≡ b
some_inj e = cc e

Run-Inv :
    {k : Kmem} {c : Cpu} {k1 : Kmem} {c1 : Cpu} {held : List ℕ}
    → IsNested c
    → IsValid k
    → Run k c k1 c1 held
    → Inv k1 c1 held
Run-Inv n v start = record { valid = v; nested = n; out = tt }
Run-Inv n v (served {k1 = k1} {k2 = k2} {c1 = c1} {c2 = c2} {held = held} {v = a} run e) =
    let i = Run-Inv n v run in
    let same = same_ok (kalloc_ok k1 c1 i.nested i.valid.free_lock) e in
    elim (take_lists k1 (taken k1) k1.freelist held refl i.valid.pages i.out) [
      | inl (none_left, z, o) ↦ absurd (some_is_none (sym (ap (λ t. t.0) same) ∙ none_left))
      | inr (b, f, p, g, o) ↦
          let at_a : b ≡ a = some_inj (sym f ∙ ap (λ t. t.0) same) in
          taken-Inv k1 k2 c1 c2 held (a ∷ held) i (ap (λ t. t.1) same) (ap (λ t. t.2) same)
            (subst (λ y. Out (taken k1) (taken k1).freelist (y ∷ held)) at_a o)
    ]
  where
    some_is_none : some a ≡ none → ⊥
    some_is_none z = cc z
Run-Inv n v (refused {k1 = k1} {k2 = k2} {c1 = c1} {c2 = c2} {held = held} run e) =
    let i = Run-Inv n v run in
    let same = same_ok (kalloc_ok k1 c1 i.nested i.valid.free_lock) e in
    elim (take_lists k1 (taken k1) k1.freelist held refl i.valid.pages i.out) [
      | inl (none_left, z, o) ↦
          taken-Inv k1 k2 c1 c2 held held i (ap (λ t. t.1) same) (ap (λ t. t.2) same) o
      | inr (b, f, p, g, o) ↦ absurd (some_is_none b (sym f ∙ ap (λ t. t.0) same))
    ]
  where
    some_is_none : (b : ℕ) → some b ≡ none → ⊥
    some_is_none b z = cc z
Run-Inv n v (returned {k1 = k1} {k2 = k2} {c1 = c1} {c2 = c2} {held = held} a run m e) =
    let i = Run-Inv n v run in
    let (p, f, o) = Out-give k1 (freed a k1) a k1.freelist held refl m i.out in
    let same = same_ok (kfree_ok a k1 c1 i.nested i.valid.free_lock p) e in
    subst (λ t. Inv t.0 t.1 (dropped a held)) same
      (record {
        valid = record {
          free_lock = refl;
          pages = (
            IsPage-move k1 (freed a k1) a refl p,
            f,
            Free-same k1 (freed a k1) k1.freelist refl i.valid.pages,
          );
        };
        nested = i.nested;
        out = o;
      })

Fresh-not_elem : (v : ℕ) (held : List ℕ) → Fresh v held → elem v held ≡ false
Fresh-not_elem v [] f = refl
Fresh-not_elem v (x ∷ xs) f = ground (arith, f.0, Fresh-not_elem v xs f.1)

-- After any calls of kalloc and kfree, in any order, that start with a valid allocator and in which only
-- pages are freed that kalloc has returned: a kalloc returns, and gives null exactly if the list is empty,
-- or a page that is not one of those that were handed out and not freed since.
pub kalloc_once :
    (k k1 : Kmem) (c c1 : Cpu) (held : List ℕ)
    → IsNested c
    → IsValid k
    → Run k c k1 c1 held
    → (r : Option ℕ) × (k2 : Kmem) × (c2 : Cpu) × (kalloc k1 c1 ≡ ok (r, k2, c2))
      × (((r ≡ none) × (k1.freelist ≡ []))
          ⊎ ((v : ℕ) × (r ≡ some v) × IsPage k1 v × (elem v held ≡ false)))
kalloc_once k k1 c c1 held n v run =
    let i = Run-Inv n v run in
    (
      first_run k1.freelist,
      taken k1,
      calm c1,
      kalloc_ok k1 c1 i.nested i.valid.free_lock,
      elim (take_lists k1 (taken k1) k1.freelist held refl i.valid.pages i.out) [
        | inl (z, e, o) ↦ inl (z, e)
        | inr (b, f, p, g, o) ↦ inr (b, f, p, Fresh-not_elem b held g)
      ],
    )
