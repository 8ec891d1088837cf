-- ===== src/Vm/Rounds.antt =====
-- mappages: a round of the loop, the last one and one before others.
use cs_577_p.Base.{
  ℕ, zero, suc, ◌+◌, ◌*◌, ◌%◌, ◌^◌, ◌≤◌, ◌<◌, ◌≡◌, ◌≢◌, ◌⊎◌, inl, inr, refl, sym, ap, ◌∙◌, arith,
  Bool, true, false, ◌==◌, [], none, some, Outcome, ok,
}
use mathlib.Core.Path.{subst}
use cs_577_p.Spinlock.{Cpu}
use cs_577_p.Spinlock.Laws.{IsNested}
use cs_577_p.Kalloc.{Kmem, pgsize, next_run}
use cs_577_p.Kalloc.Pages.{Free, Fresh, taken, calm}
use cs_577_p.Vm.{entry, pte_addr, is_present, walkpgdir, map_page, map_from}
use cs_577_p.Vm.Tables.{IsDir}
use cs_577_p.Vm.NewTable.{IsPage-same}
use cs_577_p.Vm.Mapping.{frame_word, pte_at, Put}

-- What mappages leaves for the pages from `x` to `x + n`, mapped to the frames from `f` on.
pub record Mapped (k : Kmem) (pgdir x n f perm : ℕ) (r : Bool) (k' : Kmem) (c' : Cpu) : Type 0 where
  pub is_dir : IsDir k' pgdir
  pub nested : IsNested c'
  pub kept :
      (z : ℕ) → z < 2 ^ 20 → (z < x) ⊎ (x + n < z) → pte_at pgdir z k'.mem ≡ pte_at pgdir z k.mem
  pub written : r ≡ true → (i : ℕ) → i ≤ n → pte_at pgdir (x + i) k'.mem ≡ frame_word (f + i) perm
  pub full : r ≡ false → k'.freelist ≡ []

-- A directory stays one where only the lock and an empty list change.
taken-IsDir : (k : Kmem) (pgdir : ℕ) → k.freelist ≡ [] → IsDir k pgdir → IsDir (taken k) pgdir
taken-IsDir k pgdir e d = record {
  valid = record { free_lock = refl; pages = subst (Free (taken k)) (sym none_left) tt };
  dir = IsPage-same k (taken k) pgdir refl d.dir;
  dir_used = subst (Fresh pgdir) (sym none_left) tt;
  table = λ i h p.
      let (a, b, z) = d.table i h p in
      (
        IsPage-same k (taken k) (pte_addr (entry pgdir i k.mem)) refl a,
        b,
        subst (Fresh (pte_addr (entry pgdir i k.mem))) (sym none_left) tt,
      );
  apart = d.apart;
}
  where
    none_left : next_run k.freelist ≡ []
    none_left = ap next_run e

-- The first round of the loop, where it writes an entry.
pub first_round :
    (n pgdir a last pa perm pte : ℕ) (k k1 k2 : Kmem) (c c1 : Cpu)
    → walkpgdir pgdir a true k c ≡ ok (some pte, k1, c1)
    → map_page pte pa perm k1 ≡ ok k2
    → map_from (suc n) pgdir a last pa perm k c ≡ elim (a == last) [
      | true ↦ ok (true, k2, c1)
      | false ↦ map_from n pgdir ((a + pgsize) % 2 ^ 32) last ((pa + pgsize) % 2 ^ 32) perm k2 c1
    ]
unfolding map_from
first_round n pgdir a last pa perm pte k k1 k2 c c1 e e' = rw e (rw e' refl)

abbrev pub Absent : Kmem → ℕ → ℕ → ℕ → Type 0
Absent k pgdir x n = (i : ℕ) → i ≤ n → is_present (pte_at pgdir (x + i) k.mem) ≡ false

abbrev pub MapsTo : ℕ → ℕ → ℕ → ℕ → ℕ → Kmem → Cpu → Type 0
MapsTo n x f perm pgdir k c =
    (r : Bool) × (k' : Kmem) × (c' : Cpu) × (map_from (suc n) pgdir (x * pgsize) ((x + n) * pgsize)
        (f * pgsize) perm k c
      ≡ ok (r, k', c'))
    × Mapped k pgdir x n f perm r k' c'

-- No page is left for a table.
pub loop_full :
    (n x f perm pgdir : ℕ) (k : Kmem) (c : Cpu)
    → IsNested c
    → IsDir k pgdir
    → walkpgdir pgdir (x * pgsize) true k c ≡ ok (none, taken k, calm c)
    → k.freelist ≡ []
    → MapsTo n x f perm pgdir k c
unfolding map_from
loop_full n x f perm pgdir k c nc d e l = (
  false,
  taken k,
  calm c,
  rw e refl,
  record {
    is_dir = taken-IsDir k pgdir l d;
    nested = nc;
    kept = λ z h h'. refl;
    written = λ y. absurd (ground arith);
    full = λ y. ap next_run l;
  },
)

-- The round of the last page.
pub one_page :
    (x f perm pgdir : ℕ) (k k2 : Kmem) (c1 : Cpu)
    → IsNested c1
    → Put k pgdir x (frame_word f perm) k2
    → Mapped k pgdir x 0 f perm true k2 c1
one_page x f perm pgdir k k2 c1 nc p = record {
  is_dir = p.is_dir;
  nested = nc;
  kept = λ z h h'. p.kept z h (other z h');
  written = λ y i h. written i h;
  full = λ y. absurd (ground arith);
}
  where
    other : (z : ℕ) → (z < x) ⊎ (x + 0 < z) → x ≢ z
    other z (inl h) = omega arith
    other z (inr h) = omega arith

    written : (i : ℕ) → i ≤ 0 → pte_at pgdir (x + i) k2.mem ≡ frame_word (f + i) perm
    written zero h =
        ap (λ a. pte_at pgdir a k2.mem) (omega arith)
        ∙ p.written
        ∙ ap (λ a. frame_word a perm) (omega arith)
    written (suc i) h = absurd (omega arith)

-- A round before others.
pub one_more :
    (m x f perm pgdir : ℕ) (k k2 : Kmem) (r : Bool) (k' : Kmem) (c' : Cpu)
    → x + suc m < 2 ^ 20
    → Put k pgdir x (frame_word f perm) k2
    → Mapped k2 pgdir (x + 1) m (f + 1) perm r k' c'
    → Mapped k pgdir x (suc m) f perm r k' c'
one_more m x f perm pgdir k k2 r k' c' hx p q = record {
  is_dir = q.is_dir;
  nested = q.nested;
  kept = λ z h h'. q.kept z h (wider z h') ∙ p.kept z h (other z h');
  written = written;
  full = q.full;
}
  where
    wider : (z : ℕ) → (z < x) ⊎ (x + suc m < z) → (z < x + 1) ⊎ (x + 1 + m < z)
    wider z (inl h) = inl (omega arith)
    wider z (inr h) = inr (omega arith)

    other : (z : ℕ) → (z < x) ⊎ (x + suc m < z) → x ≢ z
    other z (inl h) = omega arith
    other z (inr h) = omega arith

    written : r ≡ true → (i : ℕ) → i ≤ suc m → pte_at pgdir (x + i) k'.mem ≡ frame_word (f + i) perm
    written y zero h =
        ap (λ a. pte_at pgdir a k'.mem) (omega arith)
        ∙ q.kept x (omega arith) (inl (omega arith))
        ∙ p.written
        ∙ ap (λ a. frame_word a perm) (omega arith)
    written y (suc i) h =
        ap (λ a. pte_at pgdir a k'.mem) (omega arith)
        ∙ q.written y i (omega arith)
        ∙ ap (λ a. frame_word a perm) (omega arith)

-- The next round starts at the next page and the next frame.
pub next_round :
    (m x f perm pgdir : ℕ) (k2 : Kmem) (c1 : Cpu) (res : Outcome (Bool × Kmem × Cpu))
    → x + suc m < 2 ^ 20
    → f + suc m < 2 ^ 20
    → map_from (suc m) pgdir ((x + 1) * pgsize) ((x + 1 + m) * pgsize) ((f + 1) * pgsize) perm k2 c1
      ≡ res
    → elim (x * pgsize == (x + suc m) * pgsize) [
      | true ↦ ok (true, k2, c1)
      | false ↦
          map_from
            (suc m)
            pgdir
            ((x * pgsize + pgsize) % 2 ^ 32)
            ((x + suc m) * pgsize)
            ((f * pgsize + pgsize) % 2 ^ 32)
            perm
            k2
            c1
    ]
      ≡ res
next_round m x f perm pgdir k2 c1 res hx hf e = rw not_last (
    ap
      (λ a.
        map_from (suc m) pgdir a ((x + suc m) * pgsize) ((f * pgsize + pgsize) % 2 ^ 32) perm k2 c1)
      (omega arith)
    ∙ ap
        (λ a.
          map_from (suc m) pgdir ((x + 1) * pgsize) a ((f * pgsize + pgsize) % 2 ^ 32) perm k2 c1)
        (omega arith)
    ∙ ap (λ a. map_from (suc m) pgdir ((x + 1) * pgsize) ((x + 1 + m) * pgsize) a perm k2 c1)
        (omega arith)
    ∙ e)
  where
    not_last : (x * pgsize == (x + suc m) * pgsize) ≡ false
    not_last = ground arith
