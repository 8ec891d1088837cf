-- ===== src/Sem/Members.antt =====
-- Lists of threads without repeats, and the removal of one.
use cs_577_p.Base.{
  ℕ, suc, Bool, true, false, not, ◌&&◌, List, [], ◌∷◌, ◌≡◌, refl, arith, if◌then◌else◌, ◌==◌,
  length,
}
use cs_577_p.Mutex.Invariant.{elem, Distinct}

pub remove : ℕ → List ℕ → List ℕ
remove i [] = []
remove i (x ∷ xs) = let rest = x ∷ remove i xs in if x == i then xs else rest

pub elem-remove :
    (a i : ℕ) (xs : List ℕ) → Distinct xs → elem a (remove i xs) ≡ (elem a xs && not (i == a))
unfolding remove
elem-remove a i [] d = refl
elem-remove a i (x ∷ xs) d = ground (arith, d.0, elem-remove a i xs d.1)

pub length-remove :
    (i : ℕ) (xs : List ℕ) → elem i xs ≡ true → length xs ≡ suc (length (remove i xs))
unfolding remove
length-remove i [] e = absurd (ground arith)
length-remove i (x ∷ xs) e = ground (arith, length-remove i xs)

pub Distinct-remove : (i : ℕ) (xs : List ℕ) → Distinct xs → Distinct (remove i xs)
unfolding remove
Distinct-remove i [] d = tt
Distinct-remove i (x ∷ xs) d = by_head (x == i) (Distinct-remove i xs d.1)
  where
    by_head : (b : Bool) → Distinct (remove i xs) → Distinct (if b then xs else x ∷ remove i xs)
    by_head true r = d.1
    by_head false r = (ground (arith, d.0, elem-remove x i xs d.1), r)
