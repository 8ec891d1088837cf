-- ===== src/Fs/Dir/Scan.antt =====
-- The inner loop of dirlookup: the first entry of a block that has the name.
use cs_577_p.Base.{
  ℕ, zero, suc, ◌+◌, ◌*◌, ◌<◌, true, false, ◌≡◌, ◌⊎◌, refl, ap, ◌∙◌, arith, inl, inr, Bool-cases,
  none, some,
}
use mathlib.Core.Path.{subst}
use cs_577_p.Fs.Dir.{dirent_size, is_entry, scan_block}

pub scan_cases :
    (name bytes : ℕ → ℕ) (n o : ℕ)
    → ((j : ℕ) × (scan_block name bytes n o ≡ some (o + dirent_size * j))
        × (j < n)
        × (is_entry name bytes (o + dirent_size * j) ≡ true)
        × ((i : ℕ) → i < j → is_entry name bytes (o + dirent_size * i) ≡ false))
      ⊎ ((scan_block name bytes n o ≡ none)
          × ((i : ℕ) → i < n → is_entry name bytes (o + dirent_size * i) ≡ false))
unfolding scan_block
scan_cases name bytes zero o = inr (refl, λ i h. absurd (omega (arith, h)))
scan_cases name bytes (suc n) o = elim (Bool-cases (is_entry name bytes o)) [
  | inl c ↦ inl (
    0,
    rw c (ap some (omega arith)),
    omega arith,
    subst (λ x. is_entry name bytes x ≡ true) (omega arith) c,
    λ i h. absurd (omega (arith, h)),
  )
  | inr c ↦ elim (scan_cases name bytes n (o + dirent_size)) [
    | inl (j, e, l, h, before) ↦ inl (
      suc j,
      rw c (e ∙ ap some (omega arith)),
      omega (arith, l),
      subst (λ x. is_entry name bytes x ≡ true) (omega arith) h,
      λ i z. shifted c j before i z,
    )
    | inr (e, all) ↦ inr (rw c e, λ i z. shifted c n all i z)
  ]
]
  where
    shifted :
        is_entry name bytes o ≡ false
        → (m : ℕ)
        → ((i : ℕ) → i < m → is_entry name bytes (o + dirent_size + dirent_size * i) ≡ false)
        → (i : ℕ) → i < suc m
        → is_entry name bytes (o + dirent_size * i) ≡ false
    shifted c m f zero h = subst (λ x. is_entry name bytes x ≡ false) (omega arith) c
    shifted c m f (suc i) h =
        subst (λ x. is_entry name bytes x ≡ false) (omega arith) (f i (omega (arith, h)))
