-- ===== src/Print/Agree.antt =====
-- cprintf and printf print the same.
use cs_577_p.Base.{
  ℕ, ◌≡◌, refl, ap, ◌∙◌, arith, Bool, true, false, ◌&&◌, ◌||◌, not, List, [], ◌∷◌, ◌++◌, inl, inr,
  Bool-cases, ◌==◌,
}
use cs_577_p.Print.Numbers.{printint_alike, lower-IsDecimal, upper-IsDecimal}
use cs_577_p.Print.{lower, upper, printint, kernel_directive, user_directive, cprintf, printf}

-- The directives that the two know alike: neither `%c`, which printf alone knows, nor `%x` and `%p`,
-- whose letters they print in other cases.
abbrev pub is_common : ℕ → Bool
is_common d = not (d == b'c') && not ((d == b'x') || (d == b'p'))

-- All directives of a format are. A single `%` at its end is none.
unfoldable pub all_common : List ℕ → Bool
all_common [] = true
all_common (c ∷ []) = true
all_common (c ∷ d ∷ cs) = elim (c == b'%') [
  | true ↦ is_common d && all_common cs
  | false ↦ all_common (d ∷ cs)
]

and_left : (x y : Bool) → x && y ≡ true → x ≡ true
and_left true y h = refl
and_left false y h = h

and_right : (x y : Bool) → x && y ≡ true → y ≡ true
and_right true y h = h
and_right false y h = cc

module _ (text : ℕ → List ℕ) (args : ℕ → ℕ) where
  decimal_alike : (x : ℕ) → printint upper x 10 true ≡ printint lower x 10 true
  decimal_alike x = printint_alike upper lower x true upper-IsDecimal lower-IsDecimal

  directives_alike :
      (d a : ℕ) → is_common d ≡ true → user_directive text args d a ≡ kernel_directive text args d a
  unfolding user_directive kernel_directive
  directives_alike d a h = ground (arith, decimal_alike (args a))

  -- For every format whose directives are `%d`, `%s`, `%%` or unknown to both, printf of the user
  -- library prints byte for byte what cprintf of the kernel prints.
  pub printf-cprintf :
      (fmt : List ℕ) (a : ℕ)
      → all_common fmt ≡ true
      → printf text args false fmt a ≡ cprintf text args fmt a
  unfolding printf cprintf all_common
  printf-cprintf [] a h = refl
  printf-cprintf (c ∷ []) a h = ground arith
  printf-cprintf (c ∷ d ∷ cs) a h = elim (Bool-cases (c == b'%')) [
    | inl e ↦
        let both : is_common d && all_common cs ≡ true = rw (e, all_common) at h in
        let k = kernel_directive text args d a in
        rw (e, printf, cprintf)
          (ap (λ r. r.0 ++ printf text args false cs r.1)
              (directives_alike d a (and_left (is_common d) (all_common cs) both))
            ∙ ap (λ l. k.0 ++ l)
                (printf-cprintf cs k.1 (and_right (is_common d) (all_common cs) both)))
    | inr e ↦
        rw (e, printf, cprintf)
          (ap (λ l. c ∷ l) (printf-cprintf (d ∷ cs) a (rw (e, all_common) at h)))
  ]
