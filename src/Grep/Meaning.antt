-- ===== src/Grep/Meaning.antt =====
-- What an expression of grep means, without the matcher's order of tests, and that match decides it.
use cs_577_p.Base.{
  ℕ, Bool, true, ◌&&◌, ◌||◌, List, [], ◌∷◌, ◌++◌, ◌≡◌, ◌≢◌, ◌↔◌, ◌⊎◌, inl, inr, refl, ap, arith,
  ◌==◌, Bool-cases,
}
use cs_577_p.Grep.{star_loop, fits, match_here, match_from, match}

-- Every byte of the list is one that `c` stands for.
abbrev pub AllFit : ℕ → List ℕ → Type 0
AllFit c [] = Unit
AllFit c (t ∷ ts) = (fits c t ≡ true) × AllFit c ts

-- The text begins with what the expression stands for.
pub data Begins : List ℕ → List ℕ → Type 0 where
  nothing : (text : List ℕ) → Begins [] text
  at_end : (r : ℕ) → r ≡ b'$' → Begins (r ∷ []) []
  last : (r t : ℕ) (ts : List ℕ) → r ≢ b'$' → fits r t ≡ true → Begins (r ∷ []) (t ∷ ts)
  char :
      (r s t : ℕ) (re ts : List ℕ)
      → s ≢ b'*'
      → fits r t ≡ true
      → Begins (s ∷ re) ts
      → Begins (r ∷ s ∷ re) (t ∷ ts)
  star :
      (c s : ℕ) (re text pre post : List ℕ)
      → s ≡ b'*'
      → text ≡ pre ++ post
      → AllFit c pre
      → Begins re post
      → Begins (c ∷ s ∷ re) text

star_sound :
    (here : List ℕ → Bool) (c : ℕ) (text : List ℕ)
    → star_loop here c text ≡ true
    → (pre : List ℕ) × (post : List ℕ) × (text ≡ pre ++ post) × AllFit c pre × (here post ≡ true)
unfolding star_loop
star_sound here c [] h = ([], [], refl, tt, h)
star_sound here c (t ∷ ts) h = elim (Bool-cases (here (t ∷ ts))) [
  | inl now ↦ ([], t ∷ ts, refl, tt, now)
  | inr later ↦
      let more : ((t == c) || (c == b'.')) && star_loop here c ts ≡ true = rw later at h in
      let (pre, post, e, f, g) = star_sound here c ts (ground arith) in
      (t ∷ pre, post, ap (λ l. t ∷ l) e, (ground arith, f), g)
]

star_complete :
    (here : List ℕ → Bool) (c : ℕ) (pre post : List ℕ)
    → AllFit c pre
    → here post ≡ true
    → star_loop here c (pre ++ post) ≡ true
unfolding star_loop
star_complete here c [] [] f g = g
star_complete here c [] (t ∷ ts) f g = rw g refl
star_complete here c (t ∷ pre) post f g = ground (arith, star_complete here c pre post f.1 g)

match_here_sound : (re text : List ℕ) → match_here re text ≡ true → Begins re text
unfolding match_here
match_here_sound [] text h = nothing text
match_here_sound (r ∷ []) [] h = at_end r (ground arith)
match_here_sound (r ∷ []) (t ∷ ts) h = last r t ts (ground arith) (ground arith)
match_here_sound (r ∷ s ∷ re) [] h = elim (Bool-cases (s == b'*')) [
  | inl e ↦
      let (pre, post, q, f, g) = star_sound (match_here re) r [] (rw e at h) in
      star r s re [] pre post (ground arith) q f (match_here_sound re post g)
  | inr n ↦ absurd (ground arith)
]
match_here_sound (r ∷ s ∷ re) (t ∷ ts) h = elim (Bool-cases (s == b'*')) [
  | inl e ↦
      let (pre, post, q, f, g) = star_sound (match_here re) r (t ∷ ts) (rw e at h) in
      star r s re (t ∷ ts) pre post (ground arith) q f (match_here_sound re post g)
  | inr n ↦
      let k : fits r t && match_here (s ∷ re) ts ≡ true = rw n at h in
      char r s t re ts (ground arith) (ground arith) (match_here_sound (s ∷ re) ts (ground arith))
]

match_here_star :
    (c s : ℕ) (re text : List ℕ)
    → s ≡ b'*'
    → star_loop (match_here re) c text ≡ true
    → match_here (c ∷ s ∷ re) text ≡ true
unfolding match_here
match_here_star c s re text e h = ground arith

match_here_complete : {re text : List ℕ} → Begins re text → match_here re text ≡ true
unfolding match_here
match_here_complete (nothing text) = refl
match_here_complete (at_end r e) = ground arith
match_here_complete (last r t ts n f) = ground arith
match_here_complete (char r s t re ts n f d) = ground (arith, match_here_complete d)
match_here_complete (star c s re text pre post e q f d) =
    match_here_star c s re text e
      (rw q (star_complete (match_here re) c pre post f (match_here_complete d)))

-- The text has a part that the expression stands for.
pub Contains : List ℕ → List ℕ → Type 0
Contains re text = (pre : List ℕ) × (post : List ℕ) × (text ≡ pre ++ post) × Begins re post

match_from_sound : (re text : List ℕ) → match_from re text ≡ true → Contains re text
unfolding match_from Contains
match_from_sound re [] h = ([], [], refl, match_here_sound re [] h)
match_from_sound re (t ∷ ts) h = elim (Bool-cases (match_here re (t ∷ ts))) [
  | inl now ↦ ([], t ∷ ts, refl, match_here_sound re (t ∷ ts) now)
  | inr later ↦
      let (pre, post, e, d) = match_from_sound re ts (rw later at h) in
      (t ∷ pre, post, ap (λ l. t ∷ l) e, d)
]

match_from_complete : (re pre post : List ℕ) → Begins re post → match_from re (pre ++ post) ≡ true
unfolding match_from
match_from_complete re [] [] d = match_here_complete d
match_from_complete re [] (t ∷ ts) d = rw (match_here_complete d) refl
match_from_complete re (t ∷ pre) post d = ground (arith, match_from_complete re pre post d)

-- The meaning of a whole expression.
pub Means : List ℕ → List ℕ → Type 0
Means [] text = Contains [] text
Means (r ∷ re) text = ((r ≡ b'^') × Begins re text) ⊎ ((r ≢ b'^') × Contains (r ∷ re) text)

match_from-Contains : (re text : List ℕ) → Contains re text → match_from re text ≡ true
unfolding Contains
match_from-Contains re text (pre, post, e, d) = rw e (match_from_complete re pre post d)

match_sound : (re text : List ℕ) → match re text ≡ true → Means re text
unfolding match Means
match_sound [] text h = match_from_sound [] text h
match_sound (r ∷ re) text h = elim (Bool-cases (r == b'^')) [
  | inl anchored ↦ inl (ground arith, match_here_sound re text (rw anchored at h))
  | inr free ↦ inr (ground arith, match_from_sound (r ∷ re) text (rw free at h))
]

match_complete : (re text : List ℕ) → Means re text → match re text ≡ true
unfolding match Means
match_complete [] text m = match_from-Contains [] text m
match_complete (r ∷ re) text (inl (e, d)) = ground (arith, match_here_complete d)
match_complete (r ∷ re) text (inr (n, c)) = ground (arith, match_from-Contains (r ∷ re) text c)

-- match decides the meaning of an expression: after a leading ^ that the text begins with what the rest
-- stands for, and else that some part of the text is what the expression stands for.
pub match_decides : (re text : List ℕ) → (match re text ≡ true) ↔ Means re text
match_decides re text = (match_sound re text, match_complete re text)
