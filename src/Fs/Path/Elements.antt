-- ===== src/Fs/Path/Elements.antt =====
-- skipelem takes a path apart.
use cs_577_p.Base.{
  ℕ, ◌≡◌, ◌≢◌, refl, ◌∙◌, ap, Option, none, some, List, [], ◌∷◌, ◌++◌, take, arith, inl, inr, ◌==◌,
  Bool-cases,
}
use mathlib.Core.List.{append-nil}
use cs_577_p.Fs.Path.{slash, dirsiz, skip_slashes, take_elem, skip_from, skipelem}

-- Only slashes.
abbrev pub AllSlash : List ℕ → Type 0
AllSlash [] = Unit
AllSlash (c ∷ cs) = (c ≡ slash) × AllSlash cs

-- No slash.
abbrev pub NoSlash : List ℕ → Type 0
NoSlash [] = Unit
NoSlash (c ∷ cs) = (c ≢ slash) × NoSlash cs

abbrev pub StartsClear : List ℕ → Type 0
StartsClear [] = Unit
StartsClear (c ∷ cs) = c ≢ slash

skip_slashes_lem :
    (path : List ℕ)
    → (s : List ℕ) × (path ≡ s ++ skip_slashes path) × AllSlash s × StartsClear (skip_slashes path)
unfolding skip_slashes
skip_slashes_lem [] = ([], refl, tt, tt)
skip_slashes_lem (c ∷ cs) = elim (Bool-cases (c == slash)) [
  | inl y ↦
      let (s, e, a, b) = skip_slashes_lem cs in
      rw y (c ∷ s, ap (λ l. c ∷ l) e, (ground arith, a), b)
  | inr n ↦ rw n ([], refl, tt, ground arith)
]

take_elem_lem :
    (path : List ℕ) → (path ≡ (take_elem path).0 ++ (take_elem path).1) × NoSlash (take_elem path).0
unfolding take_elem
take_elem_lem [] = (refl, tt)
take_elem_lem (c ∷ cs) = elim (Bool-cases (c == slash)) [
  | inl y ↦ rw y (refl, tt)
  | inr n ↦ let (e, a) = take_elem_lem cs in rw n (ap (λ l. c ∷ l) e, (ground arith, a))
]

-- What a result of skipelem says of the path.
pub Skips : List ℕ → Option (List ℕ × List ℕ) → Type 0
Skips path none = AllSlash path
Skips path (some (name, rest)) =
    (s : List ℕ) × (elem : List ℕ) × (s' : List ℕ) × (path ≡ s ++ (elem ++ (s' ++ rest)))
    × AllSlash s
    × AllSlash s'
    × NoSlash elem
    × (elem ≢ [])
    × StartsClear rest
    × (name ≡ take dirsiz elem)

take_first : (c : ℕ) (cs : List ℕ) → c ≢ slash → (take_elem (c ∷ cs)).0 ≢ []
unfolding take_elem
take_first c cs n e = ground arith

AllSlash-nil : (s path : List ℕ) → path ≡ s ++ [] → AllSlash s → AllSlash path
AllSlash-nil s path e a = rw (e ∙ append-nil s) a

skip_from-Skips :
    (s rest path : List ℕ)
    → path ≡ s ++ rest
    → AllSlash s
    → StartsClear rest
    → Skips path (skip_from rest)
unfolding skip_from Skips
skip_from-Skips s [] path e a b = AllSlash-nil s path e a
skip_from-Skips s (c ∷ cs) path e a b =
    let (f, n) = take_elem_lem (c ∷ cs) in
    let (s', g, a', b') = skip_slashes_lem (take_elem (c ∷ cs)).1 in
    (
      s,
      (take_elem (c ∷ cs)).0,
      s',
      e ∙ ap (λ l. s ++ l) (f ∙ ap (λ l. (take_elem (c ∷ cs)).0 ++ l) g),
      a,
      a',
      n,
      take_first c cs b,
      b',
      refl,
    )

-- skipelem finds no element exactly in a path of slashes alone. Else the path is slashes, the element,
-- slashes and the rest: the element is not empty and has no slash, the rest does not begin with one,
-- and the name is the element cut to 14 bytes.
pub skipelem-Skips : (path : List ℕ) → Skips path (skipelem path)
unfolding skipelem
skipelem-Skips path =
    let (s, e, a, b) = skip_slashes_lem path in skip_from-Skips s (skip_slashes path) path e a b
