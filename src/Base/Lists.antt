-- ===== src/Base/Lists.antt =====
-- Lists measured and indexed by native numbers, and the two loops over a table.
use Prim.Native.Nat.{ℕ, zero, suc, ◌+◌, ◌<◌}
use mathlib.Core.Path.{◌≡◌, refl, ap}
use mathlib.Core.Logic.{◌≢◌, inl, inr}
use mathlib.Core.Bool.{Bool, true, false}
use mathlib.Core.List.{List, [], ◌∷◌, ◌++◌, map}
use mathlib.Core.Option.{Option, none, some}
use mathlib.Core.Option
use native.Mathlib.Omega.{arith}
use cs_577_p.Base.Tests.{if◌then◌else◌, Bool-cases, ◌==◌}

module _ {ℓ} {A : Type ℓ} where
  abbrev pub length : List A → ℕ
  length [] = 0
  length (x ∷ xs) = suc (length xs)

  abbrev pub get_elem? : List A → ℕ → Option A
  get_elem? [] i = none
  get_elem? (x ∷ xs) zero = some x
  get_elem? (x ∷ xs) (suc i) = get_elem? xs i

  abbrev pub get_or : List A → ℕ → A → A
  get_or [] i d = d
  get_or (x ∷ xs) zero d = x
  get_or (x ∷ xs) (suc i) d = get_or xs i d

  -- Changes one entry. Out of range it changes nothing.
  abbrev pub modify : List A → ℕ → (A → A) → List A
  modify [] i f = []
  modify (x ∷ xs) zero f = f x ∷ xs
  modify (x ∷ xs) (suc i) f = x ∷ modify xs i f

  abbrev pub replicate : ℕ → A → List A
  replicate zero a = []
  replicate (suc n) a = a ∷ replicate n a

  abbrev pub take : ℕ → List A → List A
  take zero xs = []
  take (suc n) [] = []
  take (suc n) (x ∷ xs) = x ∷ take n xs

  abbrev pub drop : ℕ → List A → List A
  drop zero xs = xs
  drop (suc n) [] = []
  drop (suc n) (x ∷ xs) = drop n xs

  -- `for(p = table; p < end; p++) if(test(p)) break;`: the index where the loop stops.
  abbrev pub find_index : (A → Bool) → List A → Option ℕ
  find_index test [] = none
  find_index test (x ∷ xs) = if test x then some 0 else Option.map suc (find_index test xs)

pub map-suc_inv : (o : Option ℕ) (i : ℕ) → Option.map suc o ≡ some (suc i) → o ≡ some i
map-suc_inv none i h = ground arith
map-suc_inv (some k) i h = ground arith

pub map-suc_ne : (o : Option ℕ) → Option.map suc o ≢ some 0
map-suc_ne none h = ground arith
map-suc_ne (some k) h = ground arith

module _ {ℓ} {A : Type ℓ} where
  pub length-append : (xs ys : List A) → length (xs ++ ys) ≡ length xs + length ys
  length-append [] ys = omega arith
  length-append (x ∷ xs) ys = omega (arith, length-append xs ys)

  pub length-modify : (xs : List A) (i : ℕ) (f : A → A) → length (modify xs i f) ≡ length xs
  length-modify [] i f = refl
  length-modify (x ∷ xs) zero f = refl
  length-modify (x ∷ xs) (suc i) f = ap suc (length-modify xs i f)

  pub length-map {κ} : {B : Type κ} (f : A → B) (xs : List A) → length (map f xs) ≡ length xs
  length-map f [] = refl
  length-map f (x ∷ xs) = ap suc (length-map f xs)

  pub length-replicate : (n : ℕ) (a : A) → length (replicate n a) ≡ n
  length-replicate zero a = refl
  length-replicate (suc n) a = ap suc (length-replicate n a)

  pub get_elem?-modify_self :
      (xs : List A) (i : ℕ) (f : A → A)
      → get_elem? (modify xs i f) i ≡ Option.map f (get_elem? xs i)
  get_elem?-modify_self [] i f = refl
  get_elem?-modify_self (x ∷ xs) zero f = refl
  get_elem?-modify_self (x ∷ xs) (suc i) f = get_elem?-modify_self xs i f

  pub get_elem?-modify_ne :
      (xs : List A) (i j : ℕ) (f : A → A) → i ≢ j → get_elem? (modify xs i f) j ≡ get_elem? xs j
  get_elem?-modify_ne [] i j f h = refl
  get_elem?-modify_ne (x ∷ xs) zero zero f h = absurd (h refl)
  get_elem?-modify_ne (x ∷ xs) zero (suc j) f h = refl
  get_elem?-modify_ne (x ∷ xs) (suc i) zero f h = refl
  get_elem?-modify_ne (x ∷ xs) (suc i) (suc j) f h =
      get_elem?-modify_ne xs i j f (λ e. h (ap suc e))

  -- Both at once, with no side condition.
  pub get_elem?-modify :
      (xs : List A) (i j : ℕ) (f : A → A)
      → get_elem? (modify xs i f) j
        ≡ (if i == j then Option.map f (get_elem? xs j) else get_elem? xs j)
  get_elem?-modify [] i j f = ground arith
  get_elem?-modify (x ∷ xs) zero zero f = refl
  get_elem?-modify (x ∷ xs) zero (suc j) f = ground arith
  get_elem?-modify (x ∷ xs) (suc i) zero f = ground arith
  get_elem?-modify (x ∷ xs) (suc i) (suc j) f = ground (arith, get_elem?-modify xs i j f)

  pub get_elem?-map {κ} :
      {B : Type κ} (f : A → B) (xs : List A) (i : ℕ)
      → get_elem? (map f xs) i ≡ Option.map f (get_elem? xs i)
  get_elem?-map f [] i = refl
  get_elem?-map f (x ∷ xs) zero = refl
  get_elem?-map f (x ∷ xs) (suc i) = get_elem?-map f xs i

  pub get_elem?-lt : (xs : List A) (i : ℕ) (a : A) → get_elem? xs i ≡ some a → i < length xs
  get_elem?-lt [] i a h = absurd (ground arith)
  get_elem?-lt (x ∷ xs) zero a h = omega arith
  get_elem?-lt (x ∷ xs) (suc i) a h = omega (arith, get_elem?-lt xs i a h)

  pub get_or-eq : (xs : List A) (i : ℕ) (a d : A) → get_elem? xs i ≡ some a → get_or xs i d ≡ a
  get_or-eq [] i a d h = cc
  get_or-eq (x ∷ xs) zero a d h = cc
  get_or-eq (x ∷ xs) (suc i) a d h = get_or-eq xs i a d h

  -- Where the loop stops, the test holds.
  pub find_index-some :
      (test : A → Bool) (xs : List A) (i : ℕ)
      → find_index test xs ≡ some i
      → (a : A) × (get_elem? xs i ≡ some a) × (test a ≡ true)
  find_index-some test [] i h = cc
  find_index-some test (x ∷ xs) zero h = elim (Bool-cases (test x)) [
    | inl now ↦ (x, refl, now)
    | inr later ↦ absurd (map-suc_ne (find_index test xs) (rw later at h))
  ]
  find_index-some test (x ∷ xs) (suc i) h = elim (Bool-cases (test x)) [
    | inl now ↦ absurd (ground arith)
    | inr later ↦ find_index-some test xs i (map-suc_inv (find_index test xs) i (rw later at h))
  ]

  -- Where it runs to the end, the test fails at every entry.
  pub find_index-none :
      (test : A → Bool) (xs : List A) (i : ℕ) (a : A)
      → find_index test xs ≡ none
      → get_elem? xs i ≡ some a
      → test a ≡ false
  find_index-none test [] i a h e = cc
  find_index-none test (x ∷ xs) zero a h e = ground arith
  find_index-none test (x ∷ xs) (suc i) a h e = elim (Bool-cases (test x)) [
    | inl now ↦ absurd (ground arith)
    | inr later ↦ find_index-none test xs i a (ground arith) e
  ]

  -- An entry that passes the test makes the loop stop.
  pub find_index_total :
      (test : A → Bool) (xs : List A) (i : ℕ) (a : A)
      → get_elem? xs i ≡ some a
      → test a ≡ true
      → (j : ℕ) × (find_index test xs ≡ some j)
  find_index_total test [] i a e h = absurd (ground arith)
  find_index_total test (x ∷ xs) zero a e h = (0, ground arith)
  find_index_total test (x ∷ xs) (suc i) a e h =
      let (j, q) = find_index_total test xs i a e h in (if test x then 0 else suc j, ground arith)
