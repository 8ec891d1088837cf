-- ===== src/Base/Tables.antt =====
-- Tables as lists: what a change of one entry does to reads, to other changes and to searches.
use Prim.Native.Nat.{ℕ, zero, suc, ◌<◌}
use mathlib.Core.Path.{◌≡◌, refl, ap}
use mathlib.Core.Logic.{◌≢◌, ◌⊎◌, inl, inr}
use mathlib.Core.Bool.{Bool, true}
use mathlib.Core.List.{List, [], ◌∷◌, map}
use mathlib.Core.Option.{some}
use native.Mathlib.Omega.{arith}
use cs_577_p.Base.Tests.{Bool-cases}
use cs_577_p.Base.Lists.{
  length, get_elem?, get_or, modify, find_index, map-suc_inv, find_index-some, get_or-eq,
}

module _ {ℓ} {A : Type ℓ} where
  pub get_or-modify_self :
      (xs : List A) (i : ℕ) (f : A → A) (d : A)
      → i < length xs
      → get_or (modify xs i f) i d ≡ f (get_or xs i d)
  get_or-modify_self [] i f d h = absurd (omega arith)
  get_or-modify_self (x ∷ xs) zero f d h = refl
  get_or-modify_self (x ∷ xs) (suc i) f d h = get_or-modify_self xs i f d (omega arith)

  pub get_or-modify_ne :
      (xs : List A) (i j : ℕ) (f : A → A) (d : A)
      → i ≢ j
      → get_or (modify xs i f) j d ≡ get_or xs j d
  get_or-modify_ne [] i j f d h = refl
  get_or-modify_ne (x ∷ xs) zero zero f d h = absurd (h refl)
  get_or-modify_ne (x ∷ xs) zero (suc j) f d h = refl
  get_or-modify_ne (x ∷ xs) (suc i) zero f d h = refl
  get_or-modify_ne (x ∷ xs) (suc i) (suc j) f d h = get_or-modify_ne xs i j f d (λ e. h (ap suc e))

  pub get_elem?-get_or :
      (xs : List A) (i : ℕ) (d : A) → i < length xs → get_elem? xs i ≡ some (get_or xs i d)
  get_elem?-get_or [] i d h = absurd (omega arith)
  get_elem?-get_or (x ∷ xs) zero d h = refl
  get_elem?-get_or (x ∷ xs) (suc i) d h = get_elem?-get_or xs i d (omega arith)

  pub modify-modify :
      (xs : List A) (i : ℕ) (f g : A → A) → modify (modify xs i f) i g ≡ modify xs i (λ a. g (f a))
  modify-modify [] i f g = refl
  modify-modify (x ∷ xs) zero f g = refl
  modify-modify (x ∷ xs) (suc i) f g = ap (λ l. x ∷ l) (modify-modify xs i f g)

  -- A change that leaves the entry as it is changes nothing.
  pub modify_same :
      (xs : List A) (i : ℕ) (f : A → A) (d : A)
      → f (get_or xs i d) ≡ get_or xs i d
      → modify xs i f ≡ xs
  modify_same [] i f d h = refl
  modify_same (x ∷ xs) zero f d h = ap (λ y. y ∷ xs) h
  modify_same (x ∷ xs) (suc i) f d h = ap (λ l. x ∷ l) (modify_same xs i f d h)

  -- A change that the test does not see.
  pub find_index-modify :
      (test : A → Bool) (xs : List A) (i : ℕ) (f : A → A)
      → ((a : A) → test (f a) ≡ test a)
      → find_index test (modify xs i f) ≡ find_index test xs
  find_index-modify test [] i f h = refl
  find_index-modify test (x ∷ xs) zero f h = rw (h x) refl
  find_index-modify test (x ∷ xs) (suc i) f h = rw (find_index-modify test xs i f h) refl

  -- A narrower test that holds where the wider one stops, stops there too.
  pub find_index_narrow :
      (wide test : A → Bool) (xs : List A) (i : ℕ) (d : A)
      → ((a : A) → test a ≡ true → wide a ≡ true)
      → find_index wide xs ≡ some i
      → test (get_or xs i d) ≡ true
      → find_index test xs ≡ some i
  find_index_narrow wide test [] i d sub e h = absurd (ground arith)
  find_index_narrow wide test (x ∷ xs) zero d sub e h = ground arith
  find_index_narrow wide test (x ∷ xs) (suc i) d sub e h = elim (Bool-cases (wide x)) [
    | inl now ↦ absurd (ground arith)
    | inr later ↦ ground (
      arith,
      sub x,
      find_index_narrow wide test xs i d sub (map-suc_inv (find_index wide xs) i (rw later at e)) h,
    )
  ]

  pub find_index-lt :
      (test : A → Bool) (xs : List A) (i : ℕ) → find_index test xs ≡ some i → i < length xs
  find_index-lt test [] i h = absurd (ground arith)
  find_index-lt test (x ∷ xs) zero h = omega arith
  find_index-lt test (x ∷ xs) (suc i) h = elim (Bool-cases (test x)) [
    | inl now ↦ absurd (ground arith)
    | inr later ↦
        omega (arith, find_index-lt test xs i (map-suc_inv (find_index test xs) i (rw later at h)))
  ]

  pub find_index-get_or :
      (test : A → Bool) (xs : List A) (i : ℕ) (d : A)
      → find_index test xs ≡ some i
      → test (get_or xs i d) ≡ true
  find_index-get_or test xs i d h =
      let (a, e, t) = find_index-some test xs i h in rw (get_or-eq xs i a d e) t

  -- Two changes that agree on the entry.
  pub modify_agree :
      (xs : List A) (i : ℕ) (f g : A → A) (d : A)
      → f (get_or xs i d) ≡ g (get_or xs i d)
      → modify xs i f ≡ modify xs i g
  modify_agree [] i f g d h = refl
  modify_agree (x ∷ xs) zero f g d h = ap (λ y. y ∷ xs) h
  modify_agree (x ∷ xs) (suc i) f g d h = ap (λ l. x ∷ l) (modify_agree xs i f g d h)

  -- Where an entry of the changed table comes from.
  pub get_elem?-modify_inv :
      (xs : List A) (i j : ℕ) (f : A → A) (b : A)
      → get_elem? (modify xs i f) j ≡ some b
      → (a : A) × (get_elem? xs j ≡ some a) × (((i ≡ j) × (b ≡ f a)) ⊎ ((i ≢ j) × (b ≡ a)))
  get_elem?-modify_inv [] i j f b h = absurd (ground arith)
  get_elem?-modify_inv (x ∷ xs) zero zero f b h = (x, refl, inl (refl, ground arith))
  get_elem?-modify_inv (x ∷ xs) zero (suc j) f b h = (b, h, inr (omega arith, refl))
  get_elem?-modify_inv (x ∷ xs) (suc i) zero f b h = (x, refl, inr (omega arith, ground arith))
  get_elem?-modify_inv (x ∷ xs) (suc i) (suc j) f b h =
      let (a, e, c) = get_elem?-modify_inv xs i j f b h in (a, e, up c)
    where
      up :
          {a : A}
          → (((i ≡ j) × (b ≡ f a)) ⊎ ((i ≢ j) × (b ≡ a)))
          → (((suc i ≡ suc j) × (b ≡ f a)) ⊎ ((suc i ≢ suc j) × (b ≡ a)))
      up (inl (p, q)) = inl (ap suc p, q)
      up (inr (p, q)) = inr (omega arith, q)

  pub get_elem?-map_inv {κ} :
      {B : Type κ} (f : A → B) (xs : List A) (j : ℕ) (b : B)
      → get_elem? (map f xs) j ≡ some b
      → (a : A) × (get_elem? xs j ≡ some a) × (b ≡ f a)
  get_elem?-map_inv f [] j b h = absurd (ground arith)
  get_elem?-map_inv f (x ∷ xs) zero b h = (x, refl, ground arith)
  get_elem?-map_inv f (x ∷ xs) (suc j) b h = get_elem?-map_inv f xs j b h
