-- ===== src/Str/Copies.antt =====
-- The string copies stay in their bounds, and safestrcpy always ends its string.
use cs_577_p.Base.{
  ℕ, zero, suc, ◌+◌, ◌≤◌, ◌<◌, ◌≡◌, ◌≢◌, refl, ◌∙◌, ap, ◌&&◌, ◌⊎◌, inl, inr, arith, if◌then◌else◌,
  ◌==◌, leb, ltb, Bool-cases, some,
}
use cs_577_p.Str.{Mem, store, strncpy, zero_fill, safe_from, safestrcpy, strlen_from}

-- A byte before `s` or from `s + n` on.
abbrev pub Outside : ℕ → ℕ → ℕ → Type 0
Outside s n a = (a < s) ⊎ (s + n ≤ a)

zero_fill_lem :
    (s n : ℕ) (m : Mem) (a : ℕ) → zero_fill s n m a ≡ (if leb s a && ltb a (s + n) then 0 else m a)
unfolding zero_fill
zero_fill_lem s zero m a = ground arith
zero_fill_lem s (suc n) m a = ground (arith, zero_fill_lem (s + 1) n (store m s 0) a)

shift : (s n a : ℕ) → Outside s (suc n) a → Outside (s + 1) n a
shift s n a (inl p) = inl (omega arith)
shift s n a (inr p) = inr (omega arith)

ne : (s n a : ℕ) → Outside s (suc n) a → s ≢ a
ne s n a (inl p) = omega arith
ne s n a (inr p) = omega arith

strncpy_bounds : (s t n : ℕ) (m : Mem) (a : ℕ) → Outside s n a → strncpy s t n m a ≡ m a
unfolding strncpy
strncpy_bounds s t zero m a o = refl
strncpy_bounds s t (suc n) m a o = ground (
  arith,
  ne s n a o,
  zero_fill_lem (s + 1) n (store m s (m t)) a,
  strncpy_bounds (s + 1) (t + 1) n (store m s (m t)) a (shift s n a o),
)

safe_from_bounds : (s t n : ℕ) (m : Mem) (a : ℕ) → Outside s (suc n) a → safe_from s t n m a ≡ m a
unfolding safe_from
safe_from_bounds s t zero m a o = ground arith
safe_from_bounds s t (suc n) m a o =
    ground (arith, safe_from_bounds (s + 1) (t + 1) n (store m s (m t)) a (shift s (suc n) a o))

safe_from_ends : (s t n : ℕ) (m : Mem) → (i : ℕ) × (i ≤ n) × (safe_from s t n m (s + i) ≡ 0)
unfolding safe_from
safe_from_ends s t zero m = (0, omega arith, ground arith)
safe_from_ends s t (suc n) m =
    let (i, le, e) = safe_from_ends (s + 1) (t + 1) n (store m s (m t)) in
    let e' : safe_from (s + 1) (t + 1) n (store m s (m t)) (s + suc i) ≡ 0 =
      ap (λ x. safe_from (s + 1) (t + 1) n (store m s (m t)) x) (omega arith) ∙ e in
    elim (Bool-cases (m t == 0)) [
      | inl z ↦ (1, omega arith, ground arith)
      | inr nz ↦ (suc i, omega arith, rw nz e')
    ]

-- safestrcpy with a positive `n` writes only the `n` bytes at `s`, and leaves a NUL among them.
pub safestrcpy_lem :
    (s t n : ℕ) (m : Mem)
    → 0 < n
    → ((a : ℕ) → Outside s n a → safestrcpy s t n m a ≡ m a)
      × ((i : ℕ) × (i < n) × (safestrcpy s t n m (s + i) ≡ 0))
unfolding safestrcpy
safestrcpy_lem s t zero m h = absurd (omega arith)
safestrcpy_lem s t (suc n) m h =
    let (i, le, e) = safe_from_ends s t n m in (safe_from_bounds s t n m, (i, omega arith, e))

-- strlen returns the index of the first NUL, if the fuel goes past it.
pub strlen_first :
    (fuel s i k : ℕ) (m : Mem)
    → m (s + (i + k)) ≡ 0
    → ((j : ℕ) → j < k → m (s + (i + j)) ≢ 0)
    → k < fuel
    → strlen_from fuel s i m ≡ some (i + k)
unfolding strlen_from
strlen_first zero s i k m z b f = absurd (omega arith)
strlen_first (suc fuel) s i zero m z b f =
    let e : i + 0 ≡ i = omega arith in
    let z' : m (s + i) ≡ 0 = ap (λ x. m (s + x)) (omega arith) ∙ z in rw (z', e) refl
strlen_first (suc fuel) s i (suc k) m z b f =
    let ne0 : m (s + i) ≢ 0 = λ e. b 0 (omega arith) (ap (λ x. m (s + x)) (omega arith) ∙ e) in
    let ih : strlen_from fuel s (i + 1) m ≡ some (i + 1 + k) =
      strlen_first fuel s (i + 1) k m (ap (λ x. m (s + x)) (omega arith) ∙ z)
        (λ j lt e. b (suc j) (omega arith) (ap (λ x. m (s + x)) (omega arith) ∙ e)) (omega arith) in
    ground (arith, ih)
