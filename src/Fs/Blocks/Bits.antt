-- ===== src/Fs/Blocks/Bits.antt =====
-- The bits of a byte.
use cs_577_p.Base.{
  ℕ, zero, suc, ◌+◌, ◌-◌, ◌/◌, ◌%◌, ◌^◌, ◌<◌, Bool, true, false, not, ◌&&◌, ◌||◌, ◌≡◌, refl, arith,
  ◌==◌, ltb, if◌then◌else◌, inl, inr, Bool-cases,
}

-- `test` holds of every number below `n`.
abbrev all_below : ℕ → (ℕ → Bool) → Bool
all_below zero test = true
all_below (suc n) test = test n && all_below n test

all_below_lem : (n : ℕ) (test : ℕ → Bool) (i : ℕ) → all_below n test ≡ true → i < n → test i ≡ true
all_below_lem zero test i h l = absurd (omega (arith, l))
all_below_lem (suc n) test i h l = elim (Bool-cases (i == n)) [
  | inl e ↦ ground arith
  | inr e ↦ all_below_lem n test i (ground arith) (ground arith)
]

abbrev pub has_bit : ℕ → ℕ → Bool
has_bit x k = not (x / 2 ^ k % 2 == 0)

abbrev same : Bool → Bool → Bool
same a b = if a then b else not b

-- Bit `j` after bit `k` was set, or cleared, where it was not so before.
abbrev set_ok : ℕ → ℕ → ℕ → Bool
set_ok x k j =
    has_bit x k
    || (ltb (x + 2 ^ k) 256
        && (if j == k then has_bit (x + 2 ^ k) j else same (has_bit (x + 2 ^ k) j) (has_bit x j)))

abbrev clear_ok : ℕ → ℕ → ℕ → Bool
clear_ok x k j =
    not (has_bit x k)
    || (if j == k then not (has_bit (x - 2 ^ k) j) else same (has_bit (x - 2 ^ k) j) (has_bit x j))

set_table : all_below 256 (λ x. all_below 8 (λ k. all_below 8 (λ j. set_ok x k j))) ≡ true
set_table = refl

clear_table : all_below 256 (λ x. all_below 8 (λ k. all_below 8 (λ j. clear_ok x k j))) ≡ true
clear_table = refl

-- What the tables say, as equations.
read_set :
    (old new other low here : Bool)
    → old ≡ false
    → (old || (low && (if here then new else same new other))) ≡ true
    → (low ≡ true) × (new ≡ (if here then true else other))
read_set old new other low here h t = (ground arith, ground arith)

read_clear :
    (old new other here : Bool)
    → old ≡ true
    → (not old || (if here then not new else same new other)) ≡ true
    → new ≡ (if here then false else other)
read_clear old new other here h t = ground arith

at_table :
    (test : ℕ → ℕ → ℕ → Bool) (x k j : ℕ)
    → all_below 256 (λ x. all_below 8 (λ k. all_below 8 (λ j. test x k j))) ≡ true
    → x < 256
    → k < 8
    → j < 8
    → test x k j ≡ true
at_table test x k j t a b c =
    all_below_lem 8 (test x k) j
      (all_below_lem 8 (λ k. all_below 8 (λ j. test x k j)) k
        (all_below_lem 256 (λ x. all_below 8 (λ k. all_below 8 (λ j. test x k j))) x t a) b)
      c

-- Setting a clear bit keeps it a byte, and sets that bit and no other.
pub has_bit-set :
    (x k j : ℕ)
    → x < 256
    → k < 8
    → j < 8
    → has_bit x k ≡ false
    → (x + 2 ^ k < 256) × (has_bit (x + 2 ^ k) j ≡ (if j == k then true else has_bit x j))
has_bit-set x k j a b c h =
    let (l, e) =
      read_set (has_bit x k) (has_bit (x + 2 ^ k) j) (has_bit x j) (ltb (x + 2 ^ k) 256) (j == k) h
        (at_table set_ok x k j set_table a b c) in
    (ground arith, e)

pub has_bit-clear :
    (x k j : ℕ)
    → x < 256
    → k < 8
    → j < 8
    → has_bit x k ≡ true
    → has_bit (x - 2 ^ k) j ≡ (if j == k then false else has_bit x j)
has_bit-clear x k j a b c h =
    read_clear (has_bit x k) (has_bit (x - 2 ^ k) j) (has_bit x j) (j == k) h
      (at_table clear_ok x k j clear_table a b c)
