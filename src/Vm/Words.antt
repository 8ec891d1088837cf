-- ===== src/Vm/Words.antt =====
-- Words in a memory of bytes, and the bits that the entries of page tables are put together from.
use Prim.Native.Nat.{max, digits, bit_or, bit_or-bitwise}
use cs_577_p.Base.{ℕ, zero, suc, ◌+◌, ◌*◌, ◌/◌, ◌%◌, ◌^◌, ◌≤◌, ◌<◌, ◌≡◌, ◌⊎◌, inl, inr, refl, arith}
use cs_577_p.Syscall.{word_at}
use cs_577_p.Kalloc.{pgsize, memset, set_next}
use cs_577_p.Vm.{store_word}

-- The definition behind `bit_or` takes the first number for fuel; any larger fuel gives the same.
same_digits : (m n a b : ℕ) → a ≤ m → a ≤ n → digits (λ x. x) max m a b ≡ digits (λ x. x) max n a b
same_digits zero zero zero b h h' = refl
same_digits zero (suc n) zero b h h' = refl
same_digits (suc m) zero zero b h h' = refl
same_digits (suc m) (suc n) zero b h h' = refl
same_digits zero n (suc a) b h h' = absurd (omega arith)
same_digits (suc m) zero (suc a) b h h' = absurd (omega arith)
same_digits (suc m) (suc n) (suc a) b h h' =
    omega (arith, same_digits m n (suc a / 2) (b / 2) (omega arith) (omega arith))

-- The lowest bit, and the others.
pub bit_or-halves : (a b : ℕ) → bit_or a b ≡ 2 * bit_or (a / 2) (b / 2) + max (a % 2) (b % 2)
bit_or-halves zero b = omega (arith, bit_or-bitwise 0 b, bit_or-bitwise 0 (b / 2))
bit_or-halves (suc a) b = omega (
  arith,
  bit_or-bitwise (suc a) b,
  bit_or-bitwise (suc a / 2) (b / 2),
  same_digits a (suc a / 2) (suc a / 2) (b / 2) (omega arith) (omega arith),
)

bit_or-zero_below : (n a : ℕ) → a ≤ n → bit_or a 0 ≡ a
bit_or-zero_below zero zero h = refl
bit_or-zero_below zero (suc a) h = absurd (omega arith)
bit_or-zero_below (suc n) zero h = refl
bit_or-zero_below (suc n) (suc a) h =
    omega (arith, bit_or-halves (suc a) 0, bit_or-zero_below n (suc a / 2) (omega arith))

pub bit_or-zero : (a : ℕ) → bit_or a 0 ≡ a
bit_or-zero a = bit_or-zero_below a a (omega arith)

-- An or with `k` low bits changes no other bit.
bit_or_low1 : (q r p : ℕ) → r < 2 → p < 2 → bit_or (2 * q + r) p ≡ 2 * q + bit_or r p
bit_or_low1 q r p h h' =
    ground (arith, bit_or-halves (2 * q + r) p, bit_or-halves r p, bit_or-zero q, bit_or-zero 0)

bit_or_low2 : (q r p : ℕ) → r < 4 → p < 4 → bit_or (4 * q + r) p ≡ 4 * q + bit_or r p
bit_or_low2 q r p h h' =
    ground (arith, bit_or-halves (4 * q + r) p, bit_or-halves r p, bit_or_low1 q (r / 2) (p / 2))

-- An or with three low bits changes no other bit.
pub bit_or_low : (q r p : ℕ) → r < 8 → p < 8 → bit_or (8 * q + r) p ≡ 8 * q + bit_or r p
bit_or_low q r p h h' =
    ground (arith, bit_or-halves (8 * q + r) p, bit_or-halves r p, bit_or_low2 q (r / 2) (p / 2))

-- The three low bits stay three low bits.
pub bit_or_small : (r p : ℕ) → r < 8 → p < 8 → bit_or r p < 8
bit_or_small r p h h' = ground (
  arith,
  bit_or-halves r p,
  bit_or-halves (r / 2) (p / 2),
  bit_or-halves (r / 2 / 2) (p / 2 / 2),
  bit_or-zero 0,
)

pub zero-bit_or : (p : ℕ) → bit_or 0 p ≡ p
zero-bit_or p = bit_or-bitwise 0 p

-- The flags of a page's entry: an or leaves the frame's address as it is.
pub bit_or_flags : (f r p : ℕ) → f % pgsize ≡ 0 → r < 8 → p < 8 → bit_or (f + r) p ≡ f + bit_or r p
bit_or_flags f r p a h h' = ground (arith, bit_or_low (f / 8) r p)

-- An entry that is present, for the frame `f`.
pub record IsEntry (v f : ℕ) : Type 0 where
  pub small : v < 2 ^ 32
  pub frame : v / pgsize * pgsize ≡ f
  pub present : v % 2 ≡ 1

pub word_at-store_word : (m : ℕ → ℕ) (p v : ℕ) → v < 2 ^ 32 → word_at (store_word p v m) p ≡ v
unfolding store_word
word_at-store_word m p v h = ground arith

pub word_at-store_word_apart :
    (m : ℕ → ℕ) (p q v : ℕ) → (p + 4 ≤ q) ⊎ (q + 4 ≤ p) → word_at (store_word p v m) q ≡ word_at m q
unfolding store_word
word_at-store_word_apart m p q v (inl h) = ground arith
word_at-store_word_apart m p q v (inr h) = ground arith

pub word_at-memset_in :
    (m : ℕ → ℕ) (t n a : ℕ) → t ≤ a → a + 4 ≤ t + n → word_at (memset m t 0 n) a ≡ 0
word_at-memset_in m t n a h h' = ground arith

pub word_at-set_next_out :
    (m : ℕ → ℕ) (t v a : ℕ) → (a + 4 ≤ t) ⊎ (t + 4 ≤ a) → word_at (set_next m t v) a ≡ word_at m a
word_at-set_next_out m t v a (inl h) = ground arith
word_at-set_next_out m t v a (inr h) = ground arith

pub word_at-memset_out :
    (m : ℕ → ℕ) (t v n a : ℕ) → (a + 4 ≤ t) ⊎ (t + n ≤ a) → word_at (memset m t v n) a ≡ word_at m a
word_at-memset_out m t v n a (inl h) = ground arith
word_at-memset_out m t v n a (inr h) = ground arith
