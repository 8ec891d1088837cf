-- ===== src/Fs/Blocks/Bitmap.antt =====
-- The bits of the free map as a set of blocks: what a change of one bit does to the others.
use cs_577_p.Base.{
  ℕ, ◌+◌, ◌-◌, ◌/◌, ◌%◌, ◌^◌, ◌<◌, Bool, true, false, ◌&&◌, ◌≡◌, ◌≢◌, sym, ap, ◌∙◌, arith, ◌==◌,
  if◌then◌else◌, inl, inr, Bool-cases,
}
use mathlib.Core.Path.{subst}
use cs_577_p.Fs.Blocks.{Disk, write_byte, bpb, bblock, set_bit, clear_bit}
use cs_577_p.Fs.Blocks.Bits.{has_bit, has_bit-set, has_bit-clear}

-- The map says that block `b` is in use; `n` is the number of inodes.
abbrev pub in_use : ℕ → Disk → ℕ → Bool
in_use n d b = has_bit (d (bblock b n) (b % bpb / 8)) (b % bpb % 8)

-- All of the disk are bytes.
abbrev pub IsDisk : Disk → Type 0
IsDisk d = (b o : ℕ) → d b o < 256

-- The disk with the bit of `b` set, and cleared.
abbrev pub mark : ℕ → ℕ → Disk → Disk
mark n b d = set_bit (bblock b n) (b % bpb) d

abbrev pub unmark : ℕ → ℕ → Disk → Disk
unmark n b d = clear_bit (bblock b n) (b % bpb) d

same_block : (n a b : ℕ) → bblock a n ≡ bblock b n → a / bpb ≡ b / bpb
same_block n a b e = omega (arith, e)

same_bit :
    (a b : ℕ) → a / bpb ≡ b / bpb → a % bpb / 8 ≡ b % bpb / 8 → a % bpb % 8 ≡ b % bpb % 8 → a ≡ b
same_bit a b e f g = omega (arith, e, f, g)

self : (x : ℕ) → (x == x) ≡ true
self x = ground arith

not_self : (x y : ℕ) → x ≢ y → (x == y) ≡ false
not_self x y h = ground arith

both : (x y : ℕ) → ((x == x) && (y == y)) ≡ true
both x y = ground arith

-- A write to the byte of `b`, seen at the bit of `a`.
module _ (n b v : ℕ) (d : Disk) (bit : Bool)
    (at_byte : (j : ℕ)
      → j < 8
      → has_bit v j
        ≡ (if j == b % bpb % 8 then bit else has_bit (d (bblock b n) (b % bpb / 8)) j)) where
  abbrev written : Disk
  written = write_byte (bblock b n) (b % bpb / 8) v d

  -- The byte at the bit of `a`, by whether it is the one that was written.
  seen :
      (a : ℕ) (x : Bool)
      → ((bblock b n == bblock a n) && (b % bpb / 8 == a % bpb / 8)) ≡ x
      → in_use n written a ≡ has_bit (if x then v else d (bblock a n) (a % bpb / 8)) (a % bpb % 8)
  seen a x e = ap (λ y. has_bit (if y then v else d (bblock a n) (a % bpb / 8)) (a % bpb % 8)) e

  other_byte :
      (a : ℕ)
      → ((bblock b n == bblock a n) && (b % bpb / 8 == a % bpb / 8)) ≡ false
      → in_use n written a ≡ (if b == a then bit else in_use n d a)
  other_byte a e = elim (Bool-cases (b == a)) [
    | inl s ↦
        let eq : b ≡ a = ground arith in
        absurd (
          ground (
            arith,
            subst (λ x. ((bblock b n == bblock x n) && (b % bpb / 8 == x % bpb / 8)) ≡ true) eq
                (both (bblock b n) (b % bpb / 8)),
          ))
    | inr ne ↦ seen a false e ∙ sym (ap (λ x. if x then bit else in_use n d a) ne)
  ]

  same_byte :
      (a : ℕ)
      → bblock b n ≡ bblock a n
      → b % bpb / 8 ≡ a % bpb / 8
      → in_use n written a ≡ (if b == a then bit else in_use n d a)
  same_byte a e f =
      seen a true (ground arith)
      ∙ (at_byte (a % bpb % 8) (omega arith)
          ∙ (ap (λ x. if x then bit else has_bit (d (bblock b n) (b % bpb / 8)) (a % bpb % 8))
                (bit_place a b e f)
              ∙ ap (λ y. if b == a then bit else has_bit y (a % bpb % 8))
                  (ap (λ x. d x (b % bpb / 8)) e ∙ ap (d (bblock a n)) f)))
    where
      bit_place :
          (a b : ℕ)
          → bblock b n ≡ bblock a n
          → b % bpb / 8 ≡ a % bpb / 8
          → (a % bpb % 8 == b % bpb % 8) ≡ (b == a)
      bit_place a b e f = elim (Bool-cases (b == a)) [
        | inl s ↦ let eq : b ≡ a = ground arith in rw (s, eq) (self (a % bpb % 8))
        | inr ne ↦ rw ne (
            not_self (a % bpb % 8) (b % bpb % 8)
              (λ g. absurd (ground (arith, same_bit b a (same_block n b a e) f (sym g)))))
      ]

  in_use-written : (a : ℕ) → in_use n written a ≡ (if b == a then bit else in_use n d a)
  in_use-written a =
      elim (Bool-cases ((bblock b n == bblock a n) && (b % bpb / 8 == a % bpb / 8))) [
        | inl e ↦ same_byte a (ground arith) (ground arith)
        | inr e ↦ other_byte a e
      ]

module _ (n b : ℕ) (d : Disk) (all : IsDisk d) where
  -- Setting the bit of a free block changes the state of that block and no other.
  pub in_use-mark :
      in_use n d b ≡ false
      → (IsDisk (mark n b d))
        × ((a : ℕ) → in_use n (mark n b d) a ≡ (if b == a then true else in_use n d a))
  in_use-mark h = (
    λ c o. below c o,
    in_use-written n b (d (bblock b n) (b % bpb / 8) + 2 ^ (b % bpb % 8)) d true (λ j l.
        (has_bit-set (d (bblock b n) (b % bpb / 8)) (b % bpb % 8) j (all (bblock b n) (b % bpb / 8))
          (omega arith) l h).1),
  )
    where
      low : d (bblock b n) (b % bpb / 8) + 2 ^ (b % bpb % 8) < 256
      low =
          (has_bit-set (d (bblock b n) (b % bpb / 8)) (b % bpb % 8) 0
            (all (bblock b n) (b % bpb / 8)) (omega arith) (omega arith) h).0

      below : (c o : ℕ) → mark n b d c o < 256
      below c o = elim (Bool-cases ((bblock b n == c) && (b % bpb / 8 == o))) [
        | inl e ↦
            subst
              (λ x. (if x then d (bblock b n) (b % bpb / 8) + 2 ^ (b % bpb % 8) else d c o) < 256)
              (sym e) low
        | inr e ↦
            subst
              (λ x. (if x then d (bblock b n) (b % bpb / 8) + 2 ^ (b % bpb % 8) else d c o) < 256)
              (sym e) (all c o)
      ]

  -- And clearing the bit of one in use.
  pub in_use-unmark :
      in_use n d b ≡ true
      → (a : ℕ) → in_use n (unmark n b d) a ≡ (if b == a then false else in_use n d a)
  in_use-unmark h =
      in_use-written n b (d (bblock b n) (b % bpb / 8) - 2 ^ (b % bpb % 8)) d false (λ j l.
        has_bit-clear (d (bblock b n) (b % bpb / 8)) (b % bpb % 8) j
          (all (bblock b n) (b % bpb / 8)) (omega arith) l h)
