-- ===== src/Fs/Blocks/Alloc.antt =====
-- balloc takes the first free block, and bfree gives one back.
use cs_577_p.Base.{
  ℕ, zero, suc, ◌+◌, ◌*◌, ◌/◌, ◌%◌, ◌<◌, ◌≤◌, Bool, true, false, not, ◌≡◌, ◌⊎◌, refl, ap, ◌∙◌,
  arith, ◌==◌, ltb, if◌then◌else◌, inl, inr, Bool-cases, none, some, Outcome, ok, panic,
}
use mathlib.Core.Path.{subst, ap₂}
use cs_577_p.Fs.Blocks.{
  Disk, Superblock, bpb, bblock, is_clear, set_bit, first_clear, take_bit, balloc_from,
}
use cs_577_p.Fs.Blocks.Bitmap.{in_use, mark}

-- The search in one block of the map.
first_clear_cases :
    (n bi : ℕ) (bytes : ℕ → ℕ)
    → ((j : ℕ) × (first_clear n bi bytes ≡ some j)
        × ((bi ≤ j) × (j < bi + n))
        × (is_clear bytes j ≡ true)
        × ((i : ℕ) → bi ≤ i → i < j → is_clear bytes i ≡ false))
      ⊎ ((first_clear n bi bytes ≡ none)
          × ((i : ℕ) → bi ≤ i → i < bi + n → is_clear bytes i ≡ false))
unfolding first_clear
first_clear_cases zero bi bytes = inr (refl, λ i a b. absurd (omega arith))
first_clear_cases (suc n) bi bytes = elim (Bool-cases (is_clear bytes bi)) [
  | inl c ↦ inl (bi, rw c refl, (omega arith, omega arith), c, λ i a b. absurd (omega arith))
  | inr c ↦ elim (first_clear_cases n (suc bi) bytes) [
    | inl (j, e, r, h, l) ↦
        inl (j, rw c e, (omega (arith, r), omega (arith, r)), h, λ i a b. from c l i a b)
    | inr (e, l) ↦ inr (rw c e, λ i a b. from_all c l i a b)
  ]
]
  where
    from :
        {j : ℕ}
        → is_clear bytes bi ≡ false
        → ((i : ℕ) → suc bi ≤ i → i < j → is_clear bytes i ≡ false)
        → (i : ℕ) → bi ≤ i
        → i < j
        → is_clear bytes i ≡ false
    from c l i a b = elim (Bool-cases (bi == i)) [
      | inl e ↦ subst (λ x. is_clear bytes x ≡ false) (ground arith) c
      | inr e ↦ l i (ground arith) b
    ]

    from_all :
        is_clear bytes bi ≡ false
        → ((i : ℕ) → suc bi ≤ i → i < suc bi + n → is_clear bytes i ≡ false)
        → (i : ℕ) → bi ≤ i
        → i < bi + suc n
        → is_clear bytes i ≡ false
    from_all c l i a b = from c l i a (omega (arith, b))

bit_of :
    (n : ℕ) (d : Disk) (x b : ℕ)
    → bblock x n ≡ bblock b n
    → in_use n d x ≡ not (is_clear (d (bblock b n)) (x % bpb))
bit_of n d x b e = ap (λ y. not (is_clear (d y) (x % bpb))) e

-- `r` is the first free block of the map from `b` on.
pub record FirstFree (sb : Superblock) (d : Disk) (b r : ℕ) : Type 0 where
  pub from : b ≤ r
  pub in_map : r / bpb * bpb < sb.size
  pub was_free : in_use sb.ninodes d r ≡ false
  pub earlier : (x : ℕ) → b ≤ x → x < r → in_use sb.ninodes d x ≡ true

-- No block of the map is free, from `b` on.
abbrev pub AllUsed : Superblock → Disk → ℕ → Type 0
AllUsed sb d b = (x : ℕ) → b ≤ x → x / bpb * bpb < sb.size → in_use sb.ninodes d x ≡ true

abbrev taken : ℕ → Disk → Outcome (ℕ × Disk)
taken r d = ok (r, d)

-- One round, by what its search finds.
module _ (sb : Superblock) (d : Disk) (b : ℕ) (start : b % bpb ≡ 0) where
  set_here :
      (j : ℕ)
      → j < bpb
      → taken (b + j) (set_bit (bblock b sb.ninodes) j d)
        ≡ taken (b + j) (mark sb.ninodes (b + j) d)
  set_here j h =
      let e : bblock b sb.ninodes ≡ bblock (b + j) sb.ninodes = omega (arith, start, h) in
      let f : j ≡ (b + j) % bpb = omega (arith, start, h) in
      ap₂ (λ x y. taken (b + j) (set_bit x y d)) e f

  -- The bit of `x`, which the map's block for `b` has.
  at_round :
      (x : ℕ) (c : Bool)
      → b ≤ x
      → x < b + bpb
      → is_clear (d (bblock b sb.ninodes)) (x % bpb) ≡ c
      → in_use sb.ninodes d x ≡ not c
  at_round x c h h' e = bit_of sb.ninodes d x b (omega (arith, start, h, h')) ∙ ap not e

  -- Where the search finds nothing, a statement on the later blocks of the map goes for all.
  skip :
      ((i : ℕ) → 0 ≤ i → i < 0 + bpb → is_clear (d (bblock b sb.ninodes)) i ≡ false)
      → (x : ℕ) → b ≤ x
      → (b + bpb ≤ x → in_use sb.ninodes d x ≡ true)
      → in_use sb.ninodes d x ≡ true
  skip l x a k = elim (Bool-cases (ltb x (b + bpb))) [
    | inl near ↦ at_round x false a (ground arith) (l (x % bpb) (omega arith) (omega arith))
    | inr far ↦ k (ground arith)
  ]

  found :
      (j : ℕ)
      → b < sb.size
      → j < bpb
      → is_clear (d (bblock b sb.ninodes)) j ≡ true
      → ((i : ℕ) → i < j → is_clear (d (bblock b sb.ninodes)) i ≡ false)
      → FirstFree sb d b (b + j)
  found j s h c l = record {
    from = omega arith;
    in_map = omega (arith, start, s, h);
    was_free =
        at_round (b + j) true (omega arith) (omega (arith, h))
          (subst (λ y. is_clear (d (bblock b sb.ninodes)) y ≡ true) (omega (arith, start, h)) c);
    earlier = λ x a a'.
        at_round x false a (omega (arith, a', h)) (l (x % bpb) (omega (arith, start, a, a', h)));
  }

pub balloc_from_cases :
    (n b : ℕ) (sb : Superblock) (d : Disk)
    → b % bpb ≡ 0
    → sb.size ≤ b + n * bpb
    → ((r : ℕ) × (balloc_from n b sb d ≡ ok (r, mark sb.ninodes r d)) × FirstFree sb d b r)
      ⊎ ((balloc_from n b sb d ≡ panic) × AllUsed sb d b)
unfolding balloc_from
balloc_from_cases zero b sb d e h = inr (refl, λ x a a'. absurd (omega (arith, e, h, a, a')))
balloc_from_cases (suc n) b sb d e h = elim (Bool-cases (ltb b sb.size)) [
  | inr no_round ↦ inr (rw no_round refl, λ x a a'. absurd (ground (arith, e, a, a', no_round)))
  | inl go ↦ elim (first_clear_cases bpb 0 (d (bblock b sb.ninodes))) [
    | inl (j, f, (a, a'), c, l) ↦ inl (
      b + j,
      by_test go ∙ (ap (take_bit b sb d (balloc_from n (b + bpb) sb d)) f ∙ set_here sb d b e j a'),
      found sb d b e j (ground arith) a' c (λ i z. l i (omega arith) z),
    )
    | inr (f, l) ↦ elim (balloc_from_cases n (b + bpb) sb d (omega (arith, e)) (omega (arith, h))) [
      | inl (r, g, w) ↦ inl (
        r,
        by_test go ∙ (ap (take_bit b sb d (balloc_from n (b + bpb) sb d)) f ∙ g),
        record {
          from = omega (arith, w.from);
          in_map = w.in_map;
          was_free = w.was_free;
          earlier = λ x a a'. skip sb d b e l x a (λ z. w.earlier x z a');
        },
      )
      | inr (g, w) ↦ inr (
        by_test go ∙ (ap (take_bit b sb d (balloc_from n (b + bpb) sb d)) f ∙ g),
        λ x a a'. skip sb d b e l x a (λ z. w x z a'),
      )
    ]
  ]
]
  where
    by_test :
        ltb b sb.size ≡ true
        → balloc_from (suc n) b sb d
          ≡ take_bit b sb d
              (balloc_from n (b + bpb) sb d)
              (first_clear bpb 0 (d (bblock b sb.ninodes)))
    by_test t =
        ap
          (λ x.
            if x
            then take_bit b sb d (balloc_from n (b + bpb) sb d)
                (first_clear bpb 0 (d (bblock b sb.ninodes)))
            else panic)
          t
