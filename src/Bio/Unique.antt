-- ===== src/Bio/Unique.antt =====
-- A block has at most one buffer.
use cs_577_p.Base.{
  ℕ, ◌≡◌, ◌≢◌, none, some, List, arith, ◌⊎◌, inl, inr, get_elem?, find_index, modify,
  find_index-none, get_elem?-modify_inv,
}
use cs_577_p.Bio.{Buf, is_block, recycle, no_dev}

-- No two buffers of the list hold one block.
abbrev pub Unique : List Buf → Type 0
Unique bs =
    (i j : ℕ) (a b : Buf)
    → get_elem? bs i ≡ some a
    → get_elem? bs j ≡ some b
    → a.dev ≢ no_dev
    → a.dev ≡ b.dev
    → a.sector ≡ b.sector
    → i ≡ j

-- A change that keeps an entry's block.
pub same_block-Unique :
    (bs : List Buf) (k : ℕ) (f : Buf → Buf)
    → ((b : Buf) → ((f b).dev ≡ b.dev) × ((f b).sector ≡ b.sector))
    → Unique bs
    → Unique (modify bs k f)
same_block-Unique bs k f h u i j a b e e' n d s =
    let (a0, q, c) = get_elem?-modify_inv bs k i f a e in
    let (b0, q', c') = get_elem?-modify_inv bs k j f b e' in
    u i j a0 b0 q q' (ground (arith, h a0)) (ground (arith, h a0, h b0))
      (ground (arith, h a0, h b0))

pub recycle-Unique :
    (bs : List Buf) (k dev sector : ℕ)
    → find_index (is_block dev sector) bs ≡ none
    → Unique bs
    → Unique (modify bs k (recycle dev sector))
recycle-Unique bs k dev sector f u i j a b e e' n d s =
    let (a0, q, c) = get_elem?-modify_inv bs k i (recycle dev sector) a e in
    let (b0, q', c') = get_elem?-modify_inv bs k j (recycle dev sector) b e' in
    by_case a0 q c b0 q' c'
  where
    by_case :
        (a0 : Buf)
        → get_elem? bs i ≡ some a0
        → (((k ≡ i) × (a ≡ recycle dev sector a0)) ⊎ ((k ≢ i) × (a ≡ a0)))
        → (b0 : Buf) → get_elem? bs j ≡ some b0
        → (((k ≡ j) × (b ≡ recycle dev sector b0)) ⊎ ((k ≢ j) × (b ≡ b0)))
        → i ≡ j
    by_case a0 q (inl (p, r)) b0 q' (inl (p', r')) = omega arith
    by_case a0 q (inl (p, r)) b0 q' (inr (p', r')) =
        absurd (ground (arith, find_index-none (is_block dev sector) bs j b0 f q'))
    by_case a0 q (inr (p, r)) b0 q' (inl (p', r')) =
        absurd (ground (arith, find_index-none (is_block dev sector) bs i a0 f q))
    by_case a0 q (inr (p, r)) b0 q' (inr (p', r')) =
        u i j a0 b0 q q' (ground arith) (ground arith) (ground arith)
