-- ===== src/Fs/Contents/Copies.antt =====
-- Copies of bytes: what is inside, what is outside, and a copy in two pieces.
use cs_577_p.Base.{
  ℕ, ◌+◌, ◌-◌, ◌<◌, ◌≤◌, ◌&&◌, ◌≡◌, ◌⊎◌, sym, ap, ◌∙◌, arith, ltb, leb, if◌then◌else◌, inl, inr,
  Bool-cases,
}
use cs_577_p.Fs.Contents.{Mem, copy_bytes}

-- Where `a` lies in a copy, and where it does not.
pub copy_in :
    (to : ℕ) (source : ℕ → ℕ) (from n : ℕ) (target : ℕ → ℕ) (a : ℕ)
    → to ≤ a
    → a < to + n
    → copy_bytes to source from n target a ≡ source (from + (a - to))
copy_in to source from n target a h h' = ground arith

pub copy_out :
    (to : ℕ) (source : ℕ → ℕ) (from n : ℕ) (target : ℕ → ℕ) (a : ℕ)
    → (a < to) ⊎ (to + n ≤ a)
    → copy_bytes to source from n target a ≡ target a
copy_out to source from n target a (inl h) = ground arith
copy_out to source from n target a (inr h) = ground arith

pub copy_none :
    (to : ℕ) (source : ℕ → ℕ) (from n : ℕ) (target : ℕ → ℕ) (a : ℕ)
    → n ≡ 0
    → copy_bytes to source from n target a ≡ target a
copy_none to source from n target a h = ground arith

-- A piece of a source, and then the rest.
pub copy_pieces :
    (part all : ℕ → ℕ) (mem : Mem) (at_part off left to m a : ℕ)
    → m ≤ left
    → ((i : ℕ) → i < m → part (at_part + i) ≡ all (off + i))
    → copy_bytes (to + m) all (off + m) (left - m) (copy_bytes to part at_part m mem) a
      ≡ copy_bytes to all off left mem a
copy_pieces part all mem at_part off left to m a h e = elim (Bool-cases (ltb a to)) [
  | inl before ↦
      copy_out (to + m) all (off + m) (left - m) (copy_bytes to part at_part m mem) a
        (inl (ground arith))
      ∙ (copy_out to part at_part m mem a (inl (ground arith))
          ∙ sym (copy_out to all off left mem a (inl (ground arith))))
  | inr from ↦ elim (Bool-cases (ltb a (to + m))) [
    | inl in_part ↦
        copy_out (to + m) all (off + m) (left - m) (copy_bytes to part at_part m mem) a
          (inl (ground arith))
        ∙ (copy_in to part at_part m mem a (ground arith) (ground arith)
            ∙ (e (a - to) (ground arith)
                ∙ sym (copy_in to all off left mem a (ground arith) (ground (arith, h)))))
    | inr past ↦ elim (Bool-cases (ltb a (to + left))) [
      | inl in_rest ↦
          copy_in (to + m) all (off + m) (left - m) (copy_bytes to part at_part m mem) a
            (ground arith) (ground (arith, h))
          ∙ (ap all (ground arith)
              ∙ sym (copy_in to all off left mem a (ground arith) (ground arith)))
      | inr after ↦
          copy_out (to + m) all (off + m) (left - m) (copy_bytes to part at_part m mem) a
            (inr (ground (arith, h)))
          ∙ (copy_out to part at_part m mem a (inr (ground arith))
              ∙ sym (copy_out to all off left mem a (inr (ground arith))))
    ]
  ]
]

-- Two copies of the same source, seen at the same distance from their starts.
pub copy_shift :
    (to to' from n q q' : ℕ) (source target target' : ℕ → ℕ)
    → q + to' ≡ q' + to
    → target q ≡ target' q'
    → copy_bytes to source from n target q ≡ copy_bytes to' source from n target' q'
copy_shift to to' from n q q' source target target' h e =
    elim (Bool-cases (leb to q && ltb q (to + n))) [
      | inl there ↦
          let same : from + (q - to) ≡ from + (q' - to') = ground (arith, h, there) in
          copy_in to source from n target q (ground arith) (ground arith)
          ∙ (ap source same
              ∙ sym (
                  copy_in to' source from n target' q' (ground (arith, h, there))
                    (ground (arith, h, there))))
      | inr past ↦
          copy_out to source from n target q (ground (arith, past))
          ∙ (e ∙ sym (copy_out to' source from n target' q' (ground (arith, h, past))))
    ]

-- Equal targets give equal copies.
pub copy_same :
    (to from n q : ℕ) (source target target' : ℕ → ℕ)
    → target q ≡ target' q
    → copy_bytes to source from n target q ≡ copy_bytes to source from n target' q
copy_same to from n q source target target' e =
    ap (λ y. if leb to q && ltb q (to + n) then source (from + (q - to)) else y) e
