-- ===== src/Shell/Lexer.antt =====
-- gettoken and peek: they stay on the line, they move on, and what a word is.
use cs_577_p.Base.{
  ℕ, zero, suc, ◌+◌, ◌-◌, ◌≤◌, ◌<◌, ◌≡◌, ◌≢◌, ◌⊎◌, inl, inr, refl, ap, ◌∙◌, arith, Bool, true,
  false, not, ◌&&◌, List, ◌==◌, Bool-cases,
}
use mathlib.Core.Path.{subst}
use cs_577_p.Shell.{
  Span, Token, one_of, whitespace, symbols, singles, skip, word_end, skip_white, token, token_at,
  gettoken, peek,
}

abbrev pub is_word : ℕ → Bool
is_word c = not (one_of whitespace c) && not (one_of symbols c)

-- A line: no null before its end, and one there.
pub record IsLine (buf : ℕ → ℕ) (es : ℕ) : Type 0 where
  pub null : buf es ≡ 0
  pub inside : (i : ℕ) → i < es → buf i ≢ 0

-- A word of the line that goes on neither at its end nor, from there, at any other.
pub record IsToken (buf : ℕ → ℕ) (es : ℕ) (a : Span) : Type 0 where
  pub some_byte : a.q < a.stop
  pub on_line : a.stop ≤ es
  pub words : (i : ℕ) → a.q ≤ i → i < a.stop → is_word (buf i) ≡ true
  pub stopped : (a.stop ≡ es) ⊎ (is_word (buf a.stop) ≡ false)

single_ne : (c : ℕ) → one_of singles c ≡ true → c ≢ b'a'
unfolding one_of
single_ne c h = ground arith

symbol_cases : (c : ℕ) → one_of singles c ≡ false → c ≢ b'>' → one_of symbols c ≡ false
unfolding one_of
symbol_cases c h n = ground arith

-- What a token of the line is worth to its caller.
pub record IsGood (buf : ℕ → ℕ) (es s : ℕ) (t : Token) : Type 0 where
  pub below : t.next ≤ es
  pub mono : s ≤ t.next
  pub past : s < es → s < t.next
  pub live : t.kind ≢ 0 → s < t.next
  pub word : t.kind ≡ b'a' → IsToken buf es t.span

module _ (buf : ℕ → ℕ) (es : ℕ) where
  skip_range : (n s : ℕ) → (s ≤ skip buf es n s) × (skip buf es n s ≤ s + n)
  unfolding skip
  skip_range zero s = omega arith
  skip_range (suc n) s = ground (arith, skip_range n (s + 1))

  skip_stop :
      (n s : ℕ) → skip buf es n s < s + n → one_of whitespace (buf (skip buf es n s)) ≡ false
  unfolding skip
  skip_stop zero s h = absurd (omega arith)
  skip_stop (suc n) s h = ground (arith, skip_stop n (s + 1))

  word_end_range : (n s : ℕ) → (s ≤ word_end buf es n s) × (word_end buf es n s ≤ s + n)
  unfolding word_end
  word_end_range zero s = omega arith
  word_end_range (suc n) s = ground (arith, word_end_range n (s + 1))

  word_end_words : (n s i : ℕ) → s ≤ i → i < word_end buf es n s → is_word (buf i) ≡ true
  unfolding word_end
  word_end_words zero s i h h' = absurd (omega arith)
  word_end_words (suc n) s i h h' = elim (Bool-cases (s == i)) [
    | inl e ↦ ground arith
    | inr e ↦ ground (arith, word_end_words n (s + 1) i)
  ]

  word_end_stop :
      (n s : ℕ) → word_end buf es n s < s + n → is_word (buf (word_end buf es n s)) ≡ false
  unfolding word_end
  word_end_stop zero s h = absurd (omega arith)
  word_end_stop (suc n) s h = ground (arith, word_end_stop n (s + 1))

  word_end_first : (n s : ℕ) → is_word (buf s) ≡ true → 0 < n → s < word_end buf es n s
  unfolding word_end
  word_end_first zero s e h = absurd (omega arith)
  word_end_first (suc n) s e h = ground (arith, word_end_range n (s + 1))

  pub skip_white_range : (s : ℕ) → s ≤ es → (s ≤ skip_white buf es s) × (skip_white buf es s ≤ es)
  unfolding skip_white
  skip_white_range s h = omega (arith, skip_range (es - s) s)

  skip_white_stop :
      (s : ℕ)
      → s ≤ es
      → skip_white buf es s < es
      → one_of whitespace (buf (skip_white buf es s)) ≡ false
  unfolding skip_white
  skip_white_stop s h h' = skip_stop (es - s) s (omega arith)

module _ (buf : ℕ → ℕ) (es : ℕ) (l : IsLine buf es) where
  -- A token that ends at `stop`, behind its start at `q`.
  plain :
      (s q ret stop : ℕ)
      → s ≤ q
      → q < stop
      → stop ≤ es
      → (ret ≡ b'a' → IsToken buf es (record { q = q; stop = stop }))
      → IsGood buf es s (token buf es ret q stop)
  unfolding token
  plain s q ret stop h h' h'' w =
      let r = skip_white_range buf es stop h'' in
      record {
        below = r.1;
        mono = omega arith;
        past = λ _. omega arith;
        live = λ _. omega arith;
        word = w;
      }

  at_end : (s : ℕ) → s ≤ es → IsGood buf es s (token buf es 0 es es)
  unfolding token
  at_end s h =
      let r = skip_white_range buf es es (omega arith) in
      record {
        below = r.1;
        mono = omega arith;
        past = λ h'. omega arith;
        live = λ n. absurd (n refl);
        word = λ e. absurd (omega arith);
      }

  on_line : (q : ℕ) → q ≤ es → buf q ≢ 0 → q < es
  on_line q h n = elim (Bool-cases (q == es)) [
    | inl e ↦ absurd (n (ap buf (ground arith) ∙ l.null))
    | inr e ↦ ground arith
  ]

  at_null : (q : ℕ) → q ≤ es → buf q ≡ 0 → es ≡ q
  at_null q h e = elim (Bool-cases (q == es)) [
    | inl z ↦ ground arith
    | inr z ↦ absurd (l.inside q (ground arith) e)
  ]

  -- The byte at `q` starts a word.
  word_token :
      (q : ℕ)
      → q < es
      → is_word (buf q) ≡ true
      → IsToken buf es (record { q = q; stop = word_end buf es (es - q) q })
  word_token q h e =
      let r = word_end_range buf es (es - q) q in
      record {
        some_byte = word_end_first buf es (es - q) q e (omega arith);
        on_line = omega arith;
        words = λ i a b. word_end_words buf es (es - q) q i a b;
        stopped = elim (Bool-cases (word_end buf es (es - q) q == es)) [
          | inl z ↦ inl (ground arith)
          | inr z ↦ inr (word_end_stop buf es (es - q) q (ground arith))
        ];
      }

  -- gettoken moves on, unless it is at the end, and not past the end; its words are words.
  pub token_at-IsGood :
      (s q : ℕ)
      → s ≤ q
      → q ≤ es
      → (q < es → one_of whitespace (buf q) ≡ false)
      → IsGood buf es s (token_at buf es q)
  unfolding token_at
  token_at-IsGood s q h h' w = elim (Bool-cases (buf q == 0)) [
    | inl e ↦ rw e (
        subst (λ x. IsGood buf es s (token buf es 0 x x)) (at_null q h' (ground arith))
          (at_end s (omega arith)))
    | inr e ↦ rw e (elim (Bool-cases (one_of singles (buf q))) [
      | inl e1 ↦ rw e1 (
          plain s q (buf q) (q + 1) h (omega arith) (omega (arith, on_line q h' (ground arith)))
            (λ z. absurd (single_ne (buf q) e1 z)))
      | inr e1 ↦ rw e1 (elim (Bool-cases (buf q == b'>')) [
        | inl e2 ↦ rw e2 (elim (Bool-cases (buf (q + 1) == b'>')) [
          | inl e3 ↦ rw e3 (
              plain s q b'+' (q + 2) h (omega arith)
                (omega (
                  arith,
                  on_line (q + 1) (omega (arith, on_line q h' (ground arith))) (ground arith),
                ))
                (λ z. absurd (omega arith)))
          | inr e3 ↦ rw e3 (
              plain s q b'>' (q + 1) h (omega arith) (omega (arith, on_line q h' (ground arith)))
                (λ z. absurd (omega arith)))
        ])
        | inr e2 ↦
            rw e2 (word_case (on_line q h' (ground arith)) (symbol_cases (buf q) e1 (ground arith)))
      ])
    ])
  ]
    where
      word_case :
          q < es
          → one_of symbols (buf q) ≡ false
          → IsGood buf es s (token buf es b'a' q (word_end buf es (es - q) q))
      word_case lt e =
          let t = word_token q lt (rw (w lt, e) refl) in
          plain s q b'a' (word_end buf es (es - q) q) h t.some_byte t.on_line (λ _. t)

  pub gettoken-IsGood : (s : ℕ) → s ≤ es → IsGood buf es s (gettoken buf es s)
  unfolding gettoken
  gettoken-IsGood s h =
      let r = skip_white_range buf es s h in
      token_at-IsGood s (skip_white buf es s) r.0 r.1 (skip_white_stop buf es s h)

  -- What peek sees is a byte of the line.
  pub peek-lt : (toks : List ℕ) (s : ℕ) → s ≤ es → peek buf es toks s ≡ true → s < es
  unfolding peek
  peek-lt toks s h e = on_line s h (λ z. absurd (ground arith))
