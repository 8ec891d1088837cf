-- ===== src/Shell/Strings.antt =====
-- nulterminate and parsecmd: the arguments and file names of a command as strings.
use cs_577_p.Base.{
  ℕ, ◌+◌, ◌*◌, ◌≤◌, ◌<◌, ◌≡◌, ◌≢◌, ◌⊎◌, inl, inr, refl, sym, ap, ◌∙◌, arith, Bool, true, false,
  List, [], ◌∷◌, ◌==◌, Bool-cases,
}
use cs_577_p.Shell.{
  Span, Cmd, exec, redir, pipe, list, back, Run, done, syntax, unfinished, skip_white, parseline,
  nulterminate, end_args, end_at, parsecmd,
}
use cs_577_p.Shell.Lexer.{IsLine, IsToken, is_word}
use cs_577_p.Shell.Parser.{Ends, Parsed, Tokens, Each, EachArg, ArgTokens}
use cs_577_p.Shell.Commands.{parseline-Ends}

-- The span is a string of `b`, with the bytes that it has on the line `buf`.
pub record IsString (buf b : ℕ → ℕ) (a : Span) : Type 0 where
  pub same : (i : ℕ) → a.q ≤ i → i < a.stop → (b i ≡ buf i) × (b i ≢ 0)
  pub ended : b a.stop ≡ 0

abbrev Ended : (ℕ → ℕ) → Span → Type 0
Ended b a = b a.stop ≡ 0

-- A null stays.
end_at-null : (p : ℕ) (b : ℕ → ℕ) (i : ℕ) → b i ≡ 0 → end_at p b i ≡ 0
unfolding end_at
end_at-null p b i h = ground arith

end_args-null : (as' : List Span) (b : ℕ → ℕ) (i : ℕ) → b i ≡ 0 → end_args as' b i ≡ 0
unfolding end_args
end_args-null [] b i h = h
end_args-null (a ∷ rest) b i h = end_args-null rest (end_at a.stop b) i (end_at-null a.stop b i h)

nulterminate-null : (c : Cmd) (b : ℕ → ℕ) (i : ℕ) → b i ≡ 0 → nulterminate c b i ≡ 0
unfolding nulterminate
nulterminate-null (exec args) b i h = end_args-null args b i h
nulterminate-null (redir c r) b i h =
    end_at-null r.file.stop (nulterminate c b) i (nulterminate-null c b i h)
nulterminate-null (pipe l r) b i h =
    nulterminate-null r (nulterminate l b) i (nulterminate-null l b i h)
nulterminate-null (list l r) b i h =
    nulterminate-null r (nulterminate l b) i (nulterminate-null l b i h)
nulterminate-null (back c) b i h = nulterminate-null c b i h

-- Each string is ended, and no later step takes its end away.
Each-keep :
    (c : Cmd) (b b' : ℕ → ℕ) → ((i : ℕ) → b i ≡ 0 → b' i ≡ 0) → Each (Ended b) c → Each (Ended b') c
Each-keep (exec args) b b' k h = args_keep args h
  where
    args_keep : (as' : List Span) → EachArg (Ended b) as' → EachArg (Ended b') as'
    args_keep [] h = tt
    args_keep (a ∷ rest) h = (k a.stop h.0, args_keep rest h.1)
Each-keep (redir c r) b b' k h = (Each-keep c b b' k h.0, k r.file.stop h.1)
Each-keep (pipe l r) b b' k h = (Each-keep l b b' k h.0, Each-keep r b b' k h.1)
Each-keep (list l r) b b' k h = (Each-keep l b b' k h.0, Each-keep r b b' k h.1)
Each-keep (back c) b b' k h = Each-keep c b b' k h

end_at_self : (p : ℕ) (b : ℕ → ℕ) → end_at p b p ≡ 0
unfolding end_at
end_at_self p b = ground arith

end_args-Ended : (as' : List Span) (b : ℕ → ℕ) → EachArg (Ended (end_args as' b)) as'
unfolding end_args
end_args-Ended [] b = tt
end_args-Ended (a ∷ rest) b = (
  end_args-null rest (end_at a.stop b) a.stop (end_at_self a.stop b),
  end_args-Ended rest (end_at a.stop b),
)

nulterminate-Ended : (c : Cmd) (b : ℕ → ℕ) → Each (Ended (nulterminate c b)) c
unfolding nulterminate
nulterminate-Ended (exec args) b = end_args-Ended args b
nulterminate-Ended (redir c r) b = (
  Each-keep c (nulterminate c b) (end_at r.file.stop (nulterminate c b))
      (λ i. end_at-null r.file.stop (nulterminate c b) i) (nulterminate-Ended c b),
  end_at_self r.file.stop (nulterminate c b),
)
nulterminate-Ended (pipe l r) b = (
  Each-keep l (nulterminate l b) (nulterminate r (nulterminate l b))
      (λ i. nulterminate-null r (nulterminate l b) i) (nulterminate-Ended l b),
  nulterminate-Ended r (nulterminate l b),
)
nulterminate-Ended (list l r) b = (
  Each-keep l (nulterminate l b) (nulterminate r (nulterminate l b))
      (λ i. nulterminate-null r (nulterminate l b) i) (nulterminate-Ended l b),
  nulterminate-Ended r (nulterminate l b),
)
nulterminate-Ended (back c) b = nulterminate-Ended c b

module _ (buf : ℕ → ℕ) (es : ℕ) where
  -- The end of a word is no byte of any word.
  end_at-word :
      (a : Span) (b : ℕ → ℕ) (i : ℕ)
      → IsToken buf es a
      → i < es
      → is_word (buf i) ≡ true
      → end_at a.stop b i ≡ b i
  unfolding end_at
  end_at-word a b i t h w = elim (Bool-cases (i == a.stop)) [
    | inl e ↦ absurd (not_both t.stopped (ground arith))
    | inr e ↦ rw e refl
  ]
    where
      not_both : (a.stop ≡ es) ⊎ (is_word (buf a.stop) ≡ false) → i ≡ a.stop → ⊥
      not_both (inl z) e = omega arith
      not_both (inr z) e = let y = sym (ap (λ x. is_word (buf x)) e) ∙ w in cc (sym z ∙ y)

  end_args-word :
      (as' : List Span) (b : ℕ → ℕ) (i : ℕ)
      → ArgTokens buf es as'
      → i < es
      → is_word (buf i) ≡ true
      → end_args as' b i ≡ b i
  unfolding end_args
  end_args-word [] b i t h w = refl
  end_args-word (a ∷ rest) b i t h w =
      end_args-word rest (end_at a.stop b) i t.1 h w ∙ end_at-word a b i t.0 h w

  nulterminate-word :
      (c : Cmd) (b : ℕ → ℕ) (i : ℕ)
      → Tokens buf es c
      → i < es
      → is_word (buf i) ≡ true
      → nulterminate c b i ≡ b i
  unfolding nulterminate
  nulterminate-word (exec args) b i t h w = end_args-word args b i t h w
  nulterminate-word (redir c r) b i t h w =
      end_at-word r.file (nulterminate c b) i t.1 h w ∙ nulterminate-word c b i t.0 h w
  nulterminate-word (pipe l r) b i t h w =
      nulterminate-word r (nulterminate l b) i t.1 h w ∙ nulterminate-word l b i t.0 h w
  nulterminate-word (list l r) b i t h w =
      nulterminate-word r (nulterminate l b) i t.1 h w ∙ nulterminate-word l b i t.0 h w
  nulterminate-word (back c) b i t h w = nulterminate-word c b i t h w

Each-both :
    (P Q R : Span → Type 0)
    → ((a : Span) → P a → Q a → R a)
    → (c : Cmd) → Each P c
    → Each Q c
    → Each R c
Each-both P Q R f (exec args) h k = args_both args h k
  where
    args_both : (as' : List Span) → EachArg P as' → EachArg Q as' → EachArg R as'
    args_both [] h k = tt
    args_both (a ∷ rest) h k = (f a h.0 k.0, args_both rest h.1 k.1)
Each-both P Q R f (redir c r) h k = (Each-both P Q R f c h.0 k.0, f r.file h.1 k.1)
Each-both P Q R f (pipe l r) h k = (Each-both P Q R f l h.0 k.0, Each-both P Q R f r h.1 k.1)
Each-both P Q R f (list l r) h k = (Each-both P Q R f l h.0 k.0, Each-both P Q R f r h.1 k.1)
Each-both P Q R f (back c) h k = Each-both P Q R f c h k

-- A word of the line that is a string of `b`.
abbrev pub IsWord : (ℕ → ℕ) → ℕ → (ℕ → ℕ) → Span → Type 0
IsWord buf es b a = IsToken buf es a × IsString buf b a

at_end : {A : Type 0} (x y : Run A) (t : Bool) → t ≡ true → elim t [ false ↦ x | true ↦ y ] ≡ y
at_end x y true h = refl
at_end x y false h = cc

left_over : {A : Type 0} (x y : Run A) (t : Bool) → t ≡ false → elim t [ false ↦ x | true ↦ y ] ≡ x
left_over x y true h = cc
left_over x y false h = refl

-- parsecmd ends on every line: in a call of panic, or in a command each of whose arguments and file
-- names is a word of the line, not empty and as long as it can be, which nulterminate has made a
-- string of the same bytes.
pub parsecmd_lem :
    (buf : ℕ → ℕ) (es : ℕ)
    → IsLine buf es
    → (parsecmd buf es ≡ syntax)
      ⊎ ((c : Cmd) × (b : ℕ → ℕ) × (parsecmd buf es ≡ done (c, b)) × Each (IsWord buf es b) c)
unfolding parsecmd
parsecmd_lem buf es l =
    by_run (parseline buf es (4 * es + 4) 0) refl
      (parseline-Ends buf es l (4 * es + 4) 0 (omega arith) (omega arith))
  where
    word_of : (c : Cmd) → Tokens buf es c → Each (IsWord buf es (nulterminate c buf)) c
    word_of c t =
        Each-both (IsToken buf es) (Ended (nulterminate c buf)) (IsWord buf es (nulterminate c buf))
          (λ a p e. (
            p,
            record {
              same = λ i h h'.
                  let k =
                    nulterminate-word buf es c buf i t (omega (arith, p.on_line))
                      (p.words i h h') in
                  (k, λ z. l.inside i (omega (arith, p.on_line)) (sym k ∙ z));
              ended = e;
            },
          ))
          c t (nulterminate-Ended c buf)

    by_run :
        (m : Run (Cmd × ℕ))
        → parseline buf es (4 * es + 4) 0 ≡ m
        → Ends (Parsed buf es 0) m
        → (parsecmd buf es ≡ syntax)
          ⊎ ((c : Cmd) × (b : ℕ → ℕ) × (parsecmd buf es ≡ done (c, b)) × Each (IsWord buf es b) c)
    by_run (done (c, s)) e p = elim (Bool-cases (skip_white buf es s == es)) [
      | inl z ↦ inr (
        c,
        nulterminate c buf,
        rw e (at_end syntax (done (c, nulterminate c buf)) (skip_white buf es s == es) z),
        word_of c p.1,
      )
      | inr z ↦
          inl (rw e (left_over syntax (done (c, nulterminate c buf)) (skip_white buf es s == es) z))
    ]
    by_run syntax e p = inl (rw e refl)
    by_run unfinished e p = absurd p
