-- ===== src/Shell/Parser.antt =====
-- The parser ends on every line, and what it takes for file names and arguments are words of the line.
use cs_577_p.Base.{
  ℕ, zero, suc, ◌+◌, ◌-◌, ◌≤◌, ◌<◌, ◌≡◌, refl, arith, Bool, true, false, not, ◌||◌, List, [], ◌∷◌,
  ◌++◌, ◌==◌, leb,
}
use cs_577_p.Shell.{
  Span, Redir, Cmd, exec, redir, pipe, list, back, Run, done, syntax, unfinished, ◌>>=◌, gettoken,
  peek, skip_white, redir_of, parseredirs, parse_args, parse_simple, parse_backs, wrap_redirs,
  max_args,
}
use cs_577_p.Shell.Lexer.{IsLine, IsToken, skip_white_range, gettoken-IsGood, peek-lt}

-- The run ends, in a result with `P` or a call of panic.
abbrev pub Ends : {A : Type 0} → (A → Type 0) → Run A → Type 0
Ends P (done a) = P a
Ends P syntax = Unit
Ends P unfinished = ⊥

pub Ends-bind :
    {A B : Type 0} (P : A → Type 0) (Q : B → Type 0) (m : Run A) (f : A → Run B)
    → Ends P m
    → ((a : A) → P a → Ends Q (f a))
    → Ends Q (m >>= f)
Ends-bind P Q (done a) f h k = k a h
Ends-bind P Q syntax f h k = tt
Ends-bind P Q unfinished f h k = absurd h

pub Ends-if :
    {A : Type 0} (P : A → Type 0) (b : Bool) (x y : Run A)
    → (b ≡ true → Ends P x)
    → (b ≡ false → Ends P y)
    → Ends P (elim b [ true ↦ x | false ↦ y ])
Ends-if P true x y h k = h refl
Ends-if P false x y h k = k refl

-- `P` of every argument and file name of a command.
abbrev pub EachArg : (Span → Type 0) → List Span → Type 0
EachArg P [] = Unit
EachArg P (a ∷ rest) = P a × EachArg P rest

abbrev pub EachFile : (Span → Type 0) → List Redir → Type 0
EachFile P [] = Unit
EachFile P (r ∷ rest) = P r.file × EachFile P rest

abbrev pub Each : (Span → Type 0) → Cmd → Type 0
Each P (exec args) = EachArg P args
Each P (redir c r) = Each P c × P r.file
Each P (pipe l r) = Each P l × Each P r
Each P (list l r) = Each P l × Each P r
Each P (back c) = Each P c

module _ (buf : ℕ → ℕ) (es : ℕ) where
  abbrev pub ArgTokens : List Span → Type 0
  ArgTokens = EachArg (IsToken buf es)

  abbrev pub RedirTokens : List Redir → Type 0
  RedirTokens = EachFile (IsToken buf es)

  -- Every file name and argument of a command is a word of the line.
  abbrev pub Tokens : Cmd → Type 0
  Tokens = Each (IsToken buf es)

  RedirTokens-append :
      (rs rs' : List Redir) → RedirTokens rs → RedirTokens rs' → RedirTokens (rs ++ rs')
  RedirTokens-append [] rs' h h' = h'
  RedirTokens-append (r ∷ rs) rs' h h' = (h.0, RedirTokens-append rs rs' h.1 h')

  pub Tokens-wrap :
      (c : Cmd) (rs : List Redir) → Tokens c → RedirTokens rs → Tokens (wrap_redirs c rs)
  Tokens-wrap c [] h h' = h
  Tokens-wrap c (r ∷ rs) h h' = Tokens-wrap (redir c r) rs (h, h'.0) h'.1

  -- A result at `s'`, from `s` on.
  abbrev pub Onward : ℕ → ℕ → Type 0
  Onward s s' = (s ≤ s') × (s' ≤ es)

  abbrev pub Parsed : ℕ → Cmd × ℕ → Type 0
  Parsed s r = Onward s r.1 × Tokens r.0

  -- What is parsed from a later start on is parsed from here on.
  pub Ends-later :
      (s s' : ℕ) → s ≤ s' → (m : Run (Cmd × ℕ)) → Ends (Parsed s') m → Ends (Parsed s) m
  Ends-later s s' h (done a) p = ((omega arith, p.0.1), p.1)
  Ends-later s s' h syntax p = tt
  Ends-later s s' h unfinished p = p

module _ (buf : ℕ → ℕ) (es : ℕ) (l : IsLine buf es) where
  pub parseredirs-Ends :
      (f s : ℕ)
      → s ≤ es
      → es - s < f
      → Ends (λ r. Onward buf es s r.1 × RedirTokens buf es r.0) (parseredirs buf es f s)
  unfolding parseredirs
  parseredirs-Ends zero s h h' = absurd (omega arith)
  parseredirs-Ends (suc f) s0 h h' =
      let s = skip_white buf es s0 in
      let r = skip_white_range buf es s0 h in
      let t = gettoken buf es s in
      let g = gettoken-IsGood buf es l s r.1 in
      let file = gettoken buf es t.next in
      let g' = gettoken-IsGood buf es l t.next g.below in
      Ends-if (λ x. Onward buf es s0 x.1 × RedirTokens buf es x.0)
        (peek buf es (b'<' ∷ b'>' ∷ []) s) _ (done ([], s))
        (λ e.
          let on = g.past (peek-lt buf es l (b'<' ∷ b'>' ∷ []) s r.1 e) in
          Ends-if (λ x. Onward buf es s0 x.1 × RedirTokens buf es x.0) (file.kind == b'a') _ syntax
            (λ w.
              let on' = g'.live (ground arith) in
              Ends-bind (λ x. Onward buf es file.next x.1 × RedirTokens buf es x.0)
                (λ x. Onward buf es s0 x.1 × RedirTokens buf es x.0)
                (parseredirs buf es f file.next) (λ x. done (redir_of t.kind file.span ∷ x.0, x.1))
                (parseredirs-Ends f file.next g'.below (omega arith))
                (λ x p. ((omega arith, p.0.1), (g'.word (ground arith), p.1))))
            (λ w. tt))
        (λ e. (r, tt))

  parse_args-Ends :
      (f argc s : ℕ)
      → s ≤ es
      → es - s < f
      → Ends
          (λ a. Onward buf es s a.2 × ArgTokens buf es a.0 × RedirTokens buf es a.1)
          (parse_args buf es f argc s)
  unfolding parse_args
  parse_args-Ends zero argc s h h' = absurd (omega arith)
  parse_args-Ends (suc f) argc s0 h h' =
      let s = skip_white buf es s0 in
      let r = skip_white_range buf es s0 h in
      let t = gettoken buf es s in
      let g = gettoken-IsGood buf es l s r.1 in
      let P : List Span × List Redir × ℕ → Type 0 =
        λ a. Onward buf es s0 a.2 × ArgTokens buf es a.0 × RedirTokens buf es a.1 in
      Ends-if P (peek buf es (b'|' ∷ b')' ∷ b'&' ∷ b';' ∷ []) s) (done ([], [], s)) _
        (λ e. (r, tt, tt))
        (λ e.
          Ends-if P (t.kind == 0) (done ([], [], t.next)) _
            (λ z. ((omega (arith, g.mono), g.below), tt, tt))
            (λ z.
              Ends-if P (not (t.kind == b'a') || leb max_args (argc + 1)) syntax _ (λ w. tt)
                (λ w.
                  let on = g.live (ground arith) in
                  Ends-bind (λ x. Onward buf es t.next x.1 × RedirTokens buf es x.0) P
                    (parseredirs buf es f t.next) _
                    (parseredirs-Ends f t.next g.below (omega arith))
                    (λ x p.
                      Ends-bind
                        (λ a. Onward buf es x.1 a.2 × ArgTokens buf es a.0 × RedirTokens buf es a.1)
                        P (parse_args buf es f (argc + 1) x.1) _
                        (parse_args-Ends f (argc + 1) x.1 p.0.1 (omega arith))
                        (λ a q. (
                          (omega arith, q.0.1),
                          (g.word (ground arith), q.1),
                          RedirTokens-append buf es x.0 a.1 p.1 q.2,
                        ))))))

  pub parse_simple-Ends :
      (f s : ℕ) → s ≤ es → es - s < f → Ends (Parsed buf es s) (parse_simple buf es f s)
  unfolding parse_simple
  parse_simple-Ends f s h h' =
      Ends-bind (λ x. Onward buf es s x.1 × RedirTokens buf es x.0) (Parsed buf es s)
        (parseredirs buf es f s) _ (parseredirs-Ends f s h h')
        (λ x p.
          Ends-bind (λ a. Onward buf es x.1 a.2 × ArgTokens buf es a.0 × RedirTokens buf es a.1)
            (Parsed buf es s) (parse_args buf es f 0 x.1) _
            (parse_args-Ends f 0 x.1 p.0.1 (omega arith))
            (λ a q. (
              (omega arith, q.0.1),
              Tokens-wrap buf es (exec a.0) (x.0 ++ a.1) q.1
                  (RedirTokens-append buf es x.0 a.1 p.1 q.2),
            )))

  pub parse_backs-Ends :
      (f : ℕ) (c : Cmd) (s : ℕ)
      → s ≤ es
      → es - s < f
      → Tokens buf es c
      → Ends (Parsed buf es s) (parse_backs buf es f c s)
  unfolding parse_backs
  parse_backs-Ends zero c s h h' k = absurd (omega arith)
  parse_backs-Ends (suc f) c s0 h h' k =
      let s = skip_white buf es s0 in
      let r = skip_white_range buf es s0 h in
      let g = gettoken-IsGood buf es l s r.1 in
      Ends-if (Parsed buf es s0) (peek buf es (b'&' ∷ []) s) _ (done (c, s))
        (λ e.
          let on = g.past (peek-lt buf es l (b'&' ∷ []) s r.1 e) in
          Ends-later buf es s0 (gettoken buf es s).next (omega arith)
            (parse_backs buf es f (back c) (gettoken buf es s).next)
            (parse_backs-Ends f (back c) (gettoken buf es s).next g.below (omega arith) k))
        (λ e. (r, k))
