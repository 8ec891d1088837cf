-- ===== src/Shell/Tests.antt =====
-- The line `a>b` and a longer one.
use cs_577_p.Base.{ℕ, zero, suc, ◌<◌, ◌≡◌, ◌⊎◌, refl, arith, [], ◌∷◌, List, get_or, ◌≢◌}
use cs_577_p.Shell.{
  Span, Cmd, exec, redir, pipe, list, back, done, syntax, one_of, skip, word_end, skip_white, token,
  token_at, gettoken, peek, parseredirs, parse_args, parse_simple, parse_backs, parseline, parsecmd,
}
use cs_577_p.Shell.Lexer.{IsLine}
use cs_577_p.Shell.Parser.{Each}
use cs_577_p.Shell.Strings.{IsWord, parsecmd_lem}

abbrev line : List ℕ → ℕ → ℕ
line bytes i = get_or bytes i 0

abbrev short : List ℕ
short = b'a' ∷ b'>' ∷ b'b' ∷ []

short-IsLine : IsLine (line short) 3
short-IsLine = record { null = refl; inside = inside }
  where
    inside : (i : ℕ) → i < 3 → line short i ≢ 0
    inside zero h = omega arith
    inside (suc zero) h = omega arith
    inside (suc (suc zero)) h = omega arith
    inside (suc (suc (suc i))) h = absurd (omega arith)

parsecmd_lem_example :
    (parsecmd (line short) 3 ≡ syntax)
    ⊎ ((c : Cmd) × (b : ℕ → ℕ) × (parsecmd (line short) 3 ≡ done (c, b))
        × Each (IsWord (line short) 3 b) c)
parsecmd_lem_example = parsecmd_lem (line short) 3 short-IsLine

-- `a >b|c&;(d)`
abbrev long : List ℕ
long = b'a' ∷ b' ' ∷ b'>' ∷ b'b' ∷ b'|' ∷ b'c' ∷ b'&' ∷ b';' ∷ b'(' ∷ b'd' ∷ b')' ∷ []

abbrev one : ℕ → ℕ → Span
one q stop = record { q = q; stop = stop }

long_parse :
    parseline (line long) 11 48 0
    ≡ done (
      list
          (back (
            pipe
              (redir (exec (one 0 1 ∷ [])) (record { file = one 3 4; mode = 0x201; fd = 1 }))
              (exec (one 5 6 ∷ []))))
          (exec (one 9 10 ∷ [])),
      11,
    )
unfolding parseline parse_simple parse_backs parse_args parseredirs gettoken token_at token peek
    skip_white skip word_end one_of
long_parse = refl
