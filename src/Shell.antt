-- ===== src/Shell.antt =====
-- The parser of user/sh.c. A line is its bytes with a null at `es`; a pointer into it is an index.
-- malloc is taken to succeed, as the code takes it.
pub mod Lexer
pub mod Parser
pub mod Commands
pub mod Strings
mod Tests
use cs_577_p.Base.{
  ℕ, zero, suc, ◌+◌, ◌-◌, ◌*◌, Bool, true, false, not, ◌&&◌, ◌||◌, List, [], ◌∷◌, ◌++◌,
  if◌then◌else◌, ◌==◌, leb,
}

-- The text of a file name or an argument, from `q` up to `eq`.
pub record Span : Type 0 where
  pub q : ℕ
  pub stop : ℕ

pub record Redir : Type 0 where
  pub file : Span
  pub mode : ℕ
  pub fd : ℕ

-- The five structures of a command.
pub data Cmd : Type 0 where
  exec : List Span → Cmd
  redir : Cmd → Redir → Cmd
  pipe : Cmd → Cmd → Cmd
  list : Cmd → Cmd → Cmd
  back : Cmd → Cmd

-- `syntax` is a call of panic; `unfinished` means that the fuel ran out.
pub data Run {ℓ} (A : Type ℓ) : Type ℓ where
  done : A → Run A
  syntax : Run A
  unfinished : Run A

infixl 5 ◌>>=◌
abbrev pub ◌>>=◌ {ℓ κ} : {A : Type ℓ} {B : Type κ} → Run A → (A → Run B) → Run B
done a >>= f = f a
syntax >>= f = syntax
unfinished >>= f = unfinished

abbrev pub max_args : ℕ
max_args = 10

-- `strchr(set, c) != 0`
unfoldable pub one_of : List ℕ → ℕ → Bool
one_of [] c = false
one_of (x ∷ xs) c = (x == c) || one_of xs c

abbrev pub whitespace : List ℕ
whitespace = b' ' ∷ 9 ∷ 13 ∷ 10 ∷ 11 ∷ []

abbrev pub symbols : List ℕ
symbols = b'<' ∷ b'|' ∷ b'>' ∷ b'&' ∷ b';' ∷ b'(' ∷ b')' ∷ []

-- The symbols that are a token by themselves.
abbrev pub singles : List ℕ
singles = b'|' ∷ b'(' ∷ b')' ∷ b';' ∷ b'&' ∷ b'<' ∷ []

pub record Token : Type 0 where
  pub kind : ℕ
  pub span : Span
  pub next : ℕ

-- The three cases of the switch of parseredirs.
abbrev pub redir_of : ℕ → Span → Redir
redir_of tok file = record {
  file = file;
  mode = if tok == b'<' then 0 else 0x201;
  fd = if tok == b'<' then 0 else 1;
}

-- Round a command, the first redirection innermost.
abbrev pub wrap_redirs : Cmd → List Redir → Cmd
wrap_redirs c [] = c
wrap_redirs c (r ∷ rs) = wrap_redirs (redir c r) rs

module _ (buf : ℕ → ℕ) (es : ℕ) where
  -- The loops over white space and over the bytes of a word, for the `n` bytes from `s` to the end.
  unfoldable pub skip : ℕ → ℕ → ℕ
  skip zero s = s
  skip (suc n) s = let rest = skip n (s + 1) in if one_of whitespace (buf s) then rest else s

  unfoldable pub word_end : ℕ → ℕ → ℕ
  word_end zero s = s
  word_end (suc n) s =
      let rest = word_end n (s + 1) in
      if not (one_of whitespace (buf s)) && not (one_of symbols (buf s)) then rest else s

  unfoldable pub skip_white : ℕ → ℕ
  skip_white s = skip (es - s) s

  -- A token of kind `ret` from `q` up to `eq`.
  unfoldable pub token : ℕ → ℕ → ℕ → Token
  token ret q stop = record {
    kind = ret;
    span = record { q = q; stop = stop };
    next = skip_white stop;
  }

  -- The switch of gettoken on the byte at `q`.
  unfoldable pub token_at : ℕ → Token
  token_at q =
      if buf q == 0
      then token 0 q q
      else if one_of singles (buf q)
      then token (buf q) q (q + 1)
      else if buf q == b'>'
      then (if buf (q + 1) == b'>' then token b'+' q (q + 2) else token b'>' q (q + 1))
      else token b'a' q (word_end (es - q) q)

  unfoldable pub gettoken : ℕ → Token
  gettoken s = token_at (skip_white s)

  -- The result of peek at `s`, which has moved past white space.
  unfoldable pub peek : List ℕ → ℕ → Bool
  peek toks s = not (buf s == 0) && one_of toks (buf s)

  -- The redirections that parseredirs puts round its command, the innermost first.
  unfoldable pub parseredirs : ℕ → ℕ → Run (List Redir × ℕ)
  parseredirs zero s = unfinished
  parseredirs (suc f) s0 =
      let s = skip_white s0 in
      elim (peek (b'<' ∷ b'>' ∷ []) s) [
        | false ↦ done ([], s)
        | true ↦
            let t = gettoken s in
            let file = gettoken t.next in
            elim (file.kind == b'a') [
              | false ↦ syntax
              | true ↦ parseredirs f file.next >>= λ r. done (redir_of t.kind file.span ∷ r.0, r.1)
            ]
      ]

  -- The loop of parseexec: the arguments, the redirections among them, and where it ends.
  unfoldable pub parse_args : ℕ → ℕ → ℕ → Run (List Span × List Redir × ℕ)
  parse_args zero argc s = unfinished
  parse_args (suc f) argc s0 =
      let s = skip_white s0 in
      elim (peek (b'|' ∷ b')' ∷ b'&' ∷ b';' ∷ []) s) [
        | true ↦ done ([], [], s)
        | false ↦
            let t = gettoken s in
            elim (t.kind == 0) [
              | true ↦ done ([], [], t.next)
              | false ↦ elim (not (t.kind == b'a') || leb max_args (argc + 1)) [
                | true ↦ syntax
                | false ↦ parseredirs f t.next >>= λ r.
                    parse_args f (argc + 1) r.1 >>= λ a. done (t.span ∷ a.0, r.0 ++ a.1, a.2)
              ]
            ]
      ]

  -- parseexec behind its test for a block.
  unfoldable pub parse_simple : ℕ → ℕ → Run (Cmd × ℕ)
  parse_simple f s = parseredirs f s >>= λ r.
      parse_args f 0 r.1 >>= λ a. done (wrap_redirs (exec a.0) (r.0 ++ a.1), a.2)

  -- The loop of parseline over the `&`.
  unfoldable pub parse_backs : ℕ → Cmd → ℕ → Run (Cmd × ℕ)
  parse_backs zero c s = unfinished
  parse_backs (suc f) c s0 =
      let s = skip_white s0 in
      elim (peek (b'&' ∷ []) s) [
        | true ↦ parse_backs f (back c) (gettoken s).next
        | false ↦ done (c, s)
      ]

  -- A unit of fuel for each call.
  unfoldable mutual
    pub parseline : ℕ → ℕ → Run (Cmd × ℕ)
    parseline zero s = unfinished
    parseline (suc f) s = parsepipe f s >>= λ p. parse_backs f p.0 p.1 >>= λ b.
        let s' = skip_white b.1 in
        elim (peek (b';' ∷ []) s') [
          | true ↦ parseline f (gettoken s').next >>= λ r. done (list b.0 r.0, r.1)
          | false ↦ done (b.0, s')
        ]

    pub parsepipe : ℕ → ℕ → Run (Cmd × ℕ)
    parsepipe zero s = unfinished
    parsepipe (suc f) s = parseexec f s >>= λ e.
        let s' = skip_white e.1 in
        elim (peek (b'|' ∷ []) s') [
          | true ↦ parsepipe f (gettoken s').next >>= λ r. done (pipe e.0 r.0, r.1)
          | false ↦ done (e.0, s')
        ]

    pub parseexec : ℕ → ℕ → Run (Cmd × ℕ)
    parseexec zero s = unfinished
    parseexec (suc f) s0 =
        let s = skip_white s0 in
        elim (peek (b'(' ∷ []) s) [ true ↦ parseblock f s | false ↦ parse_simple f s ]

    pub parseblock : ℕ → ℕ → Run (Cmd × ℕ)
    parseblock zero s = unfinished
    parseblock (suc f) s0 =
        let s = skip_white s0 in
        elim (peek (b'(' ∷ []) s) [
          | false ↦ syntax
          | true ↦ parseline f (gettoken s).next >>= λ c.
              let s' = skip_white c.1 in
              elim (peek (b')' ∷ []) s') [
                | false ↦ syntax
                | true ↦ parseredirs f (gettoken s').next >>= λ r. done (wrap_redirs c.0 r.0, r.1)
              ]
        ]

-- `*p = 0`
unfoldable pub end_at : ℕ → (ℕ → ℕ) → ℕ → ℕ
end_at p buf a = if a == p then 0 else buf a

unfoldable pub end_args : List Span → (ℕ → ℕ) → ℕ → ℕ
end_args [] buf = buf
end_args (a ∷ rest) buf = end_args rest (end_at a.stop buf)

unfoldable pub nulterminate : Cmd → (ℕ → ℕ) → ℕ → ℕ
nulterminate (exec args) buf = end_args args buf
nulterminate (redir c r) buf = end_at r.file.stop (nulterminate c buf)
nulterminate (pipe l r) buf = nulterminate r (nulterminate l buf)
nulterminate (list l r) buf = nulterminate r (nulterminate l buf)
nulterminate (back c) buf = nulterminate c buf

-- The command, and the line cut up into strings. Four calls for each byte are enough.
unfoldable pub parsecmd : (ℕ → ℕ) → ℕ → Run (Cmd × (ℕ → ℕ))
parsecmd buf es = parseline buf es (4 * es + 4) 0 >>= λ r. elim (skip_white buf es r.1 == es) [
  | false ↦ syntax
  | true ↦ done (r.0, nulterminate r.0 buf)
]
