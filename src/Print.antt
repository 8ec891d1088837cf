-- ===== src/Print.antt =====
-- cprintf of kernel/console.c and printf of user/printf.c: the bytes that they put out. The lock of the
-- console and the descriptor are left out. `args` are the words behind the format, `text` the string
-- at an address.
pub mod Numbers
pub mod Agree
mod Tests
use cs_577_p.Base.{
  ℕ, zero, suc, ◌+◌, ◌-◌, ◌/◌, ◌%◌, ◌^◌, Bool, true, false, ◌&&◌, ◌||◌, List, [], ◌∷◌, ◌++◌, get_or,
  if◌then◌else◌, ◌==◌, leb,
}

-- The two tables `digits`.
abbrev pub lower : List ℕ
lower =
    b'0' ∷ b'1' ∷ b'2' ∷ b'3' ∷ b'4' ∷ b'5' ∷ b'6' ∷ b'7' ∷ b'8' ∷ b'9' ∷ b'a' ∷ b'b' ∷ b'c' ∷ b'd'
    ∷ b'e' ∷ b'f' ∷ []

abbrev pub upper : List ℕ
upper =
    b'0' ∷ b'1' ∷ b'2' ∷ b'3' ∷ b'4' ∷ b'5' ∷ b'6' ∷ b'7' ∷ b'8' ∷ b'9' ∷ b'A' ∷ b'B' ∷ b'C' ∷ b'D'
    ∷ b'E' ∷ b'F' ∷ []

-- The do-while loop: `buf` so far, the last byte first, which is the order of the output.
unfoldable pub fill : ℕ → List ℕ → ℕ → ℕ → List ℕ → List ℕ
fill zero digits base x buf = buf
fill (suc n) digits base x buf =
    let b = get_or digits (x % base) 0 ∷ buf in
    let rest = fill n digits base (x / base) b in if x / base == 0 then b else rest

-- `xx` is the pattern of an int. A round for each unit of `x` is enough.
unfoldable pub printint : List ℕ → ℕ → ℕ → Bool → List ℕ
printint digits xx base sign =
    if sign && leb (2 ^ 31) xx
    then (let x = (2 ^ 32 - xx) % 2 ^ 32 in b'-' ∷ fill (suc x) digits base x [])
    else fill (suc xx) digits base xx []

abbrev pub null_text : List ℕ
null_text = b'(' ∷ b'n' ∷ b'u' ∷ b'l' ∷ b'l' ∷ b')' ∷ []

module _ (text : ℕ → List ℕ) (args : ℕ → ℕ) where
  abbrev pub string_at : ℕ → List ℕ
  string_at s = if s == 0 then null_text else text s

  -- The switch of cprintf, at argument `a`: the output and the next argument.
  unfoldable pub kernel_directive : ℕ → ℕ → List ℕ × ℕ
  kernel_directive c a =
      if c == b'd'
      then (printint lower (args a) 10 true, a + 1)
      else if (c == b'x') || (c == b'p')
      then (printint lower (args a) 16 false, a + 1)
      else if c == b's'
      then (string_at (args a), a + 1)
      else if c == b'%'
      then (b'%' ∷ [], a)
      else (b'%' ∷ c ∷ [], a)

  -- The loop of cprintf, from argument `a` on.
  unfoldable pub cprintf : List ℕ → ℕ → List ℕ
  cprintf [] a = []
  cprintf (c ∷ []) a = if c == b'%' then [] else c ∷ []
  cprintf (c ∷ d ∷ cs) a = elim (c == b'%') [
    | true ↦ (kernel_directive d a).0 ++ cprintf cs (kernel_directive d a).1
    | false ↦ c ∷ cprintf (d ∷ cs) a
  ]

  -- The tests of printf behind a `%`.
  unfoldable pub user_directive : ℕ → ℕ → List ℕ × ℕ
  user_directive c a =
      if c == b'd'
      then (printint upper (args a) 10 true, a + 1)
      else if (c == b'x') || (c == b'p')
      then (printint upper (args a) 16 false, a + 1)
      else if c == b's'
      then (string_at (args a), a + 1)
      else if c == b'c'
      then ((args a % 256) ∷ [], a + 1)
      else if c == b'%'
      then (c ∷ [], a)
      else (b'%' ∷ c ∷ [], a)

  -- The loop of printf; the Boolean is the state, whether a `%` came before.
  unfoldable pub printf : Bool → List ℕ → ℕ → List ℕ
  printf state [] a = []
  printf false (c ∷ cs) a = elim (c == b'%') [
    | true ↦ printf true cs a
    | false ↦ c ∷ printf false cs a
  ]
  printf true (c ∷ cs) a = (user_directive c a).0 ++ printf false cs (user_directive c a).1
