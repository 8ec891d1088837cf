-- ===== src/Console.antt =====
-- The input buffer of kernel/console.c: what the keyboard's characters do to it, and what a read takes.
pub mod Line
mod Tests
use cs_577_p.Base.{
  ℕ, zero, suc, ◌+◌, ◌-◌, ◌%◌, ◌^◌, Bool, true, false, not, ◌&&◌, ◌||◌, List, [], ◌∷◌, get_or,
  modify, if◌then◌else◌, ◌==◌, ltb,
}

abbrev pub input_buf : ℕ
input_buf = 128

-- `input`: the read, write and edit index count bytes and wrap at 2^32.
pub record Input : Type 0 where
  pub buf : List ℕ
  pub r : ℕ
  pub w : ℕ
  pub e : ℕ

abbrev pub wrap : ℕ → ℕ
wrap n = n % 2 ^ 32

-- Unsigned subtraction on 32 bits.
abbrev pub minus : ℕ → ℕ → ℕ
minus a b = (a + 2 ^ 32 - b) % 2 ^ 32

abbrev pub newline : ℕ
newline = 10

-- C('D'), C('H'), C('P'), C('U')
abbrev pub ctrl_d : ℕ
ctrl_d = 4

abbrev pub ctrl_h : ℕ
ctrl_h = 8

abbrev pub ctrl_p : ℕ
ctrl_p = 16

abbrev pub ctrl_u : ℕ
ctrl_u = 21

-- What one character shows or calls: consputc of a character or of BACKSPACE, procdump, and wakeup.
pub data Effect : Type 0 where
  echo : ℕ → Effect
  backspace : Effect
  list_procs : Effect
  wake_readers : Effect

unfoldable pub erase_one : Input → Input
erase_one i = record i { e = minus i.e 1 }

-- The loop of C('U'), with fuel for the 2^32 values of the index.
unfoldable pub kill_line : ℕ → Input → List Effect × Input
unfolding erase_one
kill_line zero i = ([], i)
kill_line (suc fuel) i =
    elim (not (i.e == i.w) && not (get_or i.buf (minus i.e 1 % input_buf) 0 == newline)) [
      | true ↦ let rest = kill_line fuel (erase_one i) in (backspace ∷ rest.0, rest.1)
      | false ↦ ([], i)
    ]

-- A carriage return is stored as a newline.
abbrev pub translate : ℕ → ℕ
translate c = if c == 13 then newline else c

-- The default case, when the buffer has room.
unfoldable pub store_char : ℕ → Input → List Effect × Input
store_char c i =
    let j = record i { buf = modify i.buf (i.e % input_buf) (λ old. c); e = wrap (i.e + 1) } in
    if (c == newline) || ((c == ctrl_d) || (j.e == wrap (j.r + input_buf)))
    then (echo c ∷ wake_readers ∷ [], record j { w = j.e })
    else (echo c ∷ [], j)

-- One round of the loop of consoleintr, for a character that getc gave.
unfoldable pub input_char : ℕ → Input → List Effect × Input
unfolding erase_one store_char
input_char c i =
    if c == ctrl_p
    then (list_procs ∷ [], i)
    else if c == ctrl_u
    then kill_line (2 ^ 32) i
    else if (c == ctrl_h) || (c == 127)
    then (if not (i.e == i.w) then (backspace ∷ [], erase_one i) else ([], i))
    else if not (c == 0) && ltb (minus i.e i.r) input_buf
    then store_char (translate c) i
    else ([], i)

-- What a read comes to: it returns, it returns -1 as the process was killed, or it sleeps with `left`
-- bytes still wanted.
pub data ReadStatus : Type 0 where
  returned : ReadStatus
  killed : ReadStatus
  asleep : (left : ℕ) → ReadStatus

pub record ReadResult : Type 0 where
  pub status : ReadStatus
  pub out : List ℕ
  pub input : Input

abbrev pub deliver : ℕ → ReadResult → ReadResult
deliver c x = record x { out = c ∷ x.out }

-- The loop of consoleread, with `n` bytes left of `target`.
unfoldable pub read_loop : ℕ → Bool → ℕ → Input → ReadResult
read_loop target dead zero i = record { status = returned; out = []; input = i }
read_loop target dead (suc n) i =
    let c = get_or i.buf (i.r % input_buf) 0 in
    let j = record i { r = wrap (i.r + 1) } in
    let rest = deliver c (read_loop target dead n j) in
    if i.r == i.w
    then record { status = if dead then killed else asleep (suc n); out = []; input = i }
    else if c == ctrl_d
    then record {
      status = returned;
      out = [];
      input = if ltb (suc n) target then record j { r = minus j.r 1 } else j;
    }
    else if c == newline
    then record { status = returned; out = c ∷ []; input = j }
    else rest

unfoldable pub consoleread : ℕ → Bool → Input → ReadResult
unfolding read_loop
consoleread n dead i = read_loop n dead n i
