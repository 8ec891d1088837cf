-- ===== src/Syscall.antt =====
-- kernel/syscall.c: the arguments of a system call, and the dispatch on its number.
-- An `int` is its 32-bit pattern. `mem` are the bytes of the address space of the caller, whose size
-- in bytes is `sz`.
pub mod Bounds
mod Tests
use cs_577_p.Base.{
  ℕ, zero, suc, ◌+◌, ◌-◌, ◌*◌, ◌%◌, ◌^◌, Bool, true, false, not, ◌&&◌, ◌||◌, Option, none, some,
  List, get_elem?, if◌then◌else◌, ◌==◌, leb, ltb,
}

abbrev pub wrap : ℕ → ℕ
wrap n = n % 2 ^ 32

-- The word at an address, least byte first.
abbrev pub word_at : (ℕ → ℕ) → ℕ → ℕ
word_at mem a = mem a + 256 * mem (a + 1) + 65536 * mem (a + 2) + 16777216 * mem (a + 3)

-- `none` is -1; else what goes through `ip`.
unfoldable pub fetchint : ℕ → (ℕ → ℕ) → ℕ → Option ℕ
fetchint sz mem addr =
    if leb sz addr || ltb sz (wrap (addr + 4)) then none else some (word_at mem addr)

-- The loop of fetchstr, over the `n` bytes from `s` to the end; the result counts from `addr`.
unfoldable pub scan_string : ℕ → (ℕ → ℕ) → ℕ → ℕ → Option ℕ
scan_string zero mem s addr = none
scan_string (suc n) mem s addr =
    let rest = scan_string n mem (s + 1) addr in if mem s == 0 then some (s - addr) else rest

unfoldable pub fetchstr : ℕ → (ℕ → ℕ) → ℕ → Option ℕ
unfolding scan_string
fetchstr sz mem addr = if leb sz addr then none else scan_string (sz - addr) mem addr addr

-- `esp` is the user stack pointer at the call.
unfoldable pub argint : ℕ → (ℕ → ℕ) → ℕ → ℕ → Option ℕ
unfolding fetchint
argint sz mem esp n = fetchint sz mem (wrap (wrap (esp + 4) + 4 * n))

unfoldable pub check_block : ℕ → ℕ → ℕ → Option ℕ
check_block sz size i = if leb sz i || ltb sz (wrap (i + size)) then none else some i

unfoldable pub argptr : ℕ → (ℕ → ℕ) → ℕ → ℕ → ℕ → Option ℕ
unfolding argint check_block
argptr sz mem esp n size = elim (argint sz mem esp n) [
  | none ↦ none
  | some i ↦ check_block sz size i
]

-- The string's address and length.
unfoldable pub argstr : ℕ → (ℕ → ℕ) → ℕ → ℕ → Option (ℕ × ℕ)
unfolding argint fetchstr
argstr sz mem esp n = elim (argint sz mem esp n) [
  | none ↦ none
  | some addr ↦ elim (fetchstr sz mem addr) [ none ↦ none | some len ↦ some (addr, len) ]
]

-- The table by number, over the handlers' results and states `S`: no entry, or a null one, is `none`.
module _ {S : Type 0} (table : List (Option (S → ℕ × S))) where
  abbrev pub handler : ℕ → Option (S → ℕ × S)
  handler num = elim (get_elem? table num) [ none ↦ none | some h ↦ h ]

  -- The new `eax` and state. A number of 2^31 or more is negative.
  unfoldable pub syscall : ℕ → S → ℕ × S
  syscall num s =
      if ltb 0 num && ltb num (2 ^ 31)
      then elim (handler num) [ none ↦ (2 ^ 32 - 1, s) | some h ↦ h s ]
      else (2 ^ 32 - 1, s)
