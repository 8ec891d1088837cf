-- ===== src/Ulib.antt =====
-- user/ulib.c: the functions on strings and blocks. A C string is the list of its bytes before the NUL;
-- memmove is on the memory of Str.
pub mod Strings
mod Tests
use cs_577_p.Base.{
  ℕ, zero, suc, ◌+◌, ◌-◌, ◌*◌, ◌%◌, ◌^◌, Bool, true, false, ◌&&◌, Option, none, some, List, [], ◌∷◌,
  if◌then◌else◌, ◌==◌, leb,
}
use cs_577_p.Str.{Mem, store}

-- A difference `a - b` of two bytes, as the pair.
unfoldable pub strcmp : List ℕ → List ℕ → ℕ × ℕ
strcmp [] [] = (0, 0)
strcmp [] (y ∷ ys) = (0, y)
strcmp (x ∷ xs) [] = (x, 0)
strcmp (x ∷ xs) (y ∷ ys) = let rest = strcmp xs ys in if x == y then rest else (x, y)

-- `none` is the null pointer; else the string from the byte on.
unfoldable pub strchr : List ℕ → ℕ → Option (List ℕ)
strchr [] c = none
strchr (x ∷ xs) c = let rest = strchr xs c in if x == c then some (x ∷ xs) else rest

abbrev pub is_digit : ℕ → Bool
is_digit c = leb b'0' c && leb c b'9'

-- The loop of atoi from `n` on; an int has 32 bits.
unfoldable pub atoi_from : ℕ → List ℕ → ℕ
atoi_from n [] = n
atoi_from n (c ∷ cs) =
    let rest = atoi_from ((n * 10 + c - b'0') % 2 ^ 32) cs in if is_digit c then rest else n

unfoldable pub atoi : List ℕ → ℕ
unfolding atoi_from
atoi s = atoi_from 0 s

-- Always from the start on.
unfoldable pub memmove : ℕ → ℕ → ℕ → Mem → Mem
memmove dst src zero m = m
memmove dst src (suc n) m = memmove (dst + 1) (src + 1) n (store m dst (m src))
