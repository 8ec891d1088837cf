-- ===== src/Str.antt =====
-- kernel/string.c: blocks and strings of bytes, over a memory of bytes. Addresses do not wrap: an
-- object does not reach past the end of the address space.
pub mod Moves
pub mod Copies
mod Tests
use cs_577_p.Base.{
  ℕ, zero, suc, ◌+◌, ◌-◌, ◌%◌, Bool, true, false, not, ◌&&◌, ◌||◌, Option, none, some,
  if◌then◌else◌, ◌==◌, ltb,
}

abbrev pub Mem : Type 0
Mem = ℕ → ℕ

abbrev pub store : Mem → ℕ → ℕ → Mem
store m a b x = if a == x then b else m x

-- stosb, a byte at a time.
unfoldable pub memset : ℕ → ℕ → ℕ → Mem → Mem
memset dst c zero m = m
memset dst c (suc n) m = memset (dst + 1) c n (store m dst (c % 256))

-- A difference `a - b` of two bytes, as the pair; equal bytes stand for 0.
abbrev pub Diff : Type 0
Diff = ℕ × ℕ

abbrev pub same : Diff
same = (0, 0)

unfoldable pub memcmp : ℕ → ℕ → ℕ → Mem → Diff
memcmp s1 s2 zero m = same
memcmp s1 s2 (suc n) m =
    let rest = memcmp (s1 + 1) (s2 + 1) n m in if not (m s1 == m s2) then (m s1, m s2) else rest

-- The two loops of memmove: from the end, for a source below the target that it overlaps, and from
-- the start.
unfoldable pub move_back : ℕ → ℕ → ℕ → Mem → Mem
move_back dst src zero m = m
move_back dst src (suc n) m = move_back dst src n (store m (dst + n) (m (src + n)))

unfoldable pub move_forth : ℕ → ℕ → ℕ → Mem → Mem
move_forth dst src zero m = m
move_forth dst src (suc n) m = move_forth (dst + 1) (src + 1) n (store m dst (m src))

unfoldable pub memmove : ℕ → ℕ → ℕ → Mem → Mem
unfolding move_back move_forth
memmove dst src n m =
    if ltb src dst && ltb dst (src + n) then move_back dst src n m else move_forth dst src n m

unfoldable pub memcpy : ℕ → ℕ → ℕ → Mem → Mem
unfolding memmove
memcpy dst src n m = memmove dst src n m

unfoldable pub strncmp : ℕ → ℕ → ℕ → Mem → Diff
strncmp p q zero m = same
strncmp p q (suc n) m =
    let rest = strncmp (p + 1) (q + 1) n m in
    if not (m p == 0) && (m p == m q) then rest else (m p, m q)

unfoldable pub zero_fill : ℕ → ℕ → Mem → Mem
zero_fill s zero m = m
zero_fill s (suc n) m = zero_fill (s + 1) n (store m s 0)

unfoldable pub strncpy : ℕ → ℕ → ℕ → Mem → Mem
unfolding zero_fill
strncpy s t zero m = m
strncpy s t (suc n) m =
    let rest = strncpy (s + 1) (t + 1) n (store m s (m t)) in
    if m t == 0 then zero_fill (s + 1) n (store m s (m t)) else rest

-- The loop of safestrcpy, with `n` what is left after its `--n`, and the final `*s = 0`.
unfoldable pub safe_from : ℕ → ℕ → ℕ → Mem → Mem
safe_from s t zero m = store m s 0
safe_from s t (suc n) m =
    let rest = safe_from (s + 1) (t + 1) n (store m s (m t)) in
    if m t == 0 then store (store m s (m t)) (s + 1) 0 else rest

unfoldable pub safestrcpy : ℕ → ℕ → ℕ → Mem → Mem
unfolding safe_from
safestrcpy s t zero m = m
safestrcpy s t (suc n) m = safe_from s t n m

-- The loop of strlen from index `n` on; `none` if it does not end within the fuel.
unfoldable pub strlen_from : ℕ → ℕ → ℕ → Mem → Option ℕ
strlen_from zero s n m = none
strlen_from (suc fuel) s n m =
    let rest = strlen_from fuel s (n + 1) m in if m (s + n) == 0 then some n else rest

unfoldable pub strlen : ℕ → ℕ → Mem → Option ℕ
unfolding strlen_from
strlen fuel s m = strlen_from fuel s 0 m
