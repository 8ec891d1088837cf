-- ===== src/Str/Moves.antt =====
-- memset, memcmp and memmove against what they are for.
use cs_577_p.Base.{
  ℕ, zero, suc, ◌+◌, ◌-◌, ◌%◌, ◌≤◌, ◌<◌, ◌≡◌, refl, ◌∙◌, ap, false, ◌&&◌, ◌⊎◌, inl, inr, ◌↔◌, arith,
  if◌then◌else◌, leb, ltb, Bool-cases,
}
use cs_577_p.Str.{Mem, store, memset, memcmp, same, move_back, move_forth, memmove}

-- The memory with the `n` bytes at `src` of the old one at `dst`.
abbrev pub copied : ℕ → ℕ → ℕ → Mem → Mem
copied dst src n m a = if leb dst a && ltb a (dst + n) then m (src + (a - dst)) else m a

cong : (m : Mem) (a b : ℕ) → a ≡ b → m a ≡ m b
cong m a b e = ap m e

move_back_lem :
    (dst src n : ℕ) (m : Mem) (a : ℕ) → src ≤ dst → move_back dst src n m a ≡ copied dst src n m a
unfolding move_back
move_back_lem dst src zero m a h = ground arith
move_back_lem dst src (suc n) m a h = ground (
  arith,
  move_back_lem dst src n (store m (dst + n) (m (src + n))) a h,
  cong m (src + n) (src + (a - dst)),
)

move_forth_lem :
    (dst src n : ℕ) (m : Mem) (a : ℕ)
    → (dst ≤ src) ⊎ (src + n ≤ dst)
    → move_forth dst src n m a ≡ copied dst src n m a
unfolding move_forth
move_forth_lem dst src zero m a h = ground arith
move_forth_lem dst src (suc n) m a h = ground (
  arith,
  move_forth_lem (dst + 1) (src + 1) n (store m dst (m src)) a (by_side h),
  cong m src (src + (a - dst)),
  cong m (src + 1 + (a - (dst + 1))) (src + (a - dst)),
)
  where
    by_side : (dst ≤ src) ⊎ (src + suc n ≤ dst) → (dst + 1 ≤ src + 1) ⊎ (src + 1 + n ≤ dst + 1)
    by_side (inl p) = inl (omega arith)
    by_side (inr p) = inr (omega arith)

-- memmove copies the `n` bytes at `src`, as they were before the call, to `dst`, and changes no other
-- byte, also where the two blocks overlap.
pub memmove_lem : (dst src n : ℕ) (m : Mem) (a : ℕ) → memmove dst src n m a ≡ copied dst src n m a
unfolding memmove
memmove_lem dst src n m a = elim (Bool-cases (ltb src dst && ltb dst (src + n))) [
  | inl over ↦ rw over (move_back_lem dst src n m a (ground arith))
  | inr apart ↦ rw apart (move_forth_lem dst src n m a (sides apart))
]
  where
    sides : ltb src dst && ltb dst (src + n) ≡ false → (dst ≤ src) ⊎ (src + n ≤ dst)
    sides e = ground arith

pub memset_lem :
    (dst c n : ℕ) (m : Mem) (a : ℕ)
    → memset dst c n m a ≡ (if leb dst a && ltb a (dst + n) then c % 256 else m a)
unfolding memset
memset_lem dst c zero m a = ground arith
memset_lem dst c (suc n) m a = ground (arith, memset_lem (dst + 1) c n (store m dst (c % 256)) a)

memcmp_sound :
    (s1 s2 n : ℕ) (m : Mem)
    → (memcmp s1 s2 n m).0 ≡ (memcmp s1 s2 n m).1
    → (i : ℕ) → i < n
    → m (s1 + i) ≡ m (s2 + i)
unfolding memcmp
memcmp_sound s1 s2 zero m e i lt = absurd (omega arith)
memcmp_sound s1 s2 (suc n) m e zero lt = ground (arith, cong m (s1 + 0) s1, cong m (s2 + 0) s2)
memcmp_sound s1 s2 (suc n) m e (suc i) lt =
    cong m (s1 + suc i) (s1 + 1 + i) (omega arith)
    ∙ memcmp_sound (s1 + 1) (s2 + 1) n m (ground arith) i (omega arith)
    ∙ cong m (s2 + 1 + i) (s2 + suc i) (omega arith)

memcmp_complete :
    (s1 s2 n : ℕ) (m : Mem) → ((i : ℕ) → i < n → m (s1 + i) ≡ m (s2 + i)) → memcmp s1 s2 n m ≡ same
unfolding memcmp
memcmp_complete s1 s2 zero m h = refl
memcmp_complete s1 s2 (suc n) m h =
    let first : m s1 ≡ m s2 =
      cong m s1 (s1 + 0) (omega arith) ∙ h 0 (omega arith) ∙ cong m (s2 + 0) s2 (omega arith) in
    let rest : memcmp (s1 + 1) (s2 + 1) n m ≡ same = memcmp_complete (s1 + 1) (s2 + 1) n m λ i lt.
      cong m (s1 + 1 + i) (s1 + suc i) (omega arith)
      ∙ h (suc i) (omega arith)
      ∙ cong m (s2 + suc i) (s2 + 1 + i) (omega arith) in
    ground arith

-- memcmp gives 0 exactly if the two blocks agree.
pub memcmp_iff :
    (s1 s2 n : ℕ) (m : Mem)
    → ((memcmp s1 s2 n m).0 ≡ (memcmp s1 s2 n m).1) ↔ ((i : ℕ) → i < n → m (s1 + i) ≡ m (s2 + i))
memcmp_iff s1 s2 n m =
    (memcmp_sound s1 s2 n m, λ h. let e = memcmp_complete s1 s2 n m h in rw e refl)
