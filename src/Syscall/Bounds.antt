-- ===== src/Syscall/Bounds.antt =====
-- The checks keep the kernel inside the caller's memory, but for a block with a wrapping size.
use cs_577_p.Base.{
  ℕ, zero, suc, ◌+◌, ◌-◌, ◌^◌, ◌≤◌, ◌<◌, ◌≡◌, ◌≢◌, ◌∙◌, ap, Option, none, some, arith, ◌⊎◌, inl,
  inr, ◌↔◌, ◌==◌, leb, Bool-cases,
}
use cs_577_p.Syscall.{word_at, fetchint, scan_string, fetchstr, check_block}

abbrev pub usertop : ℕ
usertop = 0xA0000

-- fetchint succeeds exactly on an address with four bytes inside the process, and then gives the word
-- there. The size of a process is at most USERTOP.
pub fetchint_exact :
    (sz addr : ℕ) (mem : ℕ → ℕ)
    → sz ≤ usertop
    → addr < 2 ^ 32
    → ((addr + 4 ≤ sz) × (fetchint sz mem addr ≡ some (word_at mem addr)))
      ⊎ ((sz < addr + 4) × (fetchint sz mem addr ≡ none))
unfolding fetchint
fetchint_exact sz addr mem h a = elim (Bool-cases (leb (addr + 4) sz)) [
  | inl fits ↦ inl (ground arith, ground arith)
  | inr out ↦ inr (ground arith, ground arith)
]

-- What a result of fetchstr says.
pub IsString : ℕ → (ℕ → ℕ) → ℕ → Option ℕ → Type 0
IsString sz mem addr none = (i : ℕ) → addr + i < sz → mem (addr + i) ≢ 0
IsString sz mem addr (some len) =
    (addr + len < sz) × (mem (addr + len) ≡ 0) × ((i : ℕ) → i < len → mem (addr + i) ≢ 0)

-- The loop from offset `k` on, the bytes before it being no NUL.
scan_string_lem :
    (n k sz addr : ℕ) (mem : ℕ → ℕ)
    → addr + k + n ≡ sz
    → ((i : ℕ) → i < k → mem (addr + i) ≢ 0)
    → IsString sz mem addr (scan_string n mem (addr + k) addr)
unfolding scan_string IsString
scan_string_lem zero k sz addr mem e h = λ i lt. h i (omega arith)
scan_string_lem (suc n) k sz addr mem e h = elim (Bool-cases (mem (addr + k) == 0)) [
  | inl z ↦
      let len : addr + k - addr ≡ k = omega arith in rw z (rw len (omega arith, ground arith, h))
  | inr nz ↦
      let at : addr + k + 1 ≡ addr + (k + 1) = omega arith in
      rw nz (rw at (scan_string_lem n (k + 1) sz addr mem (omega arith) (grow (ground arith))))
]
  where
    grow : mem (addr + k) ≢ 0 → (i : ℕ) → i < k + 1 → mem (addr + i) ≢ 0
    grow ne i lt = elim (Bool-cases (i == k)) [
      | inl same ↦ λ z. ne (ap (λ j. mem (addr + j)) (ground arith) ∙ z)
      | inr other ↦ h i (ground arith)
    ]

-- fetchstr returns the index of the first NUL from the address on, if one is inside the process, and -1
-- exactly if none is.
pub fetchstr-IsString : (sz addr : ℕ) (mem : ℕ → ℕ) → IsString sz mem addr (fetchstr sz mem addr)
unfolding fetchstr IsString
fetchstr-IsString sz addr mem = elim (Bool-cases (leb sz addr)) [
  | inl out ↦ rw out (λ i lt. absurd (ground arith))
  | inr here ↦ rw here (
      subst_start
        (scan_string_lem (sz - addr) 0 sz addr mem (ground arith) (λ i lt. absurd (omega arith))))
]
  where
    subst_start :
        IsString sz mem addr (scan_string (sz - addr) mem (addr + 0) addr)
        → IsString sz mem addr (scan_string (sz - addr) mem addr addr)
    subst_start t = let e : addr + 0 ≡ addr = omega arith in rw e at t

-- argptr's check of a block, in a process of size at most USERTOP, accepts exactly a block that starts
-- inside the process and either ends inside it or has an address and size whose sum passes 2^32, which
-- is so for a negative size that goes back no further than to 0.
pub check_block_exact :
    (sz size i : ℕ)
    → sz ≤ usertop
    → i < 2 ^ 32
    → size < 2 ^ 32
    → (check_block sz size i ≡ some i) ↔ ((i < sz) × ((i + size ≤ sz) ⊎ (2 ^ 32 ≤ i + size)))
unfolding check_block
check_block_exact sz size i h a b = (λ e. (ground arith, ends e), λ p. accepts p.0 p.1)
  where
    ends : check_block sz size i ≡ some i → (i + size ≤ sz) ⊎ (2 ^ 32 ≤ i + size)
    ends e = elim (Bool-cases (leb (2 ^ 32) (i + size))) [
      | inl over ↦ inr (ground arith)
      | inr under ↦ inl (ground arith)
    ]

    accepts : i < sz → (i + size ≤ sz) ⊎ (2 ^ 32 ≤ i + size) → check_block sz size i ≡ some i
    accepts l (inl p) = ground arith
    accepts l (inr p) = ground arith
