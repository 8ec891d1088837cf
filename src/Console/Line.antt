-- ===== src/Console/Line.antt =====
-- The indexes of the input buffer: no overflow, and editing stays in the uncommitted part.
use cs_577_p.Base.{
  ℕ, zero, suc, ◌+◌, ◌≢◌, ◌%◌, ◌^◌, ◌≤◌, ◌<◌, ◌≡◌, refl, ap, ◌∙◌, false, not, ◌&&◌, ◌||◌, arith,
  ◌⊎◌, inl, inr, ◌==◌, get_or, get_or-modify_ne, length, length-modify, Bool-cases, ltb,
}
use cs_577_p.Console.{
  Input, input_buf, minus, newline, ctrl_h, ctrl_p, ctrl_u, erase_one, kill_line, translate,
  store_char, input_char,
}

-- r, w and e stand in this order, at most 128 apart.
pub record IsValid (i : Input) : Type 0 where
  pub storage : length i.buf ≡ input_buf
  pub r32 : i.r < 2 ^ 32
  pub w32 : i.w < 2 ^ 32
  pub e32 : i.e < 2 ^ 32
  pub ordered : minus i.w i.r ≤ minus i.e i.r
  pub room : minus i.e i.r ≤ input_buf

-- What an input does to what is there: the read index stays, the write index does not go back, and the
-- bytes from the read index on, as far as they are neither erased nor new, are the same.
pub record Kept (i j : Input) : Type 0 where
  pub valid : IsValid j
  pub same_r : j.r ≡ i.r
  pub grows : minus i.w i.r ≤ minus j.w j.r
  pub unread :
      (x : ℕ)
      → x < minus i.e i.r
      → x < minus j.e j.r
      → get_or j.buf ((i.r + x) % input_buf) 0 ≡ get_or i.buf ((i.r + x) % input_buf) 0

erase_one-Kept : (i : Input) → IsValid i → (i.e == i.w) ≡ false → Kept i (erase_one i)
unfolding erase_one
erase_one-Kept i v n = record {
  valid = record {
    storage = v.storage;
    r32 = v.r32;
    w32 = v.w32;
    e32 = omega arith;
    ordered = ground (arith, v.r32, v.w32, v.e32, v.ordered, v.room);
    room = ground (arith, v.r32, v.w32, v.e32, v.ordered, v.room);
  };
  same_r = refl;
  grows = omega arith;
  unread = λ x h h'. refl;
}

Kept-self : (i : Input) → IsValid i → Kept i i
Kept-self i v = record { valid = v; same_r = refl; grows = omega arith; unread = λ x h h'. refl }

-- C('U') erases back to the committed part or to a newline.
abbrev pub KillEnds : Input → Type 0
KillEnds j = (j.e ≡ j.w) ⊎ (get_or j.buf (minus j.e 1 % input_buf) 0 ≡ newline)

kill_line-buf : (fuel : ℕ) (i : Input) → (kill_line fuel i).1.buf ≡ i.buf
unfolding kill_line erase_one
kill_line-buf zero i = refl
kill_line-buf (suc fuel) i =
    elim (Bool-cases
      (not (i.e == i.w) && not (get_or i.buf (minus i.e 1 % input_buf) 0 == newline))) [
        | inr stop ↦ rw (stop, kill_line) refl
        | inl go ↦ rw (go, kill_line) (kill_line-buf fuel (erase_one i))
      ]

kill_line-Kept :
    (fuel : ℕ) (i : Input)
    → IsValid i
    → minus i.e i.w < fuel
    → Kept i (kill_line fuel i).1 × ((kill_line fuel i).1.w ≡ i.w) × KillEnds (kill_line fuel i).1
unfolding kill_line
kill_line-Kept zero i v f = absurd (omega arith)
kill_line-Kept (suc fuel) i v f =
    elim (Bool-cases
      (not (i.e == i.w) && not (get_or i.buf (minus i.e 1 % input_buf) 0 == newline))) [
        | inr stop ↦ rw (stop, kill_line) (Kept-self i v, refl, ground arith)
        | inl go ↦
            let ne : (i.e == i.w) ≡ false = ground arith in
            let k = erase_one-Kept i v ne in
            let (m, w, s) = kill_line-Kept fuel (erase_one i) k.valid (less ne) in
            rw (go, kill_line)
              (
                record {
                  valid = m.valid;
                  same_r = m.same_r ∙ k.same_r;
                  grows = m.grows;
                  unread = λ x h h'. same_byte x;
                },
                w,
                s,
              )
      ]
  where
    less : (i.e == i.w) ≡ false → minus (erase_one i).e (erase_one i).w < fuel
    less ne = unfold erase_one in ground (arith, v.r32, v.w32, v.e32)

    same_byte :
        (x : ℕ)
        → get_or (kill_line fuel (erase_one i)).1.buf ((i.r + x) % input_buf) 0
          ≡ get_or i.buf ((i.r + x) % input_buf) 0
    same_byte x =
        ap (λ b. get_or b ((i.r + x) % input_buf) 0)
          (kill_line-buf fuel (erase_one i) ∙ (unfold erase_one in refl))

minus_self : (a b : ℕ) → a < 2 ^ 32 → b < 2 ^ 32 → minus a b < 2 ^ 32
minus_self a b p q = omega arith

store_char-Kept :
    (c : ℕ) (i : Input) → IsValid i → minus i.e i.r < input_buf → Kept i (store_char c i).1
unfolding store_char
store_char-Kept c i v lt = record {
  valid = record {
    storage = ground (arith, v.storage, length-modify i.buf (i.e % input_buf) (λ old. c));
    r32 = ground (arith, v.r32);
    w32 = ground (arith, v.w32);
    e32 = ground arith;
    ordered = ground (arith, v.r32, v.w32, v.e32, v.ordered);
    room = ground (arith, v.r32, v.e32);
  };
  same_r = ground arith;
  grows = ground (arith, v.r32, v.w32, v.e32, v.ordered);
  unread = λ x h h'. same_bytes x h;
}
  where
    apart : (x : ℕ) → x < minus i.e i.r → i.e % input_buf ≢ (i.r + x) % input_buf
    apart x h = omega (arith, v.r32, v.e32, v.room, lt, h)

    same_bytes :
        (x : ℕ)
        → x < minus i.e i.r
        → get_or (store_char c i).1.buf ((i.r + x) % input_buf) 0
          ≡ get_or i.buf ((i.r + x) % input_buf) 0
    same_bytes x h = ground (
      arith,
      get_or-modify_ne i.buf (i.e % input_buf) ((i.r + x) % input_buf) (λ old. c) 0 (apart x h),
    )

-- Every character keeps the buffer's indexes in order and at most 128 apart, does not touch the read
-- index, and leaves what is committed committed. No store overwrites a byte that is not read yet: every
-- byte from the read index up to the edit index, before and after, is the same.
pub input_char-Kept : (c : ℕ) (i : Input) → IsValid i → Kept i (input_char c i).1
unfolding input_char
input_char-Kept c i v = elim (Bool-cases (c == ctrl_p)) [
  | inl p ↦ rw p (Kept-self i v)
  | inr np ↦ elim (Bool-cases (c == ctrl_u)) [
    | inl u ↦ rw (np, u) (kill_line-Kept (2 ^ 32) i v (minus_self i.e i.w v.e32 v.w32)).0
    | inr nu ↦ elim (Bool-cases ((c == ctrl_h) || (c == 127))) [
      | inl h ↦ elim (Bool-cases (i.e == i.w)) [
        | inl e ↦ rw (np, nu, h, e) (Kept-self i v)
        | inr ne ↦ rw (np, nu, h, ne) (erase_one-Kept i v ne)
      ]
      | inr nh ↦ elim (Bool-cases (not (c == 0) && ltb (minus i.e i.r) input_buf)) [
        | inl st ↦ rw (np, nu, nh, st) (store_char-Kept (translate c) i v (ground arith))
        | inr full ↦ rw (np, nu, nh, full) (Kept-self i v)
      ]
    ]
  ]
]
