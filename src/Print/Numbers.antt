-- ===== src/Print/Numbers.antt =====
-- printint with base 10: atoi of the user library reads back what it prints.
use cs_577_p.Base.{
  ℕ, zero, suc, ◌+◌, ◌-◌, ◌*◌, ◌/◌, ◌%◌, ◌^◌, ◌≤◌, ◌<◌, ◌≡◌, ◌⊎◌, refl, sym, ap, ◌∙◌, arith, inl,
  inr, Bool, true, List, [], ◌∷◌, get_or, Bool-cases, ◌&&◌, ◌==◌, if◌then◌else◌, leb,
}
use cs_577_p.Ulib.{atoi, atoi_from, is_digit}
use cs_577_p.Print.{lower, upper, fill, printint}

-- A table whose first ten bytes are the decimal digits.
abbrev pub IsDecimal : List ℕ → Type 0
IsDecimal digits = (d : ℕ) → d < 10 → get_or digits d 0 ≡ b'0' + d

pub lower-IsDecimal : IsDecimal lower
lower-IsDecimal zero h = refl
lower-IsDecimal (suc zero) h = refl
lower-IsDecimal (suc (suc zero)) h = refl
lower-IsDecimal (suc (suc (suc zero))) h = refl
lower-IsDecimal (suc (suc (suc (suc zero)))) h = refl
lower-IsDecimal (suc (suc (suc (suc (suc zero))))) h = refl
lower-IsDecimal (suc (suc (suc (suc (suc (suc zero)))))) h = refl
lower-IsDecimal (suc (suc (suc (suc (suc (suc (suc zero))))))) h = refl
lower-IsDecimal (suc (suc (suc (suc (suc (suc (suc (suc zero)))))))) h = refl
lower-IsDecimal (suc (suc (suc (suc (suc (suc (suc (suc (suc zero))))))))) h = refl
lower-IsDecimal (suc (suc (suc (suc (suc (suc (suc (suc (suc (suc d)))))))))) h =
    absurd (omega arith)

pub upper-IsDecimal : IsDecimal upper
upper-IsDecimal zero h = refl
upper-IsDecimal (suc zero) h = refl
upper-IsDecimal (suc (suc zero)) h = refl
upper-IsDecimal (suc (suc (suc zero))) h = refl
upper-IsDecimal (suc (suc (suc (suc zero)))) h = refl
upper-IsDecimal (suc (suc (suc (suc (suc zero))))) h = refl
upper-IsDecimal (suc (suc (suc (suc (suc (suc zero)))))) h = refl
upper-IsDecimal (suc (suc (suc (suc (suc (suc (suc zero))))))) h = refl
upper-IsDecimal (suc (suc (suc (suc (suc (suc (suc (suc zero)))))))) h = refl
upper-IsDecimal (suc (suc (suc (suc (suc (suc (suc (suc (suc zero))))))))) h = refl
upper-IsDecimal (suc (suc (suc (suc (suc (suc (suc (suc (suc (suc d)))))))))) h =
    absurd (omega arith)

fill_alike :
    (digits digits' : List ℕ) (n x : ℕ) (buf : List ℕ)
    → IsDecimal digits
    → IsDecimal digits'
    → fill n digits 10 x buf ≡ fill n digits' 10 x buf
unfolding fill
fill_alike digits digits' zero x buf h h' = refl
fill_alike digits digits' (suc n) x buf h h' =
    let e : get_or digits (x % 10) 0 ≡ get_or digits' (x % 10) 0 =
      h (x % 10) (omega arith) ∙ sym (h' (x % 10) (omega arith)) in
    ap (λ b. if x / 10 == 0 then b ∷ buf else fill n digits 10 (x / 10) (b ∷ buf)) e
    ∙ ap (λ l. if x / 10 == 0 then get_or digits' (x % 10) 0 ∷ buf else l)
        (fill_alike digits digits' n (x / 10) (get_or digits' (x % 10) 0 ∷ buf) h h')

-- Only the decimal digits of a table matter with base 10.
pub printint_alike :
    (digits digits' : List ℕ) (x : ℕ) (sign : Bool)
    → IsDecimal digits
    → IsDecimal digits'
    → printint digits x 10 sign ≡ printint digits' x 10 sign
unfolding printint
printint_alike digits digits' x sign h h' = elim (Bool-cases (sign && leb (2 ^ 31) x)) [
  | inl e ↦ rw e (
      ap (λ l. b'-' ∷ l)
        (fill_alike digits digits' (suc ((2 ^ 32 - x) % 2 ^ 32)) ((2 ^ 32 - x) % 2 ^ 32) [] h h'))
  | inr e ↦ rw e (fill_alike digits digits' (suc x) x [] h h')
]

atoi_digit :
    (n d : ℕ) (cs : List ℕ)
    → d < 10
    → n * 10 + d < 2 ^ 32
    → atoi_from n ((b'0' + d) ∷ cs) ≡ atoi_from (n * 10 + d) cs
unfolding atoi_from
atoi_digit n d cs h fits =
    let is : is_digit (b'0' + d) ≡ true = ground arith in
    rw is (ap (λ x. atoi_from x cs) (omega arith))

atoi-fill :
    (digits : List ℕ) (n x : ℕ) (buf : List ℕ)
    → IsDecimal digits
    → x < n
    → x < 2 ^ 32
    → atoi_from 0 (fill n digits 10 x buf) ≡ atoi_from x buf
unfolding fill
atoi-fill digits zero x buf dec h fits = absurd (omega arith)
atoi-fill digits (suc n) x buf dec h fits = elim (Bool-cases (x / 10 == 0)) [
  | inl e ↦ rw e (
      ap (λ b. atoi_from 0 (b ∷ buf)) (dec (x % 10) (omega arith))
      ∙ atoi_digit 0 (x % 10) buf (omega arith) (omega arith)
      ∙ ap (λ y. atoi_from y buf) (ground arith))
  | inr e ↦ rw e (
      atoi-fill digits n (x / 10) (get_or digits (x % 10) 0 ∷ buf) dec (ground arith) (omega arith)
      ∙ ap (λ b. atoi_from (x / 10) (b ∷ buf)) (dec (x % 10) (omega arith))
      ∙ atoi_digit (x / 10) (x % 10) buf (omega arith) (omega arith)
      ∙ ap (λ y. atoi_from y buf) (omega arith))
]

-- What printint prints for an int, from a table with the decimal digits: atoi reads an int that is not
-- negative back; a negative one is a minus and what atoi reads as its absolute value.
pub atoi-printint :
    (digits : List ℕ) (x : ℕ)
    → IsDecimal digits
    → x < 2 ^ 32
    → ((x < 2 ^ 31) × (atoi (printint digits x 10 true) ≡ x))
      ⊎ ((2 ^ 31 ≤ x)
          × ((s : List ℕ) × (printint digits x 10 true ≡ b'-' ∷ s) × (atoi s + x ≡ 2 ^ 32)))
unfolding printint atoi
atoi-printint digits x dec h = elim (Bool-cases (leb (2 ^ 31) x)) [
  | inl e ↦ inr (
    ground arith,
    (
      fill (suc (2 ^ 32 - x)) digits 10 (2 ^ 32 - x) [],
      rw e (ap (λ y. b'-' ∷ fill (suc y) digits 10 y []) (ground arith)),
      omega (
        arith,
        atoi-fill digits (suc (2 ^ 32 - x)) (2 ^ 32 - x) [] dec (omega arith) (ground arith),
      ),
    ),
  )
  | inr e ↦ inl (ground arith, rw e (atoi-fill digits (suc x) x [] dec (omega arith) h))
]
