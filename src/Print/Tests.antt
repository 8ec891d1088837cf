-- ===== src/Print/Tests.antt =====
-- Numbers at both ends of the range of an int, and a format.
use cs_577_p.Base.{ℕ, ◌+◌, ◌^◌, ◌≤◌, ◌<◌, ◌≡◌, ◌⊎◌, refl, arith, true, false, List, [], ◌∷◌}
use cs_577_p.Ulib.{atoi}
use cs_577_p.Print.{lower, fill, printint, kernel_directive, cprintf, printf}
use cs_577_p.Print.Numbers.{lower-IsDecimal, atoi-printint}
use cs_577_p.Print.Agree.{all_common, printf-cprintf}

atoi-printint_example :
    ((7205 < 2 ^ 31) × (atoi (printint lower 7205 10 true) ≡ 7205))
    ⊎ ((2 ^ 31 ≤ 7205)
        × ((s : List ℕ) × (printint lower 7205 10 true ≡ b'-' ∷ s) × (atoi s + 7205 ≡ 2 ^ 32)))
atoi-printint_example = atoi-printint lower 7205 lower-IsDecimal (omega arith)

abbrev pid_format : List ℕ
pid_format = b'p' ∷ b'=' ∷ b'%' ∷ b'd' ∷ b'%' ∷ b'%' ∷ b'%' ∷ []

abbrev no_text : ℕ → List ℕ
no_text s = []

printf-cprintf_example :
    printf no_text (λ i. 42 + i) false pid_format 0 ≡ cprintf no_text (λ i. 42 + i) pid_format 0
unfolding all_common
printf-cprintf_example = printf-cprintf no_text (λ i. 42 + i) pid_format 0 refl

cprintf_pid : cprintf no_text (λ i. 42 + i) pid_format 0 ≡ b'p' ∷ b'=' ∷ b'4' ∷ b'2' ∷ b'%' ∷ []
unfolding cprintf kernel_directive printint fill
cprintf_pid = refl

printint_least : printint lower (2 ^ 31) 16 true ≡ b'-' ∷ printint lower (2 ^ 31) 16 false
unfolding printint
printint_least = refl
