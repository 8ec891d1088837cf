-- ===== src/Base/Outcomes.antt =====
-- What a call of a kernel function comes to.
use mathlib.Core.Path.{◌≡◌, refl}

-- `ok`: it returns. `panic`: it calls `panic`. `wild`: it reads outside the object that it walks.
-- `spin`: it stays in the loop of `acquire` for as long as the state is not changed by another CPU.
pub data Outcome {ℓ} (A : Type ℓ) : Type ℓ where
  ok : A → Outcome A
  panic : Outcome A
  wild : Outcome A
  spin : Outcome A

infixl 5 ◌>>=◌ ◌>>◌
abbrev pub ◌>>=◌ {ℓ κ} : {A : Type ℓ} {B : Type κ} → Outcome A → (A → Outcome B) → Outcome B
ok a >>= f = f a
panic >>= f = panic
wild >>= f = wild
spin >>= f = spin

abbrev pub ◌>>◌ {ℓ κ} : {A : Type ℓ} {B : Type κ} → Outcome A → Outcome B → Outcome B
m >> k = m >>= λ _. k

pub bind_assoc {ℓ κ μ} :
    {A : Type ℓ} {B : Type κ} {C : Type μ} (m : Outcome A) (f : A → Outcome B) (g : B → Outcome C)
    → (m >>= f >>= g) ≡ (m >>= λ a. f a >>= g)
bind_assoc (ok a) f g = refl
bind_assoc panic f g = refl
bind_assoc wild f g = refl
bind_assoc spin f g = refl
