-- ===== src/Service/Steps.antt =====
-- A handler's steps: each may fail, and what the steps before it have changed stays changed.
use stateset_icp_handler.Prelude.{◌≡◌, refl}
use stateset_icp_handler.Errors.{Result, ok, err, panic}

abbrev pub Stateful {ℓ κ} : Type ℓ → Type κ → Type (ℓ ⊔ κ)
Stateful S A = S → Result A × S

abbrev pub continue {ℓ κ ι} :
    {S : Type ℓ} {A : Type κ} {B : Type ι} → Result A × S → (A → Stateful S B) → Result B × S
continue (panic, s) next = (panic, s)
continue (err e, s) next = (err e, s)
continue (ok a, s) next = next a s

infixl 5 ◌>>=◌
abbrev pub ◌>>=◌ {ℓ κ ι} :
    {S : Type ℓ} {A : Type κ} {B : Type ι} → Stateful S A → (A → Stateful S B) → Stateful S B
(m >>= next) s = continue (m s) next

infixl 5 ◌>>◌
abbrev pub ◌>>◌ {ℓ ι} :
    {S : Type ℓ} {B : Type ι} → Stateful S (Unit {0}) → Stateful S B → Stateful S B
m >> next = m >>= λ _. next

-- A step that changes nothing.
abbrev pub lift {ℓ κ} : {S : Type ℓ} {A : Type κ} → Result A → Stateful S A
lift r s = (r, s)

module _ {ℓ κ ι μ} {S : Type ℓ} {A : Type κ} {B : Type ι} {G : Type μ} {b : B} {s' : S} where
  -- A run that succeeds has passed its first step.
  pub step_passed :
      (r : Result A × S) (next : A → Stateful S B)
      → continue r next ≡ (ok b, s')
      → ((a : A) (s : S) → r ≡ (ok a, s) → next a s ≡ (ok b, s') → G)
      → G
  step_passed (panic, s) next h k = cc
  step_passed (err e, s) next h k = cc
  step_passed (ok a, s) next h k = k a s refl h

  pub check_passed :
      (r : Result A) (s : S) (next : A → Stateful S B)
      → continue (r, s) next ≡ (ok b, s')
      → ((a : A) → r ≡ ok a → next a s ≡ (ok b, s') → G)
      → G
  check_passed panic s next h k = cc
  check_passed (err e) s next h k = cc
  check_passed (ok a) s next h k = k a refl h
