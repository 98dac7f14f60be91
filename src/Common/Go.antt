-- ===== src/Common/Go.antt =====
-- Go code that changes state and may panic. What was written before a panic stays written.
use secretgen_controller.Common.{Text}

pub data Outcome {ℓ} (A : Type ℓ) : Type ℓ where
  value : A → Outcome A
  panicked : Text → Outcome A

abbrev pub Go {ℓ} : Type ℓ → Type ℓ → Type ℓ
Go S A = S → Outcome A × S

module _ {ℓ} {S A : Type ℓ} where
  abbrev pub pure : A → Go S A
  pure a s = (value a, s)

  abbrev pub panic : Text → Go S A
  panic e s = (panicked e, s)

  -- Runs a function of the state that neither changes it nor panics.
  abbrev pub gets : (S → A) → Go S A
  gets f s = (value (f s), s)

  -- Runs a function that returns a result and the new state.
  abbrev pub call : (S → A × S) → Go S A
  call f s = let (a, s') = f s in (value a, s')

abbrev pub modify : {S : Type 0} → (S → S) → Go S (Unit {0})
modify f s = (value tt, f s)

module _ {ℓ} {S A B : Type ℓ} where
  abbrev pub continue : Outcome A → (A → Go S B) → Go S B
  continue (value a) f s = f a s
  continue (panicked e) f s = (panicked e, s)

  infixl 5 ◌>>=◌ ◌>>◌
  abbrev pub ◌>>=◌ : Go S A → (A → Go S B) → Go S B
  ◌>>=◌ m f s = let (r, s') = m s in continue r f s'

  abbrev pub ◌>>◌ : Go S A → Go S B → Go S B
  m >> n = m >>= λ _. n
