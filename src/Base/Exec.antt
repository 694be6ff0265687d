-- ===== src/Base/Exec.antt =====
-- Methods that change a state and may raise: what was done before the exception stays done.
use cortx_utils.Base.Results.{Error, Result, ok, err}

abbrev pub Exec {ℓ} : Type ℓ → Type ℓ → Type ℓ
Exec S A = S → Result A × S

module _ {ℓ} {S A : Type ℓ} where
  abbrev pub pure : A → Exec S A
  pure value state = (ok value, state)

  abbrev pub raise : Error → Exec S A
  raise error state = (err error, state)

  -- A computation that reads nothing but what it is given.
  abbrev pub lift : Result A → Exec S A
  lift outcome state = (outcome, state)

module _ {ℓ} {S A B : Type ℓ} where
  abbrev pub continue : Result A → (A → Exec S B) → Exec S B
  continue (err e) f s = (err e, s)
  continue (ok a) f s = f a s

  infixl 5 ◌>>=◌ ◌>>◌
  abbrev pub ◌>>=◌ : Exec S A → (A → Exec S B) → Exec S B
  ◌>>=◌ m f s = let (r, s') = m s in continue r f s'

  abbrev pub ◌>>◌ : Exec S A → Exec S B → Exec S B
  m >> n = m >>= λ _. n
