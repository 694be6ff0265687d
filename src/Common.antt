-- ===== src/Common.antt =====
-- `ExponentialBackoff` (py-utils/src/utils/common/common.py): a call that is tried again.
pub mod Attempts
pub mod Cluster
pub mod Database
use cortx_utils.Base.{
  ℕ, zero, suc, Bool, true, false, List, [], ◌∷◌, ◌++◌, ◌*◌, leb, if◌then◌else◌, Error, Result, ok,
  err,
}
use cortx_utils.Base.Exec.{Exec}

-- `min(cap, max_delay)`
abbrev pub min : ℕ → ℕ → ℕ
min m n = if leb m n then m else n

-- What the decorator was given: the exceptions that it catches, the factor and the cap.
pub record ExponentialBackoff : Type 0 where
  pub catches : Error → Bool
  pub backoff : ℕ
  pub cap : ℕ

module _ {S A : Type 0} (X : ExponentialBackoff) (func : Exec S A) where
  open X use {catches, backoff, cap}

  -- `wrap`, with the tries and the delay that are left, and the pauses that were made.
  unfoldable pub wrap : ℕ → ℕ → Exec (S × List ℕ) A
  wrap (suc (suc n)) delay (s, pauses) =
      let (r, s') = func s in
      let rest = wrap (suc n) (delay * backoff) (s', pauses ++ (min cap delay ∷ [])) in
      elim r [
        | ok a ↦ (ok a, (s', pauses))
        | err e ↦ if catches e then rest else (err e, (s', pauses))
      ]
  wrap n delay (s, pauses) = let (r, s') = func s in (r, (s', pauses))
