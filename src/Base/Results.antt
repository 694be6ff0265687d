-- ===== src/Base/Results.antt =====
-- What a Python call may raise, and the outcome of a call that may raise.
use mathlib.Core.Path.{◌≡◌, refl}
use mathlib.Core.Logic.{◌⊎◌, inl, inr}

-- The error numbers that the errors of the code carry.
pub data Errno : Type 0 where
  einval enosys enoent not_initialized internal_error eperm : Errno

-- `KvError`, `ConfError`, `ActivityError`, `SetupError`, `BundleError`, `EventMessageError` and `MessageBusError` carry
-- an error number, and the errors of data access a message; the others are Python's own exceptions, which the code raises where an operation
-- meets a value of the wrong type or a missing key.
pub data Error : Type 0 where
  kv_error conf_error activity_error setup_error bundle_error event_error bus_error : Errno → Error
  key_error type_error attribute_error unbound_local value_error os_error index_error
        not_implemented :
      Error
  data_access_internal data_access_external malformed_query : Error
  -- a plain `Exception`
  exception : Error

-- What a call returns, or the exception that it ends with.
pub data Result {ℓ} (A : Type ℓ) : Type ℓ where
  err : Error → Result A
  ok : A → Result A

-- An exception skips the rest of a block.
infixl 5 ◌>>=◌
abbrev pub ◌>>=◌ {ℓ κ} : {A : Type ℓ} {B : Type κ} → Result A → (A → Result B) → Result B
err raised >>= rest = err raised
ok value >>= rest = rest value

pub Result-cases {ℓ} :
    {A : Type ℓ} (r : Result A) → ((a : A) × (r ≡ ok a)) ⊎ ((e : Error) × (r ≡ err e))
Result-cases (ok a) = inl (a, refl)
Result-cases (err e) = inr (e, refl)
