-- ===== src/Base/Tables.antt =====
-- A Python dict with text keys whose order the code does not use.
use mathlib.Core.Path.{◌≡◌, refl}
use mathlib.Core.Logic.{◌≢◌}
use mathlib.Core.Option.{Option, none, some}
use mathlib.Core.List.{List, [], ◌∷◌}
use native.Mathlib.Omega.{arith}
use cortx_utils.Base.Tests.{if◌then◌else◌}
use cortx_utils.Base.Chars.{Text, ◌==◌, eq_iff}

abbrev pub Assoc {ℓ} : Type ℓ → Type ℓ
Assoc V = List (Text × V)

module _ {ℓ} {V : Type ℓ} where
  -- `d.get(k)`
  unfoldable pub find : Text → Assoc V → Option V
  find k [] = none
  find k ((j, v) ∷ m) = if j == k then some v else find k m

  -- `d[k] = v`
  unfoldable pub store : Text → V → Assoc V → Assoc V
  store k v [] = (k, v) ∷ []
  store k v ((j, w) ∷ m) = if j == k then (j, v) ∷ m else (j, w) ∷ store k v m

  pub find-store :
      (k j : Text) (v : V) (m : Assoc V)
      → find j (store k v m) ≡ (if k == j then some v else find j m)
  unfolding find store
  find-store k j v [] = refl
  find-store k j v ((i, w) ∷ m) =
      ground (arith, eq_iff k j, eq_iff i k, eq_iff i j, find-store k j v m)

  pub find-store_self : (k : Text) (v : V) (m : Assoc V) → find k (store k v m) ≡ some v
  find-store_self k v m = ground (arith, find-store k k v m, eq_iff k k)

  pub find-store_ne : (k j : Text) (v : V) (m : Assoc V) → k ≢ j → find j (store k v m) ≡ find j m
  find-store_ne k j v m ne = ground (arith, find-store k j v m, eq_iff k j)

  -- Storing what is there changes nothing.
  pub store_self : (k : Text) (v : V) (m : Assoc V) → find k m ≡ some v → store k v m ≡ m
  unfolding find store
  store_self k v [] h = cc
  store_self k v ((i, w) ∷ m) h = ground (arith, store_self k v m)
