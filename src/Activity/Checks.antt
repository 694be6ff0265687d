-- ===== src/Activity/Checks.antt =====
-- What the operations of the activity tracker read and check before they change anything.
use cortx_utils.Base.{
  ℕ, Text, Bool, true, false, Option, none, some, List, [], ◌∷◌, ltb, ◌==◌, if◌then◌else◌, Result,
  ok, err, activity_error, einval, attribute_error, type_error, value_error, ◌>>=◌,
}
use cortx_utils.Value.{Value, null, bool, int, str, dict, ℤ, pos, negsuc, Fields}
use cortx_utils.Value.Dict.{lookup}
use cortx_utils.Activity.Names.{pct_progress_key, status_key, completed}
use cortx_utils.Activity.Entry
use cortx_utils.Activity.Entry.{ActivityEntry}

-- `json.dumps`, and `json.loads` of a text, if it is well formed.
pub record Json : Type 0 where
  pub dumps : Value → Text
  pub loads : Text → Option Value

-- `is_complete`
unfoldable pub is_complete : Fields → Bool
is_complete fs = elim (lookup status_key fs) [ some (str s) ↦ s == completed | _ ↦ false ]

-- A completed activity is refused.
abbrev pub check_complete : {A : Type 0} → Fields → Result A → Result A
check_complete fs rest = if is_complete fs then err (activity_error einval) else rest

-- `<` on integers
abbrev pub less : ℤ → ℤ → Bool
less (pos m) (pos n) = ltb m n
less (pos m) (negsuc n) = false
less (negsuc m) (pos n) = true
less (negsuc m) (negsuc n) = ltb n m

-- `pct_progress < data.get(const.PCT_PROGRESS)`, which compares an integer with an integer or a
-- boolean alone.
unfoldable pub is_below : ℤ → Option Value → Result Bool
is_below pct (some (int n)) = ok (less pct n)
is_below pct (some (bool true)) = ok (less pct (pos 1))
is_below pct (some (bool false)) = ok (less pct (pos 0))
is_below pct _ = err type_error

-- `ActivityEntry(**data)`, which needs a dict.
unfoldable pub as_entry : Text → ℕ → Value → Result ActivityEntry
as_entry fresh now (dict fs) = Entry.init fresh now fs
as_entry fresh now _ = err type_error

-- The first of the values that a store returned, which may be `None` or missing.
unfoldable pub first_value : List Value → Result Value
first_value [] = err (activity_error einval)
first_value (null ∷ vs) = err (activity_error einval)
first_value (v ∷ vs) = ok v

module _ (J : Json) where
  -- `json.loads` of what a store returns.
  unfoldable pub loads_value : Value → Result Value
  loads_value (str t) = elim (J.loads t) [ none ↦ err value_error | some v ↦ ok v ]
  loads_value _ = err type_error

  -- `json.loads(activity.payload.json)`, of which `get` is called.
  unfoldable pub attributes : ActivityEntry → Result Fields
  attributes a = elim (J.loads (J.dumps a.payload.node)) [
    | none ↦ err value_error
    | some (dict fs) ↦ ok fs
    | some _ ↦ err attribute_error
  ]

  -- What `update` checks.
  unfoldable pub check_update : ℤ → ActivityEntry → Result (Unit {0})
  check_update pct a = do
    fs ← attributes a
    below ← check_complete fs (is_below pct (lookup pct_progress_key fs))
    if below then err (activity_error einval) else ok tt

  -- What `suspend` checks.
  unfoldable pub check_suspend : ActivityEntry → Result (Unit {0})
  check_suspend a = do fs ← attributes a; check_complete fs (ok tt)
