-- ===== src/Activity/Searching.antt =====
-- `Activity.search` (py-utils/src/utils/activity_tracker/activity_store.py): the activities whose
-- attributes agree with every filter, such as `status == 'NEW'`.
use cortx_utils.Base.{
  ℕ, Text, Bool, true, false, none, some, List, [], ◌∷◌, leb, ◌=ℕ◌, ◌==◌, ◌&&◌, ◌||◌, if◌then◌else◌,
  Result, ok, err, attribute_error, type_error, value_error, ◌>>=◌,
}
use cortx_utils.Base.Exec.{Exec, lift, pure}
use cortx_utils.Base.Exec
use cortx_utils.Key.Words.{split_two, strip}
use cortx_utils.Value.{Value, dict, Fields}
use cortx_utils.Value.Dict.{lookup}
use cortx_utils.KvStore
use cortx_utils.KvStore.{Backend}
use cortx_utils.Activity.Checks.{Json, loads_value}

-- `[a-zA-Z_]`
is_word : ℕ → Bool
is_word c = (leb b'a' c && leb c b'z') || (leb b'A' c && leb c b'Z') || c =ℕ b'_'

-- `re.split("[^a-zA-Z_]", f)[0]`
unfoldable pub leading_word : Text → Text
unfolding is_word
leading_word [] = []
leading_word (c ∷ s) = if is_word c then c ∷ leading_word s else []

-- `r.replace("'", "")`: the quote has the code 39.
unfoldable pub unquoted : Text → Text
unquoted [] = []
unquoted (c ∷ s) = if c =ℕ 39 then unquoted s else c ∷ unquoted s

-- `_, r = [...]`: there must be two parts.
unfoldable pub right_side : Text → Result Text
right_side f = elim (split_two b'=' b'=' f).1 [
  | [] ↦ err value_error
  | r ∷ rest ↦ elim rest [ [] ↦ ok (unquoted (strip r)) | _ ↦ err value_error ]
]

module _ (J : Json) (show : Value → Text) where
  -- One filter on the attributes.
  unfoldable pub meets : Text → Fields → Result Bool
  meets f fs = elim (lookup (leading_word f) fs) [
    | none ↦ ok false
    | some v ↦ right_side f >>= λ r. ok (show v == r)
  ]

  -- The filters in turn, up to the first that fails.
  unfoldable pub meets_all : List Text → Value → Result Bool
  meets_all [] v = ok true
  meets_all (f ∷ filters) (dict fs) =
      let rest = meets_all filters (dict fs) in meets f fs >>= λ met. if met then rest else ok false
  meets_all (f ∷ filters) _ = err attribute_error

  -- `json.loads(val[0])`
  unfoldable pub decoded : List Value → Result Value
  decoded [] = err type_error
  decoded (v ∷ vs) = loads_value J v

  module _ (B : Backend) (url : Text) (filters : List Text) where
    -- The loop over the identifiers.
    unfoldable pub search_each : List Text → Exec B.World (List Text)
    search_each [] = pure []
    search_each (i ∷ ids) = Exec.◌>>=◌ (KvStore.get B url (i ∷ [])) λ vals.
        Exec.◌>>=◌ (lift (decoded vals >>= meets_all filters)) λ matched.
          Exec.◌>>=◌ (search_each ids) λ found. pure (if matched then i ∷ found else found)

    unfoldable pub search : Text → Exec B.World (List Text)
    search resource_path = Exec.◌>>=◌ (KvStore.get_keys B url resource_path) search_each
