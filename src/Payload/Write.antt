-- ===== src/Payload/Write.antt =====
-- `_set` of `KvPayload`, by recursion on the segments of the key. What was written before an
-- exception stays written, so the new data come back beside the error.
pub mod Step
pub mod SetGet
pub mod Frame
pub mod Success
use cortx_utils.Base.{
  ℕ, suc, Text, Option, none, some, List, [], ◌∷◌, if◌then◌else◌, Result, ok, err, kv_error, einval,
  attribute_error, Error,
}
use cortx_utils.Key.{Part, key_index_split, is_blank}
use cortx_utils.Value.{Value, str, list, dict, Items, nil, Fields, end}
use cortx_utils.Value.Dict.{lookup, put}
use cortx_utils.Value.Seq.{get_elem?, set, extend_to}

abbrev pub Update : Type 0
Update = Value → Result (Unit {0}) × Value

-- An intermediate string or list gives way to a dict.
abbrev pub as_dict : Value → Value
as_dict (str s) = dict end
as_dict (list xs) = dict end
as_dict v = v

-- `data[k]`, after `data[k] = {}` if `k` is missing.
abbrev pub child : Option Value → Value
child none = dict end
child (some v) = v

-- `data[k]`, after `data[k] = []` if that is no list.
abbrev pub child_items : Option Value → Items
child_items (some (list xs)) = xs
child_items _ = nil

abbrev pub or_empty : Option Value → Value
or_empty none = str []
or_empty (some v) = v

unfoldable pub set_at : Text → Update → Fields → Result (Unit {0}) × Fields
set_at name update fs = let (r, v) = update (child (lookup name fs)) in (r, put name v fs)

unfoldable pub set_at_index : Text → ℕ → Update → Fields → Result (Unit {0}) × Fields
set_at_index name n update fs =
    let xs = extend_to (child_items (lookup name fs)) (suc n) (str []) in
    let (r, v) = update (or_empty (get_elem? xs n)) in (r, put name (list (set xs n v)) fs)

-- One segment: the text behind the index is not looked at.
unfoldable pub set_step : Text → Option (ℕ × Text) → Update → Fields → Result (Unit {0}) × Fields
unfolding set_at set_at_index
set_step name none update fs = set_at name update fs
set_step name (some (n, mid)) update fs =
    if is_blank name then (err (kv_error einval), fs) else set_at_index name n update fs

-- What is raised at a value that is no dict: a blank name with an index is refused before.
unfoldable pub no_dict : Part → Error
no_dict p = elim p.index [
  | none ↦ attribute_error
  | some _ ↦ if is_blank p.name then kv_error einval else attribute_error
]

abbrev pub at_fields : Part → (Fields → Result (Unit {0}) × Fields) → Update
at_fields p f (dict fs) = let (r, fs') = f fs in (r, dict fs')
at_fields p f v = (err (no_dict p), v)

unfoldable pub set_path : Text → List Text → Value → Value → Result (Unit {0}) × Value
unfolding set_step no_dict
set_path k [] val =
    let p = key_index_split k in at_fields p (set_step p.name p.index (λ _. (ok tt, val)))
set_path k (k' ∷ ks) val =
    let p = key_index_split k in
    at_fields p (set_step p.name p.index (λ v. set_path k' ks val (as_dict v)))
