-- ===== src/Payload/Read.antt =====
-- `_get` and `_shallow_get` of `KvPayload`, by recursion on the segments of the key. `null` is
-- Python's `None`, which stands for a missing key too.
use cortx_utils.Base.{
  ℕ, Text, Option, none, some, List, [], ◌∷◌, if◌then◌else◌, Result, ok, err, kv_error, einval,
  key_error, type_error, attribute_error, unbound_local, ◌>>=◌,
}
use cortx_utils.Key.{Part, key_index_split, is_blank, is_empty}
use cortx_utils.Value.{Value, null, str, list, dict}
use cortx_utils.Value.Dict.{lookup}
use cortx_utils.Value.Seq.{get_elem?}

abbrev or_null : Option Value → Value
or_null none = null
or_null (some v) = v

-- `data[leaf_key][leaf_index]`, with `len(…)` of a value that has none a `TypeError`.
unfoldable pub index_leaf : ℕ → Value → Result Value
index_leaf n (list xs) = ok (or_null (get_elem? xs n))
index_leaf n (str s) = ok null
index_leaf n (dict fs) = ok null
index_leaf n _ = err type_error

unfoldable pub get_leaf : Text → Option (ℕ × Text) → Value → Result Value
unfolding index_leaf
get_leaf name none (dict fs) = ok (or_null (lookup name fs))
get_leaf name none _ = err unbound_local
get_leaf name (some (n, mid)) node =
    if is_empty mid
    then (elim node [
      | dict fs ↦ elim (lookup name fs) [ none ↦ ok null | some v ↦ index_leaf n v ]
      | _ ↦ err attribute_error
    ])
    else err (kv_error einval)

-- Only a dict is entered.
unfoldable pub enter : (Value → Result Value) → Value → Result Value
enter descend (dict fs) = descend (dict fs)
enter descend _ = ok null

unfoldable pub enter_index : ℕ → (Value → Result Value) → Value → Result Value
unfolding enter
enter_index n descend (list xs) = elim (get_elem? xs n) [
  | none ↦ ok null
  | some v ↦ enter descend v
]
enter_index n descend _ = ok null

unfoldable pub get_down : Text → Option (ℕ × Text) → (Value → Result Value) → Value → Result Value
unfolding enter_index
get_down name none descend (dict fs) = elim (lookup name fs) [
  | none ↦ ok null
  | some v ↦ enter descend v
]
get_down name none descend _ = err attribute_error
get_down name (some (n, mid)) descend node =
    if is_empty mid
    then (elim node [
      | dict fs ↦ elim (lookup name fs) [ none ↦ err key_error | some v ↦ enter_index n descend v ]
      | _ ↦ err type_error
    ])
    else err (kv_error einval)

-- `_get`: a blank name is refused before the data are looked at.
unfoldable pub get_path : Text → List Text → Value → Result Value
unfolding get_leaf get_down
get_path k [] node =
    let p = key_index_split k in
    if is_blank p.name then err (kv_error einval) else get_leaf p.name p.index node
get_path k (k' ∷ ks) node =
    let p = key_index_split k in
    let rest = get_path k' ks in
    if is_blank p.name then err (kv_error einval) else get_down p.name p.index rest node

-- One segment of `_shallow_get`: `none` where it returns `None` at once.
unfoldable pub shallow_step : Part → Value → Result (Option Value)
shallow_step p (dict fs) = elim p.index [
  | none ↦ ok (lookup p.name fs)
  | some (n, mid) ↦
      if is_blank p.name
      then err (kv_error einval)
      else elim (lookup p.name fs) [ some (list xs) ↦ ok (get_elem? xs n) | _ ↦ ok none ]
]
shallow_step p _ = elim p.index [
  | none ↦ err attribute_error
  | some _ ↦ if is_blank p.name then err (kv_error einval) else err attribute_error
]

unfoldable pub shallow_get_path : Text → List Text → Value → Result Value
unfolding shallow_step
shallow_get_path k [] node = do found ← shallow_step (key_index_split k) node; ok (or_null found)
shallow_get_path k (k' ∷ ks) node = do
  found ← shallow_step (key_index_split k) node
  elim found [ none ↦ ok null | some v ↦ shallow_get_path k' ks v ]
