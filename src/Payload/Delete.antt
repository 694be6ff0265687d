-- ===== src/Payload/Delete.antt =====
-- `_delete` of `KvPayload`, by recursion on the segments of the key.
pub mod Keeps
pub mod Gone
pub mod Guard
pub mod Frame
use cortx_utils.Base.{
  ℕ, suc, Text, Bool, true, false, ◌||◌, Option, none, some, List, [], ◌∷◌, leb, ◌=ℕ◌,
  if◌then◌else◌, Result, ok, err, kv_error, einval, attribute_error,
}
use cortx_utils.Key.{key_index_split}
use cortx_utils.Value.{Value, str, list, dict, Items, cons, Fields, field}
use cortx_utils.Value.Dict.{lookup, put, remove}
use cortx_utils.Value.Seq.{length, get_elem?, set, drop_last}

-- `data.keys()` of a value that is no dict is an `AttributeError`.
abbrev pub at_dict : {A : Type 0} → (Fields → Result A × Fields) → Value → Result A × Value
at_dict f (dict fs) = let (r, fs') = f fs in (r, dict fs')
at_dict f v = (err attribute_error, v)

-- A list or dict that holds something is no leaf.
abbrev pub is_removable : Value → Bool
is_removable (list (cons x xs)) = false
is_removable (dict (field k v fs)) = false
is_removable _ = true

-- `del data[k][n]` at the end of the list, `data[k][n] = ''` before it.
abbrev pub delete_elem : Items → ℕ → Items
delete_elem xs n = if suc n =ℕ length xs then drop_last xs else set xs n (str [])

unfoldable pub delete_leaf : Text → Option (ℕ × Text) → Bool → Fields → Result Bool × Fields
delete_leaf name none force fs = elim (lookup name fs) [
  | none ↦ (ok false, fs)
  | some v ↦
      if is_removable v || force then (ok true, remove name fs) else (err (kv_error einval), fs)
]
delete_leaf name (some (n, mid)) force fs = elim (lookup name fs) [
  | none ↦ (ok false, fs)
  | some (list xs) ↦
      if leb (length xs) n then (ok false, fs) else (ok true, put name (list (delete_elem xs n)) fs)
  | some _ ↦ (err (kv_error einval), fs)
]

unfoldable pub delete_down :
    Text → Option (ℕ × Text) → (Value → Result Bool × Value) → Fields → Result Bool × Fields
delete_down name none descend fs = elim (lookup name fs) [
  | none ↦ (ok false, fs)
  | some v ↦ let (r, v') = descend v in (r, put name v' fs)
]
delete_down name (some (n, mid)) descend fs = elim (lookup name fs) [
  | none ↦ (ok false, fs)
  | some (list xs) ↦ elim (get_elem? xs n) [
    | none ↦ (ok false, fs)
    | some x ↦ let (r, x') = descend x in (r, put name (list (set xs n x')) fs)
  ]
  | some _ ↦ (err (kv_error einval), fs)
]

unfoldable pub delete_path : Text → List Text → Bool → Value → Result Bool × Value
unfolding delete_leaf delete_down
delete_path k [] force = let p = key_index_split k in at_dict (delete_leaf p.name p.index force)
delete_path k (k' ∷ ks) force =
    let p = key_index_split k in
    let rest = delete_path k' ks force in at_dict (delete_down p.name p.index rest)
