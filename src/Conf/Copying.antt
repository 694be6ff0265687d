-- ===== src/Conf/Copying.antt =====
-- `copy`, `compare` and `merge` of `ConfStore`.
pub mod Loop
pub mod Laws
use cortx_utils.Base.{
  ℕ, Text, Bool, true, false, not, ◌&&◌, Option, none, some, List, [], ◌∷◌, Result, ok, err, Error,
  conf_error, einval, enoent, not_initialized, key_error, contains, find, if◌then◌else◌,
}
use cortx_utils.Base.Exec.{Exec, pure, raise, lift, ◌>>=◌, ◌>>◌}
use cortx_utils.Value.{Value}
use cortx_utils.Value.Compare.{value_eq, is_truthy}
use cortx_utils.Conf.{ConfStore, cached, is_loaded, set}
use cortx_utils.Conf.Cache
use cortx_utils.Conf.Cache.{ConfCache}

-- `self._cache[index].get(key)`
unfoldable pub value_at : Text → Text → ConfStore → Result Value
value_at index key s = elim (cached key_error index s) [
  | err e ↦ err e
  | ok c ↦ Cache.get key true c
]

-- `self._cache[index].get_keys(key_index=…)`
unfoldable pub keys_at : Text → Bool → ConfStore → Result (List Text)
keys_at index key_index s = elim (cached key_error index s) [
  | err e ↦ err e
  | ok c ↦ ok (Cache.get_keys key_index c)
]

-- `set` of one key with the value that the other index has.
unfoldable pub copy_key : Text → Text → Text → Exec ConfStore (Unit {0})
copy_key src dst key s = elim (value_at src key s) [ err e ↦ (err e, s) | ok v ↦ set dst key v s ]

-- The loop of `copy`: it stops at the first exception, and what was copied stays.
unfoldable pub copy_keys : Text → Text → List Text → Exec ConfStore (Unit {0})
copy_keys src dst [] s = (ok tt, s)
copy_keys src dst (k ∷ ks) s =
    let (r, t) = copy_key src dst k s in
    let rest = copy_keys src dst ks t in elim r [ ok _ ↦ rest | err e ↦ (err e, t) ]

unfoldable pub copy : Text → Text → Option (List Text) → Bool → Exec ConfStore (Unit {0})
copy src dst key_list recurse s =
    if not (is_loaded src s)
    then (err (conf_error einval), s)
    else if not (is_loaded dst s)
    then (err (conf_error einval), s)
    else elim key_list [
      | some keys ↦ copy_keys src dst keys s
      | none ↦ elim (keys_at src recurse s) [
        | err e ↦ (err e, s)
        | ok keys ↦ copy_keys src dst keys s
      ]
    ]

-- `set(xs).difference(ys)`, of which the code fixes no order.
unfoldable pub difference : List Text → List Text → List Text
difference [] ys = []
difference (x ∷ xs) ys = let rest = difference xs ys in if contains x ys then rest else x ∷ rest

-- `self._cache[index1].get(key) != self._cache[index2].get(key)`
unfoldable pub differs : Text → Text → Text → ConfStore → Result Bool
differs index1 index2 key s = elim (value_at index1 key s) [
  | err e ↦ err e
  | ok v ↦ elim (value_at index2 key s) [ err e ↦ err e | ok w ↦ ok (not (value_eq v w)) ]
]

-- The keys that were not deleted and have another value.
unfoldable pub updated : Text → Text → List Text → ConfStore → List Text → Result (List Text)
updated index1 index2 deleted s [] = ok []
updated index1 index2 deleted s (k ∷ ks) =
    let rest = updated index1 index2 deleted s ks in
    if contains k deleted then rest else elim (differs index1 index2 k s) [
      | err e ↦ err e
      | ok d ↦ elim rest [ err e ↦ err e | ok more ↦ ok (if d then k ∷ more else more) ]
    ]

pub record Difference : Type 0 where
  pub new_keys : List Text
  pub deleted_keys : List Text
  pub updated_keys : List Text

unfoldable pub compare : Text → Text → ConfStore → Result Difference
compare index1 index2 s = elim (cached (conf_error einval) index1 s) [
  | err e ↦ err e
  | ok c1 ↦ elim (cached (conf_error einval) index2 s) [
    | err e ↦ err e
    | ok c2 ↦
        let keys1 = Cache.get_keys true c1 in
        let keys2 = Cache.get_keys true c2 in
        let deleted = difference keys1 keys2 in
        elim (updated index1 index2 deleted s keys1) [
          | err e ↦ err e
          | ok changed ↦ ok (record {
            new_keys = difference keys2 keys1;
            deleted_keys = deleted;
            updated_keys = changed;
          })
        ]
  ]
]

-- The check of given keys: a key whose value is missing or false in Python's sense is refused.
unfoldable pub check_present : Text → List Text → ConfStore → Result (Unit {0})
check_present src [] s = ok tt
check_present src (k ∷ ks) s =
    let rest = check_present src ks s in
    elim (value_at src k s) [
      | err e ↦ err e
      | ok v ↦ if is_truthy v then rest else err (conf_error enoent)
    ]

-- `_merge`: only keys that the destination does not list are written.
unfoldable pub merge_keys : Text → Text → List Text → Exec ConfStore (Unit {0})
merge_keys dest src [] s = (ok tt, s)
merge_keys dest src (k ∷ ks) s = elim (keys_at dest true s) [
  | err e ↦ (err e, s)
  | ok listed ↦
      let (r, t) = copy_key src dest k s in
      let skip = merge_keys dest src ks s in
      let rest = merge_keys dest src ks t in
      if contains k listed then skip else elim r [ ok _ ↦ rest | err e ↦ (err e, t) ]
]

unfoldable pub merge : Text → Text → Option (List Text) → Exec ConfStore (Unit {0})
merge dest src keys s =
    if not (is_loaded src s)
    then (err (conf_error not_initialized), s)
    else if not (is_loaded dest s)
    then (err (conf_error not_initialized), s)
    else elim keys [
      | none ↦ elim (keys_at src true s) [
        | err e ↦ (err e, s)
        | ok listed ↦ merge_keys dest src listed s
      ]
      | some given ↦ elim (check_present src given s) [
        | err e ↦ (err e, s)
        | ok _ ↦ merge_keys dest src given s
      ]
    ]
