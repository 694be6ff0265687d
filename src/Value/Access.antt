-- ===== src/Value/Access.antt =====
-- What Python code does to a value that it takes for a dict or a list: `v.get(k)`, `v[k]`,
-- `for x in v` and `x in v`, with what is raised where the value is of another type.
use cortx_utils.Base.{
  Text, Bool, true, false, Option, none, some, [], ◌∷◌, ◌||◌, starts_with, Result, ok, err,
  attribute_error, key_error, type_error,
}
use cortx_utils.Value.{Value, null, str, list, dict, Items, nil, cons, Fields, end, field}
use cortx_utils.Value.Dict.{lookup}
use cortx_utils.Value.Compare.{value_eq}

abbrev pub or_null : Option Value → Value
or_null none = null
or_null (some v) = v

abbrev pub or_key_error : Option Value → Result Value
or_key_error none = err key_error
or_key_error (some v) = ok v

-- A value as a key of a dict whose keys are texts: lists and dicts are no keys.
unfoldable pub lookup_by : Value → Fields → Result (Option Value)
lookup_by (str k) fs = ok (lookup k fs)
lookup_by (list xs) fs = err type_error
lookup_by (dict gs) fs = err type_error
lookup_by _ fs = ok none

-- `v.get(k)`
unfoldable pub get : Text → Value → Result Value
get k (dict fs) = ok (or_null (lookup k fs))
get k _ = err attribute_error

-- `v.get(k)` with a key that may be no text.
unfoldable pub get_by : Value → Value → Result Value
get_by k (dict fs) = elim (lookup_by k fs) [ ok o ↦ ok (or_null o) | err e ↦ err e ]
get_by k _ = err attribute_error

-- `v[k]`: a list takes no text for an index.
unfoldable pub item : Text → Value → Result Value
item k (dict fs) = or_key_error (lookup k fs)
item k _ = err type_error

-- `d[k]` of a dict, with a key that may be no text.
unfoldable pub item_by : Value → Fields → Result Value
item_by k fs = elim (lookup_by k fs) [ ok o ↦ or_key_error o | err e ↦ err e ]

abbrev pub letters : Text → Items
letters [] = nil
letters (c ∷ s) = cons (str (c ∷ [])) (letters s)

abbrev pub dict_keys : Fields → Items
dict_keys end = nil
dict_keys (field k v fs) = cons (str k) (dict_keys fs)

-- `for x in v`
unfoldable pub elements : Value → Result Items
elements (list xs) = ok xs
elements (str s) = ok (letters s)
elements (dict fs) = ok (dict_keys fs)
elements _ = err type_error

unfoldable pub is_member : Value → Items → Bool
is_member v nil = false
is_member v (cons x xs) = value_eq v x || is_member v xs

-- `p in s` of two texts.
unfoldable pub is_infix : Text → Text → Bool
is_infix p [] = starts_with [] p
is_infix p (c ∷ s) = starts_with (c ∷ s) p || is_infix p s

-- `x in v`
unfoldable pub is_in : Value → Value → Result Bool
is_in x (list xs) = ok (is_member x xs)
is_in (str p) (str s) = ok (is_infix p s)
is_in x (dict fs) = elim (lookup_by x fs) [
  | ok o ↦ elim o [ none ↦ ok false | some v ↦ ok true ]
  | err e ↦ err e
]
is_in x _ = err type_error
