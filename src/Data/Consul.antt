-- ===== src/Data/Consul.antt =====
-- `ConsulDB` (py-utils/src/utils/data/db/consul_db/storage.py) on `GenericDataBase`
-- (py-utils/src/utils/data/db/generic_storage.py), over an interface to the store of Consul. The
-- coroutines and the pool of threads are run at once; the deletions of `delete` in their order.
pub mod Sorting
pub mod Store
pub mod Deletion
pub mod Paths
pub mod Writing
pub mod Identity
pub mod Paging
use cortx_utils.Base.{
  ℕ, suc, ◌+◌, ◌-◌, ◌++◌, Text, codes, List, [], ◌∷◌, Bool, true, false, not, ◌||◌, ◌&&◌, Option,
  none, some, Result, ok, err, ltb, contains, if◌then◌else◌, attribute_error, value_error,
  data_access_internal, data_access_external,
}
use cortx_utils.Base
use cortx_utils.Base.Exec.{Exec, pure, raise, lift, ◌>>=◌, ◌>>◌}
use cortx_utils.Value.{ℤ, pos, negsuc, Value, null, dict, Fields, end, field}
use cortx_utils.Value.Dict.{put, names}
use cortx_utils.Key.Words.{lower}
use cortx_utils.Activity.Checks.{Json}
use cortx_utils.Data.Filters.{Filter, filter_compare, name, base_type, operation_eq}
use cortx_utils.Data.Queries.{Query, OrderBy, SortOrder, asc, new_query, set_filter_by}
use cortx_utils.Data.Models.{Model, attribute, field_to_str, convert, or_internal, read_object}
use cortx_utils.Data.Templates.{
  ConsulKeyTemplate, new_templates, set_object_type, get_object_root, get_object_dir,
  get_object_path,
}
use cortx_utils.Data.Converter.{Entry, build}
use cortx_utils.Data.Consul.Sorting.{sort_by, slice, length}

-- The client: `kv.get`, `kv.get` with `recurse`, `kv.put` and `kv.delete`.
pub record Client : Type 1 where
  pub World : Type 0
  pub get_value : Text → World → Result (Option Text)
  pub get_all : Text → World → Result (Option (List Entry))
  pub put_value : Text → Text → Exec World Bool
  pub delete_key : Text → Exec World Bool

-- The database, with the names of the fields that its objects have.
pub record ConsulDb : Type 0 where
  pub templates : ConsulKeyTemplate
  pub model_scheme : Value

-- `__init__`
unfoldable pub init : Text → Result ConsulDb
init collection =
    Base.◌>>=◌ (set_object_type (lower collection) new_templates)
      λ t. ok (record { templates = t; model_scheme = dict end })

-- `dict.fromkeys(names)`
unfoldable pub from_keys : List Text → Fields
from_keys [] = end
from_keys (k ∷ ks) = let rest = from_keys ks in if contains k ks then rest else field k null rest

-- `self._model_scheme.keys()`
unfoldable pub scheme_keys : Value → Result (List Text)
scheme_keys (dict fs) = ok (names fs)
scheme_keys _ = err attribute_error

-- `a - b` has a member.
unfoldable pub has_other : List Text → List Text → Bool
has_other [] ks = false
has_other (j ∷ js) ks = not (contains j ks) || has_other js ks

abbrev pub or_external : Bool → Result (Unit {0})
or_external true = ok tt
or_external false = err data_access_external

-- `data is None`
abbrev pub or_nothing : Option (List Entry) → List Entry
or_nothing none = []
or_nothing (some es) = es

-- `setattr` for each of some fields.
unfoldable pub set_all : Fields → Fields → Fields
set_all end o = o
set_all (field k v fs) o = set_all fs (put k v o)

-- The offset and the end of the slice: neither may be negative.
unfoldable pub page : Option ℤ → Option ℤ → ℕ → Result (ℕ × ℕ)
page (some (negsuc n)) limit size = err data_access_internal
page none none size = ok (0, size)
page none (some (pos l)) size = ok (0, l)
page none (some (negsuc l)) size = err data_access_internal
page (some (pos n)) none size = ok (n, size)
page (some (pos n)) (some (pos l)) size = ok (n, n + l)
page (some (pos n)) (some (negsuc l)) size =
    if ltb n (suc l) then err data_access_internal else ok (n, n - suc l)

-- `any((query.order_by, query.offset))`
abbrev pub is_ordered : Query → Bool
is_ordered q = elim q.order_by [
  | some o ↦ true
  | none ↦ elim q.offset [ some (pos n) ↦ ltb 0 n | some (negsuc n) ↦ true | none ↦ false ]
]

module _ (C : Client) (M : Model) (J : Json) (shown : Value → Text) where
  open C use {World, get_value, get_all, put_value, delete_key}

  -- `kv.put`, with its answer checked.
  unfoldable pub put_checked : Text → Text → Exec World (Unit {0})
  put_checked k v = put_value k v >>= λ response. lift (or_external response)

  -- `_create_obj_dir`
  unfoldable pub create_obj_dir : Text → ConsulDb → Exec World ConsulDb
  create_obj_dir dir db w = elim (get_value dir w) [
    | err e ↦ (err e, w)
    | ok none ↦
        let scheme = dict (from_keys M.fields) in
        (put_checked dir (J.dumps scheme) >> pure (record db { model_scheme = scheme })) w
    | ok (some text) ↦ elim (J.loads text) [
      | none ↦ (err value_error, w)
      | some v ↦ (ok (record db { model_scheme = v }), w)
    ]
  ]

  -- `create_object_root`, with the time as a text.
  unfoldable pub create_object_root : Text → ConsulDb → Exec World ConsulDb
  create_object_root now db = lift (get_object_root none db.templates) >>= λ root.
      lift (get_object_dir none db.templates) >>= λ dir. λ w. elim (get_value root w) [
        | err e ↦ (err e, w)
        | ok (some text) ↦ create_obj_dir dir db w
        | ok none ↦ (put_checked root now >> create_obj_dir dir db) w
      ]

  -- `GenericDataBase.store`: the object, with its types converted.
  unfoldable pub check_object : Value → Fields → Result Fields
  check_object scheme obj = Base.◌>>=◌ (or_internal (M.validate obj)) λ valid.
      Base.◌>>=◌ (scheme_keys scheme) λ ks.
        if has_other ks M.fields || has_other M.fields ks
        then err data_access_internal
        else ok valid

  -- The path of an identifier.
  unfoldable pub path_of : ConsulDb → Text → Result Text
  path_of db uuid = Base.◌>>=◌ (get_object_path uuid none db.templates) λ path. ok (lower path)

  unfoldable pub store : ConsulDb → Fields → Exec World (Unit {0})
  store db obj = lift (check_object db.model_scheme obj) >>= λ valid.
      lift (path_of db (shown (attribute M.primary_key valid))) >>= λ path.
      put_checked path (J.dumps (M.to_primitive valid))

  -- `_get_all_raw`
  unfoldable pub get_all_raw : ConsulDb → World → Result (List Entry)
  get_all_raw db w =
      Base.◌>>=◌ (get_object_dir none db.templates)
        λ dir. Base.◌>>=◌ (get_all (lower dir ++ codes "/") w) λ answer. ok (or_nothing answer)

  -- The filter, where there is one.
  unfoldable pub suitable : Option Filter → List Entry → Result (List Entry)
  suitable none raw = ok raw
  suitable (some f) raw = build M J f raw

  unfoldable pub read_objects : List Entry → Result (List Fields)
  read_objects [] = ok []
  read_objects (e ∷ es) =
      Base.◌>>=◌ (read_object J M e.value) λ o. Base.◌>>=◌ (read_objects es) λ os. ok (o ∷ os)

  -- The order: that of the query, or by the primary key.
  unfoldable pub ordering_of : Option OrderBy → Result (Text × SortOrder)
  ordering_of none = ok (M.primary_key, asc)
  ordering_of (some o) = Base.◌>>=◌ (field_to_str o.by_field) λ k. ok (k, o.by_order)

  unfoldable pub ordered : Query → List Fields → Result (List Fields)
  ordered q os =
      if is_ordered q
      then Base.◌>>=◌ (ordering_of q.order_by) (λ by.
        if contains by.0 M.fields
        then sort_by by.1 (M.is_string by.0) by.0 os
        else err attribute_error)
      else ok os

  -- What is asked for of the entries that there are.
  unfoldable pub get_from : Query → List Entry → Result (List Fields)
  get_from q [] = ok []
  get_from q (e ∷ es) = Base.◌>>=◌ (suitable q.filter_by (e ∷ es)) λ kept.
      Base.◌>>=◌ (read_objects kept) λ os. Base.◌>>=◌ (ordered q os) λ sorted.
        Base.◌>>=◌ (page q.offset q.limit (length sorted))
          λ range. ok (slice range.0 range.1 sorted)

  unfoldable pub get : ConsulDb → Query → World → Result (List Fields)
  get db q w = Base.◌>>=◌ (get_all_raw db w) (get_from q)

  -- `GenericDataBase.update`: the fields must be known, and their values are converted.
  unfoldable pub convert_all : Fields → Result Fields
  convert_all end = ok end
  convert_all (field k v fs) =
      Base.◌>>=◌ (convert M k v)
        λ native. Base.◌>>=◌ (convert_all fs) λ rest. ok (field k native rest)

  unfoldable pub check_update : Value → Fields → Result Fields
  check_update scheme to_update = Base.◌>>=◌ (scheme_keys scheme) λ ks.
      if has_other (names to_update) ks then err data_access_internal else convert_all to_update

  -- The loop of `update`.
  unfoldable pub store_updated : ConsulDb → Fields → List Fields → Exec World (Unit {0})
  store_updated db changes [] = pure tt
  store_updated db changes (o ∷ os) =
      store db (set_all changes o) >> (λ w. store_updated db changes os w)

  -- Where there are no entries, the filter is not looked at.
  unfoldable pub selected : Filter → List Entry → Result (List Entry)
  selected f [] = ok []
  selected f (e ∷ es) = build M J f (e ∷ es)

  unfoldable pub update : ConsulDb → Filter → Fields → Exec World ℕ
  update db f to_update = lift (check_update db.model_scheme to_update) >>= λ changes. λ w.
      (lift (get_all_raw db w) >>= λ raw. lift (selected f raw) >>= λ kept.
      lift (read_objects kept) >>= λ os. store_updated db changes os >> pure (length os))
        w

  -- The tasks of `delete`: all are run.
  unfoldable pub delete_all : List Entry → World → List (Result Bool) × World
  delete_all [] w = ([], w)
  delete_all (e ∷ es) w =
      let (answer, w') = delete_key e.key w in
      let (answers, w'') = delete_all es w' in (answer ∷ answers, w'')

  -- `for task in done`
  unfoldable pub all_done : List (Result Bool) → Result (Unit {0})
  all_done [] = ok tt
  all_done (err e ∷ answers) = err e
  all_done (ok false ∷ answers) = err data_access_internal
  all_done (ok true ∷ answers) = all_done answers

  unfoldable pub delete : ConsulDb → Filter → Exec World ℕ
  delete db f w = elim (Base.◌>>=◌ (get_all_raw db w) (selected f)) [
    | err e ↦ (err e, w)
    | ok kept ↦
        let (answers, w') = delete_all kept w in
        (Base.◌>>=◌ (all_done answers) (λ _. ok (length kept)), w')
  ]

  unfoldable pub delete_by_id : ConsulDb → Value → Exec World (Unit {0})
  delete_by_id db id =
      lift (path_of db (shown id)) >>= delete_key >>= λ response. lift (or_external response)

  unfoldable pub count : ConsulDb → Option Filter → World → Result ℕ
  count db none w = Base.◌>>=◌ (get_all_raw db w) λ raw. ok (length raw)
  count db (some f) w =
      Base.◌>>=◌ (get_all_raw db w) λ raw. Base.◌>>=◌ (selected f raw) λ kept. ok (length kept)

  -- The filter of `get_by_id` and `update_by_id`: the primary key is the identifier, converted.
  unfoldable pub by_id : Value → Result Filter
  by_id id =
      Base.◌>>=◌ (convert M M.primary_key id)
        λ native. ok (filter_compare (name M.primary_key) operation_eq native)

  -- `result.pop()`
  unfoldable pub last_of : List Fields → Option Fields
  last_of [] = none
  last_of (o ∷ []) = some o
  last_of (o ∷ p ∷ os) = last_of (p ∷ os)

  unfoldable pub get_by_id : ConsulDb → Value → World → Result (Option Fields)
  get_by_id db id w =
      Base.◌>>=◌ (by_id id)
        λ f. Base.◌>>=◌ (get db (set_filter_by f new_query) w) λ found. ok (last_of found)

  unfoldable pub update_by_id : ConsulDb → Value → Fields → Exec World Bool
  update_by_id db id to_update =
      lift (by_id id) >>= λ f. update db f to_update >>= λ n. pure (ltb 0 n)
