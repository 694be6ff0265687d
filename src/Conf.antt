-- ===== src/Conf.antt =====
-- `ConfStore` (py-utils/src/utils/conf_store/conf_store.py): configurations by their index, each a
-- `ConfCache` over a store of the backend.
pub mod Cache
pub mod Lock
pub mod Laws
pub mod Loading
pub mod Copying
pub mod Durability
pub mod Mapped
pub mod Singleton
use cortx_utils.Base.{
  ℕ, Text, Bool, true, false, not, ◌&&◌, Option, none, some, List, [], ◌∷◌, ◌++◌, Result, ok, err,
  kv_error, conf_error, einval, enoent, not_initialized, key_error, Error, Assoc, find, store,
  contains, codes, ◌=ℕ◌, ◌||◌, if◌then◌else◌,
}
use cortx_utils.Base.Exec.{Exec, pure, raise, lift, ◌>>=◌, ◌>>◌}
use cortx_utils.Value.{Value, null}
use cortx_utils.Value.Compare.{value_eq, is_truthy}
use cortx_utils.Payload.{KvPayload}
use cortx_utils.KvStore.{Backend}
use Cache.{ConfCache}
use Cache

pub record ConfStore : Type 0 where
  pub delim : ℕ
  pub cache : Assoc ConfCache
  -- A callback is an object that the code keeps and never calls.
  pub callbacks : Assoc ℕ
  pub lock_owner : Value

-- The delimiters that `__init__` accepts.
abbrev delims : Text
delims = codes ":>.|;/"

one_of : ℕ → Text → Bool
one_of c [] = false
one_of c (d ∷ ds) = c =ℕ d || one_of c ds

-- `__init__`; the machine id is the text of `/etc/machine-id`, or `None`.
unfoldable pub init : Text → Value → Result ConfStore
unfolding one_of
init (d ∷ []) machine_id =
    if one_of d delims
    then ok (record { delim = d; cache = []; callbacks = []; lock_owner = machine_id })
    else err (conf_error einval)
init _ machine_id = err (conf_error einval)

-- The keyword arguments of `load`, in the order of the call; `recurse` is `none` where the value is
-- neither `True` nor `False`.
pub data LoadArg : Type 0 where
  fail_reload skip_reload : Bool → LoadArg
  callback : ℕ → LoadArg
  recurse : Option Bool → LoadArg
  unknown : Text → LoadArg

pub record LoadOptions : Type 0 where
  pub fail : Bool
  pub skip : Bool
  pub deep : Bool

abbrev pub defaults : LoadOptions
defaults = record { fail = true; skip = false; deep = true }

-- The loop over `kwargs`: a callback that stands before a bad argument is kept.
unfoldable pub read_args : Text → List LoadArg → LoadOptions → Exec (Assoc ℕ) LoadOptions
read_args index [] o = pure o
read_args index (fail_reload b ∷ args) o = read_args index args (record o { fail = b })
read_args index (skip_reload b ∷ args) o = read_args index args (record o { skip = b })
read_args index (callback f ∷ args) o = λ cs. read_args index args o (store index f cs)
read_args index (recurse (some b) ∷ args) o = read_args index args (record o { deep = b })
read_args index (recurse none ∷ args) o = raise (conf_error einval)
read_args index (unknown key ∷ args) o = raise (conf_error einval)

unfoldable pub is_loaded : Text → ConfStore → Bool
is_loaded index s = elim (find index s.cache) [ none ↦ false | some c ↦ true ]

-- The cache of an index, or the error that a missing one gives.
unfoldable pub cached : Error → Text → ConfStore → Result ConfCache
cached e index s = elim (find index s.cache) [ none ↦ err e | some c ↦ ok c ]

-- A method of the cache of an index.
unfoldable pub on_cache : {A : Type 0} → Text → Exec ConfCache A → Exec ConfStore A
on_cache index f s = elim (find index s.cache) [
  | none ↦ (err (conf_error einval), s)
  | some c ↦ let (r, c') = f c in (r, record s { cache = store index c' s.cache })
]

module _ (B : Backend) where
  abbrev pub State : Type 0
  State = ConfStore × B.World

  -- The end of `load`: the store is opened and read, and the index gets a new cache.
  unfoldable pub read_store : Text → Text → Bool → Exec State (Unit {0})
  read_store index url deep (s, w) =
      let (r, w') = (do B.connect url s.delim; Cache.init B url deep) w in
      elim r [
        | ok c ↦ (ok tt, (record s { cache = store index c s.cache }, w'))
        | err e ↦ (err e, (s, w'))
      ]

  unfoldable pub load : Text → Text → List LoadArg → Exec State (Unit {0})
  unfolding is_loaded
  load index url args (s, w) =
      let (r, callbacks) = read_args index args defaults s.callbacks in
      let s' : ConfStore = record s { callbacks = callbacks } in
      elim r [
        | err e ↦ (err e, (s', w))
        | ok o ↦
            if is_loaded index s && o.skip
            then (ok tt, (s', w))
            else if is_loaded index s && o.fail
            then (err (conf_error einval), (s', w))
            else read_store index url o.deep (s', w)
      ]

  unfoldable pub save : Text → Exec State (Unit {0})
  save index (s, w) = elim (find index s.cache) [
    | none ↦ (err (conf_error einval), (s, w))
    | some c ↦
        let (r, c', w') = Cache.dump B c w in (r, (record s { cache = store index c' s.cache }, w'))
  ]

-- `default_val if val is None else val`
unfoldable pub or_default : Value → Value → Value
or_default default null = default
or_default default v = v

-- `get(index, key, default_val, recurse=…)`
unfoldable pub get : Text → Option Text → Value → Bool → ConfStore → Result Value
unfolding cached or_default
get index key default deep s = elim (cached (conf_error einval) index s) [
  | err e ↦ err e
  | ok c ↦ elim key [
    | none ↦ err (conf_error einval)
    | some k ↦ elim (Cache.get k deep c) [ err e ↦ err e | ok v ↦ ok (or_default default v) ]
  ]
]

unfoldable pub set : Text → Text → Value → Exec ConfStore (Unit {0})
set index key val = on_cache index (Cache.set key val)

unfoldable pub delete : Text → Text → Bool → Exec ConfStore Bool
delete index key force = on_cache index (Cache.delete key force)

-- `get_keys`, `search` and `add_num_keys` do not check the index: a missing one is a `KeyError`.
unfoldable pub get_keys : Text → Bool → ConfStore → Result (List Text)
get_keys index key_index s = elim (cached key_error index s) [
  | err e ↦ err e
  | ok c ↦ ok (Cache.get_keys key_index c)
]

unfoldable pub search : Text → Text → Text → Option Text → ConfStore → Result (List Text)
search index parent_key search_key search_val s = elim (cached key_error index s) [
  | err e ↦ err e
  | ok c ↦ Cache.search parent_key search_key search_val c
]

unfoldable pub add_num_keys : Text → Exec ConfStore (Unit {0})
add_num_keys index s = elim (find index s.cache) [
  | none ↦ (err key_error, s)
  | some c ↦ (ok tt, record s { cache = store index (Cache.add_num_keys c) s.cache })
]

unfoldable pub get_data : Text → ConfStore → Result KvPayload
get_data index s = elim (cached (conf_error einval) index s) [ err e ↦ err e | ok c ↦ ok c.payload ]
