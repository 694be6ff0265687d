-- ===== src/Payload.antt =====
-- `KvPayload` (py-utils/src/utils/kv_store/kv_payload.py): the object and its public methods. The
-- recursive helpers are in the modules below.
pub mod Read
pub mod Write
pub mod Delete
pub mod Enumerate
pub mod Search
pub mod Counts
pub mod Laws
pub mod Listing
use cortx_utils.Base.{
  ℕ, Text, Bool, true, false, Option, none, some, List, [], ◌∷◌, contains, starts_with, ◌==◌,
  if◌then◌else◌, Result, ok, err, kv_error, value_error, einval, ◌>>=◌, ◌++◌, ◌||◌,
}
use cortx_utils.Key.{split, is_empty}
use cortx_utils.Value.{Value, dict, end}
use Read.{get_path, shallow_get_path}
use Write.{set_path}
use Delete.{delete_path}
use Enumerate.{keys_of, shallow_keys_of, add_new}
use Search.{search_at}
use Counts.{with_num_keys}

pub record KvPayload : Type 0 where
  pub node : Value
  pub delim : ℕ
  pub keys : List (Option Text)

-- The keys as the list that may hold `None`.
abbrev labels : List Text → List (Option Text)
labels [] = []
labels (k ∷ ks) = some k ∷ labels ks

listed : Text → List (Option Text) → Bool
listed k [] = false
listed k (none ∷ ks) = listed k ks
listed k (some j ∷ ks) = k == j || listed k ks

-- `del keys[keys.index(key)]`
erase_first : Text → List (Option Text) → List (Option Text)
erase_first k [] = []
erase_first k (none ∷ ks) = none ∷ erase_first k ks
erase_first k (some j ∷ ks) = if k == j then ks else some j ∷ erase_first k ks

-- `data if data is not None else {}`
or_new : Option Value → Value
or_new none = dict end
or_new (some v) = v

-- `__init__`, with a delimiter of at most one character: the empty one is accepted, and makes
-- every later `split` raise a `ValueError`, which the model raises at once.
unfoldable pub init : Option Value → Text → Bool → Result KvPayload
unfolding or_new
init v (d ∷ []) true =
    let node = or_new v in
    ok (record { node = node; delim = d; keys = labels (keys_of d true [] node none) })
init v (d ∷ []) false = do
  keys ← shallow_keys_of d true (or_new v) none
  ok (record { node = or_new v; delim = d; keys = keys })
init v (d ∷ d' ∷ ds) recurse = err (kv_error einval)
init v [] recurse = err value_error

-- `get`
unfoldable pub get : Text → Bool → KvPayload → Result Value
get key recurse p =
    let (k, ks) = split p.delim key in
    if recurse then get_path k ks p.node else shallow_get_path k ks p.node

-- The keys after a write: the key is noted only if the write did not raise.
unfoldable pub note : Text → Result (Unit {0}) → List (Option Text) → List (Option Text)
unfolding listed
note key (ok _) keys = if listed key keys then keys else keys ++ (some key ∷ [])
note key (err _) keys = keys

-- `set`
unfoldable pub set : Text → Value → KvPayload → Result (Unit {0}) × KvPayload
unfolding note
set key val p =
    let (k, ks) = split p.delim key in
    let (r, node) = set_path k ks val p.node in
    (r, record p { node = node; keys = note key r p.keys })

-- The keys after a deletion.
unfoldable pub forget : Text → Result Bool → List (Option Text) → List (Option Text)
unfolding erase_first
forget key (ok true) keys = erase_first key keys
forget key _ keys = keys

-- `delete`
unfoldable pub delete : Text → Bool → KvPayload → Result Bool × KvPayload
delete key force p =
    let (k, ks) = split p.delim key in
    let (r, node) = delete_path k ks force p.node in
    (r, record p { node = node; keys = forget key r p.keys })

unfoldable pub filter_prefix : Text → List Text → List Text
filter_prefix prefix [] = []
filter_prefix prefix (k ∷ ks) =
    if starts_with k prefix then k ∷ filter_prefix prefix ks else filter_prefix prefix ks

-- `get_keys` with `recurse=True`
unfoldable pub get_keys : Text → Bool → KvPayload → List Text
unfolding filter_prefix
get_keys prefix key_index p =
    let keys = keys_of p.delim key_index [] p.node none in
    if is_empty prefix then keys else filter_prefix prefix keys

-- `search`: a parent key that cannot be read raises.
unfoldable pub search_keys : Text → Text → Option Text → KvPayload → Result (List Text)
search_keys parent_key search_key search_val p = do
  node ← get parent_key true p
  ok (search_at p.delim search_key search_val node parent_key)

-- `add_num_keys`: `_keys` is left as it was.
unfoldable pub add_num_keys : KvPayload → KvPayload
add_num_keys p = record p { node = with_num_keys p.node }
