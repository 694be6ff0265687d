-- ===== src/KvStore/Dict.antt =====
-- `DictKvStore` and `JsonMessageKvStore` (py-utils/src/utils/kv_store/kv_store_collection.py): the URL
-- holds the data as a JSON text, until a payload is dumped, which leaves the dict in its place.
use cortx_utils.Base.{
  ℕ, Text, Bool, Option, none, some, [], ◌∷◌, Result, ok, err, kv_error, einval, type_error,
}
use cortx_utils.Base.Exec.{Exec}
use cortx_utils.Value.{Value}
use cortx_utils.Payload
use cortx_utils.Payload.{KvPayload}
use cortx_utils.KvStore.Files.{given}

-- `_store_path`
pub data Held : Type 0 where
  text : Text → Held
  loaded : Value → Held

-- `load`: `json.loads` takes a text, and raises a `TypeError` for what a dump left.
unfoldable pub load : (Text → Option Value) → ℕ → Bool → Held → Result KvPayload
load loads delim recurse (text t) = elim (loads t) [
  | none ↦ err (kv_error einval)
  | some v ↦ Payload.init (given v) (delim ∷ []) recurse
]
load loads delim recurse (loaded v) = err type_error

unfoldable pub dump : KvPayload → Exec Held (Unit {0})
dump p held = (ok tt, loaded p.node)
