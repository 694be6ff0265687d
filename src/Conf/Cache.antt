-- ===== src/Conf/Cache.antt =====
-- `ConfCache` (py-utils/src/utils/conf_store/conf_cache.py): a payload in memory, and whether it
-- was changed since it was loaded.
use cortx_utils.Base.{
  Text, Bool, true, false, Option, List, [], Result, ok, err, exception, if◌then◌else◌,
}
use cortx_utils.Base.Exec.{Exec, pure, raise, ◌>>=◌}
use cortx_utils.Value.{Value}
use cortx_utils.Payload
use cortx_utils.Payload.{KvPayload}
use cortx_utils.KvStore.{Backend}

pub record ConfCache : Type 0 where
  pub payload : KvPayload
  pub dirty : Bool
  pub url : Text
  pub recurse : Bool

-- The flag after a call: set where the call did not raise.
unfoldable pub dirty_after {ℓ} : {A : Type ℓ} → Result A → Bool → Bool
dirty_after (ok a) dirty = true
dirty_after (err e) dirty = dirty

-- The flag after a dump, which is reset unless the dump raised.
unfoldable pub still_dirty : Result (Unit {0}) → Bool
still_dirty (ok _) = false
still_dirty (err e) = true

-- `get_keys(key_index=…)`; the other filters keep their defaults.
unfoldable pub get_keys : Bool → ConfCache → List Text
get_keys key_index c = Payload.get_keys [] key_index c.payload

unfoldable pub get : Text → Bool → ConfCache → Result Value
get key recurse c = Payload.get key recurse c.payload

unfoldable pub set : Text → Value → Exec ConfCache (Unit {0})
set key val c =
    let (r, p) = Payload.set key val c.payload in
    (r, record c { payload = p; dirty = dirty_after r c.dirty })

unfoldable pub delete : Text → Bool → Exec ConfCache Bool
delete key force c =
    let (r, p) = Payload.delete key force c.payload in
    (r, record c { payload = p; dirty = dirty_after r c.dirty })

unfoldable pub add_num_keys : ConfCache → ConfCache
add_num_keys c = record c { payload = Payload.add_num_keys c.payload; dirty = true }

unfoldable pub search : Text → Text → Option Text → ConfCache → Result (List Text)
search parent_key search_key search_val c =
    Payload.search_keys parent_key search_key search_val c.payload

module _ (B : Backend) where
  -- `load` of a cache: refused while there are changes that were not dumped.
  unfoldable pub load : ConfCache → Exec B.World ConfCache
  load c =
      if c.dirty
      then raise exception
      else (do p ← B.load c.url c.recurse; pure (record c { payload = p }))

  -- `__init__`, which ends with `load`; the flag is not set there.
  unfoldable pub init : Text → Bool → Exec B.World ConfCache
  init url recurse = do
    p ← B.load url recurse
    pure (record { payload = p; dirty = false; url = url; recurse = recurse })

  -- `dump`: the store is written only if something changed.
  unfoldable pub dump : ConfCache → B.World → Result (Unit {0}) × ConfCache × B.World
  dump c w =
      let (r, w') = B.dump c.url c.payload w in
      if c.dirty then (r, record c { dirty = still_dirty r }, w') else (ok tt, c, w)
