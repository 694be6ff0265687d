-- ===== src/Conf/Laws.antt =====
-- `get` after `set` on one index, other indices, and when `load` replaces a cache.
use cortx_utils.Base.{
  Text, Bool, true, ◌||◌, some, List, ◌≡◌, ◌≢◌, arith, ok, err, conf_error, einval, find, store,
  find-store_self, find-store_ne, Option-cases, inl, inr, if◌then◌else◌,
}
use cortx_utils.Base.Exec.{Exec}
use cortx_utils.Value.{Value}
use cortx_utils.Payload
use cortx_utils.Payload.{KvPayload}
use cortx_utils.Payload.Laws.{IsReadableKey, get-set}
use cortx_utils.KvStore.{Backend}
use cortx_utils.Conf.{
  ConfStore, LoadArg, LoadOptions, defaults, read_args, is_loaded, load, get, set, delete, on_cache,
  cached, or_default,
}
use cortx_utils.Conf.Cache
use cortx_utils.Conf.Cache.{ConfCache}

-- `set` where the index is loaded.
pub set_loaded :
    (index key : Text) (val : Value) (s : ConfStore) (c : ConfCache)
    → find index s.cache ≡ some c
    → set index key val s
      ≡ ((Cache.set key val c).0, record s { cache = store index (Cache.set key val c).1 s.cache })
unfolding set on_cache
set_loaded index key val s c found = rw (found, on_cache)

pub get_loaded :
    (index key : Text) (default : Value) (s : ConfStore) (c : ConfCache) (v : Value)
    → find index s.cache ≡ some c
    → Payload.get key true c.payload ≡ ok v
    → get index (some key) default true s ≡ ok (or_default default v)
unfolding get cached Cache.get
get_loaded index key default s c v found value = rw (found, get) (rw (value, get))

-- On a loaded index, if `set` does not raise and the key is one that `get` accepts, then `get`
-- returns the value that was set, or the default if that value is `None`.
pub conf_get-set :
    (index key : Text) (val default : Value) (s : ConfStore) (c : ConfCache)
    → find index s.cache ≡ some c
    → IsReadableKey c.payload.delim key
    → (set index key val s).0 ≡ ok tt
    → get index (some key) default true (set index key val s).1 ≡ ok (or_default default val)
unfolding Cache.set
conf_get-set index key val default s c found readable done =
    let step = set_loaded index key val s c found in
    rw step (
      get_loaded index key default _ _ val (find-store_self index _ s.cache)
        (get-set c.payload key val readable (rw step at done)))

on_cache_other :
    {A : Type 0} (index other : Text) (f : Exec ConfCache A) (s : ConfStore)
    → index ≢ other
    → find other (on_cache index f s).1.cache ≡ find other s.cache
unfolding on_cache
on_cache_other index other f s ne = elim (Option-cases (find index s.cache)) [
  | inl missing ↦ rw (missing, on_cache)
  | inr (c, found) ↦ rw (found, on_cache) (find-store_ne index other (f c).1 s.cache ne)
]

-- Changing one index, by `set` or by `delete`, with or without an exception, leaves the cache of
-- every other index.
pub find_other-set-delete :
    (index other key : Text) (val : Value) (force : Bool) (s : ConfStore)
    → index ≢ other
    → (find other (set index key val s).1.cache ≡ find other s.cache)
      × (find other (delete index key force s).1.cache ≡ find other s.cache)
unfolding set delete
find_other-set-delete index other key val force s ne = (
  on_cache_other index other (Cache.set key val) s ne,
  on_cache_other index other (Cache.delete key force) s ne,
)

module _ (B : Backend) where
  -- If the index is loaded, the arguments are accepted, and the configuration is not to be replaced, since `skip_reload` is true
  -- or `fail_reload` is, then `load` leaves the caches and the stores; it returns if `skip_reload`
  -- is true and raises `ConfError` with `EINVAL` if it is false.
  pub load_guarded :
      (index url : Text) (args : List LoadArg) (s : ConfStore) (w : B.World) (o : LoadOptions)
      → is_loaded index s ≡ true
      → (read_args index args defaults s.callbacks).0 ≡ ok o
      → (o.skip || o.fail) ≡ true
      → ((load B index url args (s, w)).0 ≡ (if o.skip then ok tt else err (conf_error einval)))
        × ((load B index url args (s, w)).1.0.cache ≡ s.cache)
        × ((load B index url args (s, w)).1.1 ≡ w)
  unfolding load
  load_guarded index url args s w o present parsed guarded = ground arith
