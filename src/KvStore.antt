-- ===== src/KvStore.antt =====
-- The abstract `KvStore` (py-utils/src/utils/kv_store/kv_store.py): every method reads the whole
-- payload by `load`, works on it in memory, and writes it whole by `dump`. The two are those of a
-- subclass, which is a parameter here.
pub mod Laws
pub mod Files
pub mod Dict
use cortx_utils.Base.{
  ℕ, Text, Bool, true, false, Option, none, some, List, [], ◌∷◌, ◌++◌, Result, ok, err, kv_error,
  einval, ◌≡◌, if◌then◌else◌,
}
use cortx_utils.Base.Exec.{Exec, pure, raise, lift, ◌>>=◌, ◌>>◌}
use cortx_utils.Value.{Value}
use cortx_utils.Payload
use cortx_utils.Payload.{KvPayload}

-- What lies behind the stores: files, a dict, a server. A store is named by its URL.
pub record Backend : Type 1 where
  pub World : Type 0
  -- `KvStoreFactory.get_instance(url, delim)`
  pub connect : Text → ℕ → Exec World (Unit {0})
  -- `load(recurse=…)` and `dump(payload)` of the store.
  pub load : Text → Bool → Exec World KvPayload
  pub dump : Text → KvPayload → Exec World (Unit {0})

-- What the stores promise: a payload that a store can keep, once dumped, is loaded with the same
-- data, and to open a store that can be loaded leaves what it loads.
pub record IsFaithful (B : Backend) : Type 1 where
  -- The format of the store has the data, and the payload has the delimiter of the store.
  pub Keeps : Text → KvPayload → B.World → Type 0
  pub load-dump :
      (url : Text) (recurse : Bool) (p : KvPayload) (w : B.World)
      → Keeps url p w
      → (B.dump url p w).0 ≡ ok tt
      → (q : KvPayload) × ((B.load url recurse (B.dump url p w).1).0 ≡ ok q)
        × (q.node ≡ p.node)
        × (q.delim ≡ p.delim)
  pub load-connect :
      (url : Text) (delim : ℕ) (recurse : Bool) (q : KvPayload) (w : B.World)
      → (B.load url recurse w).0 ≡ ok q
      → (B.connect url delim w).0 ≡ ok tt
      → (B.load url recurse (B.connect url delim w).1).0 ≡ ok q

-- `for key, val in zip(keys, vals): payload.set(key, val)`: the payload is dropped if one raises.
unfoldable pub set_each : List Text → List Value → KvPayload → Result KvPayload
set_each (k ∷ ks) (v ∷ vs) p =
    let (r, q) = Payload.set k v p in
    let rest = set_each ks vs q in elim r [ ok _ ↦ rest | err e ↦ err e ]
set_each _ _ p = ok p

unfoldable pub delete_each : List Text → KvPayload → Result KvPayload
delete_each [] p = ok p
delete_each (k ∷ ks) p =
    let (r, q) = Payload.delete k false p in
    let rest = delete_each ks q in elim r [ ok _ ↦ rest | err e ↦ err e ]

unfoldable pub get_each : List Text → KvPayload → Result (List Value)
get_each [] p = ok []
get_each (k ∷ ks) p =
    let rest = get_each ks p in
    elim (Payload.get k true p) [
      | ok v ↦ elim rest [ ok vs ↦ ok (v ∷ vs) | err e ↦ err e ]
      | err e ↦ err e
    ]

-- `len(keys) != len(vals)`
same_length : List Text → List Value → Bool
same_length [] [] = true
same_length (k ∷ ks) (v ∷ vs) = same_length ks vs
same_length _ _ = false

module _ (B : Backend) (url : Text) where
  open B use {World, load, dump}

  unfoldable pub get : List Text → Exec World (List Value)
  get keys = do p ← load url true; lift (get_each keys p)

  unfoldable pub set : List Text → List Value → Exec World (Unit {0})
  unfolding same_length
  set keys vals =
      if same_length keys vals
      then (do p ← load url true; q ← lift (set_each keys vals p); dump url q)
      else raise (kv_error einval)

  unfoldable pub delete : List Text → Exec World (Unit {0})
  delete keys = do p ← load url true; q ← lift (delete_each keys p); dump url q

  unfoldable pub search : Text → Text → Option Text → Exec World (List Text)
  search parent_key search_key search_val = do
    p ← load url true
    lift (Payload.search_keys parent_key search_key search_val p)

  unfoldable pub add_num_keys : Exec World (Unit {0})
  add_num_keys = do p ← load url true; dump url (Payload.add_num_keys p)

  -- The `filter` that the code returns, with its elements.
  unfoldable pub get_keys : Text → Exec World (List Text)
  get_keys key_prefix = do
    p ← load url true
    pure (Payload.filter_prefix key_prefix (Payload.get_keys [] true p))

  -- The call of `set` stands in a `map` that is never run, so the loaded payload is dumped again.
  -- The keys of the given payload are computed, with no effect.
  unfoldable pub set_data : KvPayload → Exec World (Unit {0})
  set_data payload = do p ← load url true; dump url p
