-- ===== src/KvStore/Laws.antt =====
-- What a store reads back, over any backend that keeps what it is given.
use cortx_utils.Base.{
  Text, true, [], ◌∷◌, ◌≡◌, refl, ◌∙◌, Result, Error, ok, err, Result-cases, inl, inr,
}
use cortx_utils.Base.Exec.{continue}
use cortx_utils.Value.{Value}
use cortx_utils.Payload
use cortx_utils.Payload.{KvPayload}
use cortx_utils.Payload.Laws.{IsReadableKey, get-set}
use cortx_utils.KvStore.{Backend, IsFaithful, get, set, set_data, set_each, get_each}

-- `get` reads the data and the delimiter alone.
pub get_by_node :
    (key : Text) (p q : KvPayload)
    → q.node ≡ p.node
    → q.delim ≡ p.delim
    → Payload.get key true q ≡ Payload.get key true p
unfolding Payload.get
get_by_node key p q same_node same_delim = rw (same_node, same_delim)

pub delim-set : (key : Text) (v : Value) (p : KvPayload) → (Payload.set key v p).1.delim ≡ p.delim
unfolding Payload.set
delim-set key v p = refl

module _ (B : Backend) (F : IsFaithful B) (url : Text) (w : B.World) where
  -- The payload that a call loads and the world that loading leaves.
  abbrev pub loaded : Result KvPayload
  loaded = (B.load url true w).0

  abbrev pub after_load : B.World
  after_load = (B.load url true w).1

  pub set_one_raises :
      (key : Text) (v : Value) (p : KvPayload) (e : Error)
      → loaded ≡ ok p
      → (Payload.set key v p).0 ≡ err e
      → (set B url (key ∷ []) (v ∷ []) w).0 ≡ err e
  unfolding set set_each
  set_one_raises key v p e load_ok raised = rw (load_ok, continue) (rw (raised, continue))

  set_one_dumps :
      (key : Text) (v : Value) (p : KvPayload) {u : Unit {0}}
      → loaded ≡ ok p
      → (Payload.set key v p).0 ≡ ok u
      → set B url (key ∷ []) (v ∷ []) w ≡ B.dump url (Payload.set key v p).1 after_load
  unfolding set set_each
  set_one_dumps key v p load_ok written = rw (load_ok, continue) (rw (written, continue))

  get_one :
      (key : Text) (v : Value) (q : KvPayload) (u : B.World)
      → (B.load url true u).0 ≡ ok q
      → Payload.get key true q ≡ ok v
      → (get B url (key ∷ []) u).0 ≡ ok (v ∷ [])
  unfolding get get_each
  get_one key v q u load_ok found = rw (load_ok, continue) (rw (found, get_each))

  -- `set` of one key that returns, then `get` of it, returns the value, if the key is one that
  -- `get` accepts at the delimiter of the loaded payload, over a backend that loads
  -- what was dumped, if the store can keep the payload.
  pub get-set_one :
      (key : Text) (v : Value) (p : KvPayload)
      → loaded ≡ ok p
      → IsReadableKey p.delim key
      → F.Keeps url (Payload.set key v p).1 after_load
      → (set B url (key ∷ []) (v ∷ []) w).0 ≡ ok tt
      → (get B url (key ∷ []) (set B url (key ∷ []) (v ∷ []) w).1).0 ≡ ok (v ∷ [])
  get-set_one key v p load_ok readable keeps done = elim (Result-cases (Payload.set key v p).0) [
    | inl (u, written) ↦
        let dumped = set_one_dumps key v p load_ok written in
        let (q, again, same_node, same_delim) =
          F.load-dump url true (Payload.set key v p).1 after_load keeps (rw dumped at done) in
        rw dumped (
          get_one key v q _ again (
            get_by_node key (Payload.set key v p).1 q same_node same_delim
            ∙ get-set p key v readable written))
    | inr (e, raised) ↦ cc (set_one_raises key v p e load_ok raised)
  ]

  -- `set_data` writes back what it loaded: after a call that returns, the store loads the data that
  -- it loaded before, whatever payload was given, over a backend that loads
  -- what was dumped, if the store can keep the payload.
  pub set_data_lost :
      (p q : KvPayload)
      → loaded ≡ ok p
      → F.Keeps url p after_load
      → (set_data B url q w).0 ≡ ok tt
      → (r : KvPayload) × ((B.load url true (set_data B url q w).1).0 ≡ ok r) × (r.node ≡ p.node)
  unfolding set_data
  set_data_lost p q load_ok keeps done =
      let dumped : set_data B url q w ≡ B.dump url p after_load = rw (load_ok, continue) in
      let (r, again, same_node, _) = F.load-dump url true p after_load keeps (rw dumped at done) in
      (r, rw dumped again, same_node)
