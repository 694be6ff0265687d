-- ===== src/Conf/Durability.antt =====
-- `save`: what was set is there after the index is loaded again, and a saved index is not written.
use cortx_utils.Base.{
  Text, true, false, some, [], ◌∷◌, ◌≡◌, refl, ap, ◌∙◌, arith, ok, find, store, find-store_self,
  store_self, Option-cases, Bool-cases, Result-cases, inl, inr,
}
use cortx_utils.Base.Exec.{continue}
use cortx_utils.Value.{Value}
use cortx_utils.Payload
use cortx_utils.Payload.{KvPayload}
use cortx_utils.Payload.Laws.{IsReadableKey, get-set}
use cortx_utils.KvStore.{Backend, IsFaithful}
use cortx_utils.KvStore.Laws.{get_by_node}
use cortx_utils.Conf.{
  ConfStore, fail_reload, read_args, is_loaded, read_store, load, save, get, set, or_default,
}
use cortx_utils.Conf.Laws.{set_loaded, get_loaded}
use cortx_utils.Conf.Cache
use cortx_utils.Conf.Cache.{ConfCache, dirty_after, still_dirty}

module _ (B : Backend) where
  -- `save` where the index is loaded with changes, and the store takes them.
  pub save_dirty :
      (index : Text) (s : ConfStore) (w : B.World) (c : ConfCache)
      → find index s.cache ≡ some c
      → c.dirty ≡ true
      → (save B index (s, w)).0 ≡ ok tt
      → ((B.dump c.url c.payload w).0 ≡ ok tt)
        × (save B index (s, w) ≡ (
          ok tt,
          (
            record s { cache = store index (record c { dirty = false }) s.cache },
            (B.dump c.url c.payload w).1,
          ),
        ))
  unfolding save Cache.dump still_dirty
  save_dirty index s w c found changed done = elim (Result-cases (B.dump c.url c.payload w).0) [
    | inl (u, dumped) ↦ (dumped, rw (found, save) (rw changed (rw (dumped, still_dirty))))
    | inr (e, raised) ↦ absurd (ground arith)
  ]

  dump_clean : (c : ConfCache) (w : B.World) → c.dirty ≡ false → Cache.dump B c w ≡ (ok tt, c, w)
  unfolding Cache.dump
  dump_clean c w clean = ground arith

  -- `save` where the index is loaded and clean.
  save_clean :
      (index : Text) (s : ConfStore) (w : B.World) (c : ConfCache)
      → find index s.cache ≡ some c
      → c.dirty ≡ false
      → save B index (s, w) ≡ (ok tt, (s, w))
  unfolding save
  save_clean index s w c found clean =
      rw (found, save) (rw (dump_clean c w clean) (rw (store_self index c s.cache found)))

  -- A `save` that returns leaves the index clean: the next one returns, and writes nothing.
  pub save-save :
      (index : Text) (s : ConfStore) (w : B.World)
      → (save B index (s, w)).0 ≡ ok tt
      → save B index (save B index (s, w)).1 ≡ (ok tt, (save B index (s, w)).1)
  save-save index s w done = elim (Option-cases (find index s.cache)) [
    | inl missing ↦ absurd (unfold save in ground arith)
    | inr (c, found) ↦ elim (Bool-cases c.dirty) [
      | inl changed ↦
          let (_, step) = save_dirty index s w c found changed done in
          rw step (save_clean index _ _ _ (find-store_self index _ s.cache) refl)
      | inr clean ↦
          let step = save_clean index s w c found clean in
          rw step (save_clean index s w c found clean)
    ]
  ]

  -- `load` that may replace what is loaded reads the store.
  load_again :
      (index url : Text) (s : ConfStore) (w : B.World)
      → load B index url (fail_reload false ∷ []) (s, w) ≡ read_store B index url true (s, w)
  unfolding load read_args
  load_again index url s w = elim (Bool-cases (is_loaded index s)) [
    | inl present ↦ rw present
    | inr absent ↦ rw absent
  ]

  -- `read_store` that returns, in a world in which the store loads.
  read_store_loads :
      (F : IsFaithful B) (index url : Text) (s : ConfStore) (w : B.World) (q : KvPayload)
      → (B.load url true w).0 ≡ ok q
      → (read_store B index url true (s, w)).0 ≡ ok tt
      → (read_store B index url true (s, w)).1.0.cache
        ≡ store index (record { payload = q; dirty = false; url = url; recurse = true }) s.cache
  unfolding read_store Cache.init
  read_store_loads F index url s w q loads done = elim (Result-cases (B.connect url s.delim w).0) [
    | inr (e, raised) ↦ absurd (ground arith)
    | inl (u, connected) ↦
        let again = F.load-connect url s.delim true q w loads connected in
        rw (connected, continue, read_store) (rw (again, continue, read_store))
  ]

  -- Over a backend that loads what was dumped, where the store can keep the changed payload: if `set`, `save` and then `load` of the URL of the
  -- index, with `fail_reload` false, return, then `get` of the key, if it is one that `get`
  -- accepts, returns the value that was set, or the default if that is `None`.
  pub get-load :
      (F : IsFaithful B) (index key : Text) (val default : Value)
      → (s : ConfStore) (w : B.World) (c : ConfCache) → find index s.cache ≡ some c
      → IsReadableKey c.payload.delim key
      → F.Keeps c.url (Payload.set key val c.payload).1 w
      → (set index key val s).0 ≡ ok tt
      → (save B index ((set index key val s).1, w)).0 ≡ ok tt
      → (load B index c.url
          (fail_reload false ∷ [])
          (save B index ((set index key val s).1, w)).1).0
        ≡ ok tt
      → get index
          (some key)
          default
          true
          (load B index c.url
            (fail_reload false ∷ [])
            (save B index ((set index key val s).1, w)).1).1.0
        ≡ ok (or_default default val)
  unfolding Cache.set dirty_after
  get-load F index key val default s w c found readable keeps was_set saved loaded =
      let step = set_loaded index key val s c found in
      let written : (Payload.set key val c.payload).0 ≡ ok tt = rw step at was_set in
      let c' = (Cache.set key val c).1 in
      let changed : c'.dirty ≡ true = rw (written, dirty_after) in
      let s' : ConfStore = record s { cache = store index c' s.cache } in
      let (dumped, save_step) =
        save_dirty index s' w c' (find-store_self index c' s.cache) changed (rw step at saved) in
      let (q, loads, same_node, same_delim) = F.load-dump c.url true c'.payload w keeps dumped in
      let loaded' = rw (load_again index c.url _ _) at (rw save_step at (rw step at loaded)) in
      let reload : ConfCache = record { payload = q; dirty = false; url = c.url; recurse = true } in
      let replaced = read_store_loads F index c.url _ _ q loads loaded' in
      rw step (
        rw save_step (
          rw (load_again index c.url _ _) (
            get_loaded index key default _ reload val
              (ap (find index) replaced ∙ find-store_self index reload _)
              (get_by_node key c'.payload q same_node same_delim
                ∙ get-set c.payload key val readable written))))
