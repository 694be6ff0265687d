-- ===== src/Conf/Mapped/Laws.antt =====
-- `MappedConf`: opening it twice, and what is read after a write.
use cortx_utils.Base.{
  Text, true, some, ◌≡◌, arith, ok, find, store, find-store_self, Result-cases, inl, inr,
}
use cortx_utils.Base.Exec.{continue}
use cortx_utils.Value.{Value}
use cortx_utils.Payload
use cortx_utils.Payload.Laws.{IsReadableKey, get-set}
use cortx_utils.KvStore.{Backend}
use cortx_utils.Conf
use cortx_utils.Conf.{ConfStore, is_loaded, read_args, or_default}
use cortx_utils.Conf.Laws.{set_loaded, get_loaded}
use cortx_utils.Conf.Durability.{save_dirty}
use cortx_utils.Conf.Cache
use cortx_utils.Conf.Cache.{ConfCache, dirty_after}
use cortx_utils.Conf.Mapped.{conf_idx, wrapped, init, set, get}

module _ (B : Backend) (s : ConfStore) (w : B.World) where
  -- Where the index is loaded, to open `MappedConf` again returns, and leaves the configurations
  -- and the stores as they are, whatever the URL.
  pub init_loaded :
      (conf_url : Text) → is_loaded conf_idx s ≡ true → init B conf_url (s, w) ≡ (ok tt, (s, w))
  unfolding init Conf.load read_args
  init_loaded conf_url present = rw present

  set_steps :
      (key : Text) (val : Value)
      → (set B key val (s, w)).0 ≡ ok tt
      → ((Conf.set conf_idx key val s).0 ≡ ok tt)
        × ((Conf.save B conf_idx ((Conf.set conf_idx key val s).1, w)).0 ≡ ok tt)
        × ((set B key val (s, w)).1 ≡ (Conf.save B conf_idx ((Conf.set conf_idx key val s).1, w)).1)
  unfolding set wrapped
  set_steps key val done = elim (Result-cases (Conf.set conf_idx key val s).0) [
    | inr (e, raised) ↦ absurd (ground arith)
    | inl (u, written) ↦
        elim (Result-cases (Conf.save B conf_idx ((Conf.set conf_idx key val s).1, w)).0) [
          | inr (e, raised) ↦ absurd (ground arith)
          | inl (u', saved) ↦ (written, saved, rw (written, continue))
        ]
  ]

  -- On a loaded index, if `set` of `MappedConf` returns, for a key that `get` accepts, then the
  -- payload was dumped to the URL of the index, and `get` returns the value that was set, or the
  -- default if that is `None`.
  pub mapped_get-set :
      (key : Text) (val default : Value) (c : ConfCache)
      → find conf_idx s.cache ≡ some c
      → IsReadableKey c.payload.delim key
      → (set B key val (s, w)).0 ≡ ok tt
      → ((B.dump c.url (Payload.set key val c.payload).1 w).0 ≡ ok tt)
        × ((get B key default (set B key val (s, w)).1).0 ≡ ok (or_default default val))
  unfolding get Cache.set dirty_after
  mapped_get-set key val default c found readable done =
      let (written, saved, after) = set_steps key val done in
      let step = set_loaded conf_idx key val s c found in
      let put : (Payload.set key val c.payload).0 ≡ ok tt = rw step at written in
      let c' = (Cache.set key val c).1 in
      let s' : ConfStore = record s { cache = store conf_idx c' s.cache } in
      let changed : c'.dirty ≡ true = rw (put, dirty_after) in
      let (dumped, saving) =
        save_dirty B conf_idx s' w c' (find-store_self conf_idx c' s.cache) changed
          (rw step at saved) in
      (
        dumped,
        rw after (
            rw step (
              rw saving (
                get_loaded conf_idx key default _ _ val (find-store_self conf_idx _ s'.cache)
                  (get-set c.payload key val readable put)))),
      )
