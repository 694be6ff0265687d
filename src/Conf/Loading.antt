-- ===== src/Conf/Loading.antt =====
-- Which indices are loaded after a `load`.
use cortx_utils.Base.{
  Text, Bool, true, false, ◌==◌, ◌||◌, none, ◌≢◌, ◌⊎◌, eq_iff, some, List, Assoc, ◌≡◌, arith, ok,
  find, store, find-store, Result-cases, inl, inr,
}
use cortx_utils.Base.Exec.{◌>>◌}
use cortx_utils.KvStore.{Backend}
use cortx_utils.Conf.{ConfStore, LoadArg, defaults, read_args, is_loaded, load, read_store}
use cortx_utils.Conf.Cache
use cortx_utils.Conf.Cache.{ConfCache}

-- A new cache for an index leaves every other index loaded.
is_loaded-store :
    (index other : Text) (c : ConfCache) (m : Assoc ConfCache)
    → (index == other || elim (find other m) [ none ↦ false | some d ↦ true ])
      ≡ (elim (find other (store index c m)) [ none ↦ false | some d ↦ true ])
is_loaded-store index other c m = ground (arith, find-store index other c m)

module _ (B : Backend) where
  -- What `read_store` makes of the store that it opened.
  read_store_loaded :
      (index other url : Text) (deep : Bool) (s : ConfStore) (w : B.World)
      → (((read_store B index url deep (s, w)).0 ≡ ok tt)
          × (is_loaded other (read_store B index url deep (s, w)).1.0
              ≡ (index == other || is_loaded other s)))
        ⊎ (((read_store B index url deep (s, w)).0 ≢ ok tt)
            × ((read_store B index url deep (s, w)).1.0 ≡ s))
  unfolding read_store is_loaded
  read_store_loaded index other url deep s w =
      elim (Result-cases ((do B.connect url s.delim; Cache.init B url deep) w).0) [
        | inl (c, opened) ↦
            inl (ground arith, ground (arith, is_loaded-store index other c s.cache))
        | inr (e, raised) ↦ inr (λ done. ground arith, ground arith)
      ]

  -- A `load` leaves what was loaded, and where it returns its index is.
  pub load_loaded :
      (index other url : Text) (args : List LoadArg) (s : ConfStore) (w : B.World)
      → ((load B index url args (s, w)).0 ≡ ok tt
          → is_loaded index (load B index url args (s, w)).1.0 ≡ true)
        × (is_loaded other s ≡ true → is_loaded other (load B index url args (s, w)).1.0 ≡ true)
  unfolding load is_loaded
  load_loaded index other url args s w =
      let (r, callbacks) = read_args index args defaults s.callbacks in
      let s' : ConfStore = record s { callbacks = callbacks } in
      elim (Result-cases r) [
        | inr (e, raised) ↦ (λ done. ground arith, λ there. ground arith)
        | inl (o, parsed) ↦ (
          λ done. ground (arith, eq_iff index index, read_store_loaded index index url o.deep s' w),
          λ there. ground (arith, read_store_loaded index other url o.deep s' w),
        )
      ]
