-- ===== src/Common/Cluster/Laws.antt =====
-- What `init` of `CortxConf` has loaded when it returns.
use cortx_utils.Base.{
  Text, codes, Bool, true, false, Option, some, none, List, [], ◌∷◌, ◌++◌, ◌≡◌, arith, ok, err,
  refl, Result-cases, ◌⊎◌, not, ◌&&◌, type_error, Option-cases, Bool-cases, inl, inr,
}
use cortx_utils.Value.{Value, str, null, bool, int, list, dict}
use cortx_utils.Value.Compare.{is_truthy}
use cortx_utils.KvStore.{Backend}
use cortx_utils.Conf
use cortx_utils.Conf.{LoadArg, is_loaded, fail_reload, recurse}
use cortx_utils.Conf.Loading.{load_loaded}
use cortx_utils.Conf.Singleton
use cortx_utils.Conf.Singleton.{Process, init_process, on_state}
use cortx_utils.Common.Cluster.{
  CortxConf, Setting, State, apply, reload, load_cluster_conf, load_config, load_config_at,
  get_storage_path, init, on_conf, joined, under,
}

-- What is no text is refused as the base of a path.
joined-cases :
    (v : Value) (rest : Text) → ((base : Text) × (v ≡ str base)) ⊎ (joined v rest ≡ err type_error)
joined-cases (str base) rest = inl (base, refl)
joined-cases null rest = inr refl
joined-cases (bool b) rest = inr refl
joined-cases (int n) rest = inr refl
joined-cases (list xs) rest = inr refl
joined-cases (dict fs) rest = inr refl

module _ (machine_id : Value) (B : Backend) where
  -- The singleton has the index loaded.
  abbrev pub has : Text → Process machine_id B → Bool
  has index p = elim p.0.conf [ none ↦ false | some s ↦ is_loaded index s ]

  init_process_keeps :
      (other : Text) (p : Process machine_id B)
      → has other p ≡ true
      → has other (init_process machine_id B p).1 ≡ true
  unfolding init_process Singleton.init
  init_process_keeps other p there = ground arith

  has-on_state :
      (index other url : Text) (args : List LoadArg) (p : Process machine_id B)
      → ((on_state machine_id B (Conf.load B index url args) p).0 ≡ ok tt
          → has index (on_state machine_id B (Conf.load B index url args) p).1 ≡ true)
        × (has other p ≡ true
            → has other (on_state machine_id B (Conf.load B index url args) p).1 ≡ true)
  unfolding on_state
  has-on_state index other url args (g, w) = elim (Option-cases g.conf) [
    | inl missing ↦ (λ done. ground arith, λ there. ground arith)
    | inr (s, made) ↦
        let (opens, keeps) = load_loaded B index other url args s w in
        (λ done. ground (arith), λ there. ground (arith))
  ]

  has-load :
      (index other url : Text) (deep : Option Bool) (args : List LoadArg) (p : Process machine_id B)
      → ((Singleton.load machine_id B index url deep args p).0 ≡ ok tt
          → has index (Singleton.load machine_id B index url deep args p).1 ≡ true)
        × (has other p ≡ true
            → has other (Singleton.load machine_id B index url deep args p).1 ≡ true)
  unfolding Singleton.load
  has-load index other url deep args p =
      let p' = (init_process machine_id B p).1 in
      let (opens, keeps) = has-on_state index other url (recurse deep ∷ args) p' in
      let init_keeps = init_process_keeps other p in
      elim (Result-cases (init_process machine_id B p).0) [
        | inr (e, raised) ↦ (λ done. ground arith, λ there. ground arith)
        | inl (u, made) ↦ (λ done. ground arith, λ there. ground arith)
      ]

  has-reload :
      (index other : Text) (url : Option Text) (p : Process machine_id B)
      → ((reload machine_id B index url p).0 ≡ ok tt
          → has index (reload machine_id B index url p).1 ≡ true)
        × (has other p ≡ true → has other (reload machine_id B index url p).1 ≡ true)
  unfolding reload
  has-reload index other (some url) p =
      has-load index other url (some true) (fail_reload false ∷ []) p
  has-reload index other none p =
      let init_keeps = init_process_keeps other p in
      elim (Result-cases (init_process machine_id B p).0) [
        | inr (e, raised) ↦ (λ done. ground arith, λ there. ground arith)
        | inl (u, made) ↦ (λ done. ground arith, λ there. ground arith)
      ]

  pub get_keeps :
      (index : Text) (key : Option Text) (default : Value) (deep : Bool) (p : Process machine_id B)
      → (Singleton.get machine_id B index key default deep p).1 ≡ p
  unfolding Singleton.get Singleton.on_read Singleton.on_store on_state
  get_keeps index key default deep (g, w) = elim (Option-cases g.conf) [
    | inl missing ↦ ground arith
    | inr (s, made) ↦ rw made refl
  ]

  storage_keeps :
      (key : Text) (none_allowed : Bool) (s : State machine_id B)
      → (get_storage_path machine_id B key none_allowed s).1 ≡ s
  unfolding get_storage_path on_conf
  storage_keeps key none_allowed (c, p) =
      let path = codes "cortx>common>storage>" ++ key in
      let kept = get_keeps c.cluster_index (some path) null true p in
      elim (Result-cases (Singleton.get machine_id B c.cluster_index (some path) null true p).0) [
        | inr (e, raised) ↦ ground arith
        | inl (v, read) ↦ elim (Bool-cases (not none_allowed && not (is_truthy v))) [
          | inl refused ↦ ground arith
          | inr accepted ↦ ground arith
        ]
      ]

  cluster_has :
      (other : Text) (c : CortxConf) (p : Process machine_id B)
      → ((load_cluster_conf machine_id B (c, p)).1.0 ≡ c)
        × ((load_cluster_conf machine_id B (c, p)).0 ≡ ok tt
            → has c.cluster_index (load_cluster_conf machine_id B (c, p)).1.1 ≡ true)
  unfolding load_cluster_conf on_conf
  cluster_has other c p = (refl, (has-reload c.cluster_index other c.cluster_conf p).0)

  -- `_load_config` that returns has read the path of the node from the cluster, and has loaded the
  -- index of the node from there.
  load_config_loads :
      (s : State machine_id B)
      → (load_config machine_id B s).0 ≡ ok tt
      → (base : Text) × ((get_storage_path machine_id B (codes "local") false s).0 ≡ ok (str base))
        × (load_config machine_id B s
            ≡ load_config_at machine_id B (under base (codes "utils/conf/cortx.conf")) s)
  unfolding load_config
  load_config_loads s done =
      elim (Result-cases (get_storage_path machine_id B (codes "local") false s).0) [
        | inr (e, raised) ↦ absurd (ground arith)
        | inl (v, read) ↦
            let kept = storage_keeps (codes "local") false s in
            elim (joined-cases v (codes "utils/conf/cortx.conf")) [
              | inl (base, is_text) ↦ (base, cc, ground arith)
              | inr refused ↦ absurd (ground arith)
            ]
      ]

  config_at_has :
      (path other : Text) (s : State machine_id B)
      → ((load_config_at machine_id B path s).0 ≡ ok tt
          → has s.0.index (load_config_at machine_id B path s).1.1 ≡ true)
        × (has other s.1 ≡ true → has other (load_config_at machine_id B path s).1.1 ≡ true)
  unfolding load_config_at on_conf
  config_at_has path other s = has-reload s.0.index other (some (codes "json://" ++ path)) s.1

  -- If `init` returns, the configuration of the cluster, as it was loaded, gives a text for the local storage
  -- path, what `init` leaves is what the load of `utils/conf/cortx.conf` under that path leaves, and both indices, as
  -- the arguments set them, are loaded.
  pub init_loads :
      (settings : List Setting) (c : CortxConf) (p : Process machine_id B)
      → (init machine_id B settings (c, p)).0 ≡ ok tt
      → (base : Text) × ((get_storage_path machine_id B
            (codes "local")
            false
            (load_cluster_conf machine_id B (apply settings c, p)).1).0
          ≡ ok (str base))
        × (init machine_id B settings (c, p)
            ≡ load_config_at machine_id B
                (under base (codes "utils/conf/cortx.conf"))
                (load_cluster_conf machine_id B (apply settings c, p)).1)
        × (has (apply settings c).cluster_index (init machine_id B settings (c, p)).1.1 ≡ true)
        × (has (apply settings c).index (init machine_id B settings (c, p)).1.1 ≡ true)
  unfolding init
  init_loads settings c p done =
      let c' = apply settings c in
      let (same, opened) = cluster_has c'.cluster_index c' p in
      let s = (load_cluster_conf machine_id B (c', p)).1 in
      elim (Result-cases (load_cluster_conf machine_id B (c', p)).0) [
        | inr (e, raised) ↦ absurd (ground arith)
        | inl (u, loaded) ↦
            let (base, read, at_path) = load_config_loads s (ground arith) in
            let path = under base (codes "utils/conf/cortx.conf") in
            let has_config = config_at_has path c'.cluster_index s in
            (base, read, ground arith, ground arith, ground arith)
      ]
