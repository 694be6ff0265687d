-- ===== src/Common/Cluster.antt =====
-- `CortxConf` (py-utils/src/utils/common/common.py): the configuration of the cluster and, at a path
-- that it names, that of the node, both loaded into the singleton `Conf`.
pub mod Laws
use cortx_utils.Base.{
  ℕ, Text, codes, Bool, true, false, ◌&&◌, not, ◌=ℕ◌, Option, none, some, List, [], ◌∷◌, ◌++◌,
  Result, ok, err, kv_error, conf_error, einval, enoent, type_error, if◌then◌else◌,
}
use cortx_utils.Base.Exec.{Exec, pure, raise, lift, ◌>>=◌, ◌>>◌}
use cortx_utils.Value.{Value, null, str}
use cortx_utils.Value.Compare.{is_truthy}
use cortx_utils.KvStore.{Backend}
use cortx_utils.Conf.{LoadArg, fail_reload}
use cortx_utils.Conf.Singleton
use cortx_utils.Conf.Singleton.{Singleton, Process}

-- The attributes `_index`, `_cluster_index` and `_cluster_conf` of the class.
pub record CortxConf : Type 0 where
  pub index : Text
  pub cluster_index : Text
  pub cluster_conf : Option Text

abbrev pub initial : CortxConf
initial = record {
  index = codes "config_file";
  cluster_index = codes "cluster";
  cluster_conf = none;
}

-- A keyword argument of `init`; one that names none of the three sets what nothing reads.
pub data Setting : Type 0 where
  index_is cluster_index_is : Text → Setting
  cluster_conf_is : Option Text → Setting
  ignored : Text → Setting

-- The loop of `setattr`.
unfoldable pub apply : List Setting → CortxConf → CortxConf
apply [] c = c
apply (index_is i ∷ ss) c = apply ss (record c { index = i })
apply (cluster_index_is i ∷ ss) c = apply ss (record c { cluster_index = i })
apply (cluster_conf_is u ∷ ss) c = apply ss (record c { cluster_conf = u })
apply (ignored _ ∷ ss) c = apply ss c

-- `os.path.join(base, rest)` where `rest` is relative.
unfoldable pub under : Text → Text → Text
under [] rest = rest
under (c ∷ []) rest = if c =ℕ b'/' then c ∷ rest else c ∷ b'/' ∷ rest
under (c ∷ d ∷ base) rest = c ∷ under (d ∷ base) rest

-- `os.path.join` refuses a base that is no text.
abbrev pub joined : Value → Text → Result Text
joined (str base) rest = ok (under base rest)
joined _ rest = err type_error

-- `f"{…}"` of the machine id, a text or `None`.
abbrev pub id_text : Value → Text
id_text (str s) = s
id_text _ = codes "None"

-- `"/" + component if component else ""`
abbrev pub suffix : Option Text → Text
suffix none = []
suffix (some []) = []
suffix (some c) = b'/' ∷ c

module _ (machine_id : Value) (B : Backend) where
  abbrev pub State : Type 0
  State = CortxConf × Process machine_id B

  -- A call of `Conf`, which sees the attributes of the class.
  unfoldable pub on_conf : {A : Type 0} → (CortxConf → Exec (Process machine_id B) A) → Exec State A
  on_conf f (c, p) = let (r, p') = f c p in (r, (c, p'))

  -- `Conf.load(index, url, fail_reload=False)`: no store is made for a URL that is `None`.
  unfoldable pub reload : Text → Option Text → Exec (Process machine_id B) (Unit {0})
  reload index (some url) =
      Singleton.load machine_id B index url (some true) (fail_reload false ∷ [])
  reload index none = do Singleton.init_process machine_id B; raise (kv_error einval)

  unfoldable pub load_cluster_conf : Exec State (Unit {0})
  load_cluster_conf = on_conf λ c. reload c.cluster_index c.cluster_conf

  unfoldable pub get_storage_path : Text → Bool → Exec State Value
  get_storage_path key none_allowed = do
    path ← on_conf λ c.
        Singleton.get machine_id B c.cluster_index (some (codes "cortx>common>storage>" ++ key))
          null true
    if not none_allowed && not (is_truthy path) then raise (conf_error einval) else pure path

  -- The end of `_load_config`, where the path is known.
  unfoldable pub load_config_at : Text → Exec State (Unit {0})
  load_config_at path = on_conf λ c. reload c.index (some (codes "json://" ++ path))

  unfoldable pub load_config : Exec State (Unit {0})
  load_config = do
    local_storage_path ← get_storage_path (codes "local") false
    path ← lift (joined local_storage_path (codes "utils/conf/cortx.conf"))
    load_config_at path

  unfoldable pub init : List Setting → Exec State (Unit {0})
  init settings (c, p) = (do load_cluster_conf; load_config) (apply settings c, p)

  -- `base_dir if base_dir else Conf.get(CortxConf._index, 'log_dir')`
  unfoldable pub log_dir : Option Text → Exec State Value
  log_dir (some (d ∷ base_dir)) = pure (str (d ∷ base_dir))
  log_dir _ = on_conf λ c. Singleton.get machine_id B c.index (some (codes "log_dir")) null true

  -- `Conf.machine_id`
  unfoldable pub conf_machine_id : Exec State Value
  conf_machine_id (c, p) =
      let (r, g') = Singleton.get_machine_id machine_id p.0 in (r, (c, (g', p.1)))

  unfoldable pub get_log_path : Option Text → Option Text → Exec State Text
  get_log_path component base_dir = do
    dir ← log_dir base_dir
    id ← conf_machine_id
    lift (joined dir (codes "utils/" ++ (id_text id ++ suffix component)))

  unfoldable pub get : Option Text → Value → Bool → Exec State Value
  get key default deep = on_conf λ c. Singleton.get machine_id B c.index key default deep

  unfoldable pub set : Text → Value → Exec State (Unit {0})
  set key value = on_conf λ c. Singleton.set machine_id B c.index key value

  unfoldable pub save : Exec State (Unit {0})
  save = on_conf λ c. Singleton.save machine_id B c.index

abbrev pub get_cluster_conf_path : CortxConf → Result Text
get_cluster_conf_path c = elim c.cluster_conf [ none ↦ err (conf_error enoent) | some u ↦ ok u ]
