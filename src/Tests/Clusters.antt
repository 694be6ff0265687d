-- ===== src/Tests/Clusters.antt =====
-- A process that opens the configuration of its cluster.
use cortx_utils.Base.{
  Text, codes, some, [], ◌∷◌, ◌≡◌, refl, ok, err, conf_error, einval, true, false, List, ◌==◌, find,
  store,
}
use cortx_utils.Value.{Value, str, dict, end, field}
use cortx_utils.Value.Dict.{lookup}
use cortx_utils.Value.Compare.{is_truthy}
use cortx_utils.Key.{split, key_index_split, find_index, match_index, is_blank}
use cortx_utils.Key.Words
use cortx_utils.Key.Words.{strip}
use cortx_utils.Payload
use cortx_utils.Payload.Read.{get_path}
use cortx_utils.Payload.{KvPayload}
use cortx_utils.Conf
use cortx_utils.Conf.Singleton
use cortx_utils.Conf.Singleton.{unset}
use cortx_utils.Common.Cluster.{
  initial, Setting, cluster_conf_is, apply, init, get_storage_path, load_cluster_conf,
  load_config_at, load_config, on_conf, reload, conf_machine_id, log_dir, under, get_log_path,
}
use cortx_utils.Common.Cluster.Laws.{has, init_loads}
use cortx_utils.Tests.Stores.{memory}
use cortx_utils.Tests.Samples.{sample}

abbrev machine : Value
machine = str (codes "m1")

abbrev shared : Value
shared = dict (
    field (codes "cortx")
      (dict (
        field (codes "common")
          (dict
            (field (codes "storage") (dict (field (codes "local") (str (codes "/share")) end)) end))
          end))
      end)

abbrev cluster : KvPayload
cluster = record { node = shared; delim = b'>'; keys = [] }

abbrev settings : List Setting
settings = cluster_conf_is (some (codes "yaml:///etc/cortx/cluster.conf")) ∷ []

-- A cluster that names no local storage.
no_storage : (init machine memory settings (initial, (unset, sample))).0 ≡ err (conf_error einval)
unfolding init load_cluster_conf load_config load_config_at get_storage_path on_conf apply reload
    under Singleton.load Singleton.init_process Singleton.init Singleton.on_state Singleton.on_store
    Singleton.on_read Singleton.get Conf.init Conf.load Conf.read_args Conf.is_loaded
    Conf.read_store Conf.Cache.init Conf.get Conf.cached Conf.or_default Conf.Cache.get Payload.get
    get_path split key_index_split find_index match_index is_blank lookup is_truthy ◌==◌ find store
no_storage = refl

init_done : (init machine memory settings (initial, (unset, cluster))).0 ≡ ok tt
unfolding init load_cluster_conf load_config load_config_at get_storage_path on_conf apply reload
    under Singleton.load Singleton.init_process Singleton.init Singleton.on_state Singleton.on_store
    Singleton.on_read Singleton.get Conf.init Conf.load Conf.read_args Conf.is_loaded
    Conf.read_store Conf.Cache.init Conf.get Conf.cached Conf.or_default Conf.Cache.get Payload.get
    get_path split key_index_split find_index match_index is_blank lookup is_truthy ◌==◌ find store
init_done = refl

log_path :
    (get_log_path machine memory
      (some (codes "iem"))
      (some (codes "/var/log/"))
      (initial, (unset, sample))).0
    ≡ ok (codes "/var/log/utils/m1/iem")
unfolding get_log_path conf_machine_id log_dir under Singleton.get_machine_id Singleton.init
    Conf.init is_truthy strip Words.strip_right Words.strip_left
log_path = refl

init_loads_example :
    (base : Text) × ((get_storage_path machine memory
        (codes "local")
        false
        (load_cluster_conf machine memory (apply settings initial, (unset, cluster))).1).0
      ≡ ok (str base))
    × (init machine memory settings (initial, (unset, cluster))
        ≡ load_config_at machine memory
            (under base (codes "utils/conf/cortx.conf"))
            (load_cluster_conf machine memory (apply settings initial, (unset, cluster))).1)
    × (has machine memory
          (apply settings initial).cluster_index
          (init machine memory settings (initial, (unset, cluster))).1.1
        ≡ true)
    × (has machine memory
          (apply settings initial).index
          (init machine memory settings (initial, (unset, cluster))).1.1
        ≡ true)
init_loads_example = init_loads machine memory settings initial (unset, cluster) init_done
