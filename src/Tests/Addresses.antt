-- ===== src/Tests/Addresses.antt =====
-- The address of Consul in a configuration of the cluster.
use cortx_utils.Base.{
  Text, codes, some, [], ◌∷◌, ◌≡◌, refl, ok, Result, true, false, ◌==◌, find, if◌then◌else◌,
}
use cortx_utils.Value.{ℤ, pos, Value, int, str, dict, list, nil, cons, end, field}
use cortx_utils.Value.Dict.{lookup}
use cortx_utils.Key.{
  split, key_index_split, find_index, match_index, digits_bracket, is_blank, is_empty, show_nat,
  show_digits,
}
use cortx_utils.Payload
use cortx_utils.Payload.Read.{get_path}
use cortx_utils.Payload.{KvPayload}
use cortx_utils.Conf
use cortx_utils.Conf.{ConfStore}
use cortx_utils.Conf.Cache.{ConfCache}
use cortx_utils.Conf.Singleton
use cortx_utils.Conf.Singleton.{Process}
use cortx_utils.Release.Installed.{to_int, turns}
use cortx_utils.Common.Database.{
  Url, initial, cluster_index, num_endpoints, parsed, conf_get, on_conf, assign, scan,
  get_consul_netloc,
}
use cortx_utils.Common.Database.Laws.{Found, get_consul_netloc-Found}
use cortx_utils.Tests.Stores.{memory}
use cortx_utils.Tests.Samples.{sample}

abbrev machine : Value
machine = str (codes "m1")

abbrev endpoints : Value
endpoints = list (cons (str (codes "tcp://c:8301")) (cons (str (codes "http://c:8500")) nil))

abbrev consul : Value
consul =
    dict (field (codes "num_endpoints") (int (pos 2)) (field (codes "endpoints") endpoints end))

abbrev cluster : KvPayload
cluster = record {
  node = dict (
      field (codes "cortx")
        (dict (field (codes "external") (dict (field (codes "consul") consul end)) end)) end);
  delim = b'>';
  keys = [];
}

abbrev opened : ConfStore
opened = record {
  delim = b'>';
  cache =
      (
        cluster_index,
        record { payload = cluster; dirty = false; url = codes "yaml:///c"; recurse = true },
      )
      ∷ [];
  callbacks = [];
  lock_owner = machine;
}

abbrev process : Process machine memory
process = (record { conf = some opened; delim = codes ">" }, sample)

-- The two endpoints, taken apart.
abbrev by_hand : Text → Result Url
by_hand s =
    if s == codes "http://c:8500"
    then ok
        (record { scheme = codes "http"; hostname = str (codes "c"); port = ok (int (pos 8500)) })
    else ok
        (record { scheme = codes "tcp"; hostname = str (codes "c"); port = ok (int (pos 8301)) })

netloc_done : (get_consul_netloc machine memory by_hand (initial, process)).0 ≡ ok tt
unfolding get_consul_netloc scan parsed assign on_conf Singleton.get Singleton.on_read
    Singleton.on_store Singleton.on_state Conf.get Conf.cached Conf.or_default Conf.Cache.get
    Payload.get get_path split key_index_split find_index match_index digits_bracket is_blank
    is_empty show_nat show_digits lookup to_int ◌==◌ find
netloc_done = refl

get_consul_netloc-Found_example :
    (v : Value) × (n : ℤ) × ((conf_get machine memory cluster_index num_endpoints process).0 ≡ ok v)
    × (to_int v ≡ ok n)
    × Found machine memory by_hand
        (turns n)
        0
        initial
        process
        (get_consul_netloc machine memory by_hand (initial, process))
get_consul_netloc-Found_example =
    get_consul_netloc-Found machine memory by_hand initial process netloc_done
