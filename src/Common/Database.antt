-- ===== src/Common/Database.antt =====
-- `DbConf` (py-utils/src/utils/common/dbconf.py): the address of Consul, which the configuration of
-- the cluster names, and the configuration of the databases that is kept there.
pub mod Laws
use cortx_utils.Base.{
  ℕ, zero, suc, ◌+◌, Text, codes, Bool, true, false, ◌==◌, ◌||◌, none, some, [], ◌∷◌, ◌++◌, Result,
  ok, err, conf_error, enoent, attribute_error, if◌then◌else◌,
}
use cortx_utils.Base.Exec.{Exec, pure, raise, lift, ◌>>=◌, ◌>>◌}
use cortx_utils.Value.{Value, null, str}
use cortx_utils.Value.Compare.{is_truthy, is_null}
use cortx_utils.Key.{show_nat}
use cortx_utils.KvStore.{Backend}
use cortx_utils.Conf.{skip_reload}
use cortx_utils.Conf.Singleton
use cortx_utils.Conf.Singleton.{Process}
use cortx_utils.Release.Installed.{to_int, turns}

-- What `urlparse` returns, a part of which may raise when it is read.
pub record Url : Type 0 where
  pub scheme : Text
  pub hostname : Value
  pub port : Result Value

-- The attributes `_consul_host` and `_consul_port` of the class.
pub record DbConf : Type 0 where
  pub consul_host : Value
  pub consul_port : Value

abbrev pub initial : DbConf
initial = record { consul_host = null; consul_port = null }

abbrev pub cluster_index : Text
cluster_index = codes "dbconf-cluster"

abbrev pub db_index : Text
db_index = codes "dbconf"

abbrev pub endpoint_key : ℕ → Text
endpoint_key i = codes "cortx>external>consul>endpoints[" ++ show_nat i ++ codes "]"

abbrev pub num_endpoints : Text
num_endpoints = codes "cortx>external>consul>num_endpoints"

abbrev pub is_http : Url → Bool
is_http url = url.scheme == codes "http"

module _ (urlparse : Text → Result Url) where
  -- `urlparse(endpoint)`: what is false, such as `None`, is parsed as empty bytes, whose scheme is
  -- not `'http'`; another value that is no text has no `decode`.
  unfoldable pub parsed : Value → Result Url
  parsed (str (c ∷ s)) = urlparse (c ∷ s)
  parsed v =
      if is_truthy v
      then err attribute_error
      else ok (record { scheme = []; hostname = null; port = ok null })

module _ (machine_id : Value) (B : Backend) where
  abbrev pub State : Type 0
  State = DbConf × Process machine_id B

  -- A call of `Conf`.
  unfoldable pub on_conf : {A : Type 0} → Exec (Process machine_id B) A → Exec State A
  on_conf f (d, p) = let (r, p') = f p in (r, (d, p'))

  abbrev pub conf_get : Text → Text → Exec (Process machine_id B) Value
  conf_get index key = Singleton.get machine_id B index (some key) null true

  abbrev pub load_skipping : Text → Text → Exec State (Unit {0})
  load_skipping index url =
      on_conf (Singleton.load machine_id B index url (some true) (skip_reload true ∷ []))

  abbrev pub conf_set : Text → Value → Exec State (Unit {0})
  conf_set key value = on_conf (Singleton.set machine_id B db_index key value)

  -- The writes of `import_database_conf`, with the address that was found before.
  unfoldable pub write_address : Value → Value → Exec State (Unit {0})
  write_address login secret (d, p) =
      (do
        conf_set (codes "databases>consul_db>config>hosts[0]") d.consul_host
        conf_set (codes "databases>consul_db>config>port") d.consul_port
        conf_set (codes "databases>consul_db>config>login") login
        conf_set (codes "databases>consul_db>config>password") secret)
        (d, p)

  unfoldable pub import_database_conf : Text → Exec State (Unit {0})
  import_database_conf db_conf = do
    consul_login ← on_conf (conf_get cluster_index (codes "cortx>external>consul>admin"))
    consul_secret ← on_conf (conf_get cluster_index (codes "cortx>external>consul>secret"))
    on_conf (Singleton.load machine_id B (codes "dbconfsrc") db_conf (some true) [])
    on_conf (Singleton.copy machine_id B (codes "dbconfsrc") db_index none true)
    write_address consul_login consul_secret
    on_conf (Singleton.save machine_id B db_index)

  -- The two attributes are set from an endpoint, the host before the port is read.
  unfoldable pub assign : Url → Exec State (Unit {0})
  assign url (d, p) = elim url.port [
    | err e ↦ (err e, (record d { consul_host = url.hostname }, p))
    | ok port ↦ (ok tt, (record { consul_host = url.hostname; consul_port = port }, p))
  ]

  module _ (urlparse : Text → Result Url) where
    -- The loop over the endpoints, with `n` of them left from the `i`-th.
    unfoldable pub scan : ℕ → ℕ → Exec State (Unit {0})
    scan zero i = pure tt
    scan (suc n) i =
        let rest = scan n (suc i) in
        do
          endpoint ← on_conf (conf_get cluster_index (endpoint_key i))
          parsed_url ← lift (parsed urlparse endpoint)
          if is_http parsed_url then assign parsed_url else rest

    unfoldable pub get_consul_netloc : Exec State (Unit {0})
    get_consul_netloc = do
      num_consul_endpoints ← on_conf (conf_get cluster_index num_endpoints)
      number ← lift (to_int num_consul_endpoints)
      scan (turns number) 0

  -- `show` is `f"{…}"` of a value.
  module _ (show : Value → Text) where
    -- The end of `init`: the store in Consul is opened if there is an address.
    unfoldable pub load_db : Exec State (Unit {0})
    load_db (d, p) =
        if is_null d.consul_host || is_null d.consul_port
        then (err (conf_error enoent), (d, p))
        else load_skipping db_index
            (codes "consul://"
              ++ show d.consul_host
              ++ codes ":"
              ++ show d.consul_port
              ++ codes "/utils_db_conf")
            (d, p)

    unfoldable pub init : (Text → Result Url) → Text → Exec State (Unit {0})
    init urlparse cluster_conf = do
      load_skipping cluster_index cluster_conf
      get_consul_netloc urlparse
      load_db
