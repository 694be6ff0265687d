-- ===== src/Lib.antt =====
-- Verification of the core of cortx-utils: the payload of keys and values, the store that keeps it,
-- the configurations that applications read, change, save and lock, and the parts that work on them
-- or beside them: the activity tracker, high availability, releases, logs, events and the database over Consul.
--
-- Parts, from the bottom up:
--
-- * `KvPayload` (py-utils/src/utils/kv_store/kv_payload.py) holds nested dicts and lists and reads
--   them by keys such as `a>b[2]>c`. Key.antt takes keys apart and writes them: `split` is
--   `key.split(delim, 1)` over the whole recursion, `key_index_split` the `re.split` of a segment.
--   Value.antt has the data; Value/Dict.antt and Value/Seq.antt what Python's dicts and lists do,
--   and Value/Compare.antt `==` and the truth of a value. Payload.antt has the object with
--   its list of keys, and one function per method; below it are the recursive helpers: Payload/Read
--   for `_get` and `_shallow_get`, Payload/Write for `_set`, Payload/Delete for `_delete`,
--   Payload/Enumerate for `_get_keys` and `_shallow_get_keys`, Payload/Search for `_search` and
--   Payload/Counts for `_add_num_keys`. A method that mutates returns its outcome and the new
--   payload, since what was written before an exception stays written.
-- * `KvStore` (py-utils/src/utils/kv_store/kv_store.py) loads a payload, works on it and dumps it:
--   KvStore.antt. The `load` and `dump` of the subclasses, and the factory that finds a store by its
--   URL, are the record `Backend`; `IsFaithful` says that a payload that a store can keep, once
--   dumped, is loaded with the same data, and that opening a store that can be loaded leaves what it
--   loads. KvStore/Files.antt has the stores in JSON, YAML and TOML files
--   (py-utils/src/utils/kv_store/kv_store_collection.py) as such a backend, with the library of the
--   format for a parameter, KvStore/Files/Properties.antt the properties files, and KvStore/Dict.antt
--   the stores that hold their data in the URL.
-- * `ConfCache` (py-utils/src/utils/conf_store/conf_cache.py) keeps a payload and a dirty flag:
--   Conf/Cache.antt.
-- * `ConfStore` (py-utils/src/utils/conf_store/conf_store.py) keeps caches by their index: Conf.antt
--   for `load`, `save`, `get`, `set` and the other methods that pass to a cache, Conf/Copying.antt
--   for `copy`, `compare` and `merge`, Conf/Lock.antt for the lock that is kept under two keys
--   of the configuration (py-utils/src/utils/const.py), Conf/Mapped.antt for `MappedConf`, the
--   configurations behind one fixed index, and Conf/Singleton.antt for the singleton `Conf`.
-- * `ActivityEntry` and `Activity` (py-utils/src/utils/activity_tracker/activity_store.py) keep the
--   progress of activities as JSON in a `KvStore`: Activity/Entry.antt for the entry,
--   Activity/Checks.antt for what is checked, Activity.antt for the operations, Activity/Searching
--   for `search`, and Activity/Spec for the abstract life of an activity.
-- * `ExponentialBackoff` (py-utils/src/utils/common/common.py) tries a call again: Common.antt.
--   `CortxConf` of the same file loads the configurations of the cluster and of the node into the
--   singleton `Conf`: Common/Cluster.antt. `DbConf` (py-utils/src/utils/common/dbconf.py) finds the
--   address of Consul in the configuration of the cluster: Common/Database.antt, with `urlparse` for a
--   parameter.
-- * The decisions of high availability (py-utils/src/utils/ha/dm): Ha/Rules.antt for `RuleEngine`,
--   Ha/Alerts.antt and Ha/Maker.antt for `DecisionMaker`, Ha/Decisions.antt for `DecisionModel` and
--   `DecisionDB` over an interface to the storage, Ha/Monitor.antt for `DecisionMonitor`,
--   and Ha/Validation.antt for `SymanticValidator` (py-utils/src/utils/ha/hac/validation.py), with the
--   cycles that networkx finds as an argument.
--   Value/Access.antt has what the code does to JSON data that may be of another type.
-- * `Release` (py-utils/src/utils/schema/release.py): Release/Versions.antt compares versions and
--   reads them in the names of packages, Release/Installed.antt reads the installed versions through
--   `MappedConf`, Release/Compatible.antt checks them against rules, and Release/Info.antt reads
--   RELEASE.INFO.
-- * `FilterLog.limit_size` (py-utils/src/utils/support_framework/log_filters.py): Logs.antt.
-- * `EventMessage` (py-utils/src/utils/iem_framework/event_message.py), over an interface to the
--   message bus: Iem.antt.
-- * The access to data (py-utils/src/utils/data): Data/Filters.antt and Data/Queries.antt for
--   py-utils/src/utils/data/access, Data/Converter.antt for the evaluation of a filter on the objects
--   of a store, and Data/Consul.antt for `ConsulDB`
--   (py-utils/src/utils/data/db/consul_db/storage.py) on `GenericDataBase`
--   (py-utils/src/utils/data/db/generic_storage.py), with its order and slices in
--   Data/Consul/Sorting.antt and its paths in Data/Templates.antt. The store of keys is the record
--   `Client`, and `IsStore` what Consul documents of it; the models of schematics are the record `Model`
--   of Data/Models.antt. Value/Order.antt has the order of Python's values.
-- * The message bus (py-utils/src/utils/message_bus): MessageBus/Servers.antt for the endpoints of the
--   brokers, with the one dict that the list holds many times, and MessageBus/Clients.antt for
--   `MessageBusClient` and its kinds, over the record `Broker`.
--
-- Base.antt has the shared types: texts as lists of code points, results with Python's exceptions,
-- association tables, and `Exec` for methods that change a state and may raise. Tests.antt runs the
-- code and the theorems on concrete data.
--
-- Recursion is on the segments of a key, on the data or on a list of keys. The digits of a number
-- are written by rounds that each divide by ten: `show_nat n` takes `n + 1` of them, and
-- Key/Decimal.antt proves that they are enough.
--
-- Not modelled: floats in the data; names of dicts that are no strings; that `copy` shares a nested
-- value between two configurations, which matters only for keys that name lists or dicts; the empty
-- delimiter of a payload beyond the exception that it raises; the order of `set.difference` in
-- `compare`, for which the order of the first list stands; error messages; the filters of `get_keys`
-- of a configuration but `key_index`. The clock is an argument, in ticks. What others do to the store
-- while `lock` sleeps is a function on the store. How Python writes values as text, and reads and
-- writes the end of a lock, is the record `Formats`, and `IsExact` what is used of it. `json.dumps`
-- and `json.loads` are the record `Json`; fresh identifiers are arguments, and so are the contents of
-- the rule and configuration files of high availability, whose coroutines are awaited at once. The
-- pauses between attempts are whole seconds, and the size of a bundle is given in bytes. The URL that
-- `DbConf` is given is a text. What Python prints for a value is an argument; digits are those of
-- ASCII. Letters in another case are those of ASCII. The coroutines of the database are awaited at
-- once, and the deletions of one call are made in their order. The other stores of
-- py-utils/src/utils/kv_store/kv_store_collection.py, the databases over Elasticsearch and OpenLDAP,
-- and the other packages of py-utils are left out.
pub mod Base
pub mod Key
pub mod Value
pub mod Payload
pub mod KvStore
pub mod Conf
mod Tests
pub mod Activity
pub mod Common
pub mod Ha
pub mod Release
pub mod Logs
pub mod Iem
pub mod Data
pub mod MessageBus
