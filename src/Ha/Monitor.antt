-- ===== src/Ha/Monitor.antt =====
-- `DecisionMonitor` (py-utils/src/utils/ha/dm/decision_monitor.py): the status of a resource is the
-- action of its latest decision, and to acknowledge it deletes its decisions.
pub mod Laws
pub mod Acknowledged
use cortx_utils.Base.{
  ℕ, Bool, true, false, Option, none, some, List, [], ◌∷◌, Text, codes, ◌||◌, not, ◌=ℕ◌,
  if◌then◌else◌, Result, ok, err, attribute_error, type_error,
}
use cortx_utils.Base
use cortx_utils.Base.Exec.{Exec, pure, lift, raise, ◌>>=◌}
use cortx_utils.Value.{Value, null, str, list, dict, Items, nil, cons, Fields, end, field}
use cortx_utils.Value.Dict.{lookup, size}
use cortx_utils.Value.Compare.{value_eq}
use cortx_utils.Value.Access.{lookup_by, elements}
use cortx_utils.Ha.Names.{entity, entity_id, component, component_id, failed, resolved, fine}
use cortx_utils.Ha.Decisions.{DecisionModel, Storage, ResourceKey, get_event_time, delete_event}
use cortx_utils.Ha.Maker.{swallow}

-- `v.get(k, default)`
unfoldable pub get_or : Value → Value → Value → Result Value
get_or k default (dict fs) = elim (lookup_by k fs) [
  | ok o ↦ elim o [ none ↦ ok default | some v ↦ ok v ]
  | err e ↦ err e
]
get_or k default _ = err attribute_error

-- An argument that a call by keywords must have.
unfoldable pub keyword : Text → Fields → Result Value
keyword k fs = elim (lookup k fs) [ none ↦ err type_error | some v ↦ ok v ]

-- `**resource_key`
unfoldable pub read_key : Value → Result ResourceKey
read_key (dict fs) = Base.◌>>=◌ (keyword entity fs) λ e. Base.◌>>=◌ (keyword entity_id fs) λ e_id.
    Base.◌>>=◌ (keyword component fs) λ part. Base.◌>>=◌ (keyword component_id fs) λ part_id.
      ok (record { entity = e; entity_id = e_id; component = part; component_id = part_id })
read_key _ = err type_error

-- `get` of the handler passes other keywords on, but `sort_by` is its own.
unfoldable pub query_key : Value → Result ResourceKey
query_key (dict fs) = elim (lookup (codes "sort_by") fs) [
  | none ↦ read_key (dict fs)
  | some v ↦ err type_error
]
query_key _ = err type_error

-- `delete_event` takes four arguments.
unfoldable pub delete_key : Value → Result ResourceKey
delete_key (dict fs) = if size fs =ℕ 4 then read_key (dict fs) else err type_error
delete_key _ = err type_error

abbrev pub latest_action : List DecisionModel → Value
latest_action [] = str fine
latest_action (d ∷ ds) = d.action

-- `except Exception: return Action.OK`
abbrev pub fine_if_raised : Result Value → Value
fine_if_raised (ok v) = v
fine_if_raised (err e) = str fine

module _ (resource_file : Value) (D : Storage) where
  open D use {World}

  -- `self._resource_file.get("resources", {}).get(resource, {})`
  unfoldable pub resource_key : Value → Result Value
  resource_key resource =
      Base.◌>>=◌ (get_or (str (codes "resources")) (dict end) resource_file)
        (get_or resource (dict end))

  -- `self._resource_file.get("resource_groups", {}).get(resource_group, [])`, to be looped over.
  unfoldable pub group_members : Value → Result Items
  group_members group =
      Base.◌>>=◌ (get_or (str (codes "resource_groups")) (dict end) resource_file)
        λ groups. Base.◌>>=◌ (get_or group (list nil) groups) elements

  -- `ConsulCallHandler.get`, with its timeout among the exceptions of the storage.
  unfoldable pub fetch : Value → Exec World Value
  fetch key = do
    k ← lift (query_key key)
    found ← get_event_time D k true
    pure (latest_action found)

  -- `ConsulCallHandler.delete`
  unfoldable pub remove_events : Value → Exec World (Unit {0})
  remove_events key = do k ← lift (delete_key key); delete_event D k

  unfoldable pub get_resource_status : Value → Exec World Value
  get_resource_status resource = lift (resource_key resource) >>= λ key w.
      let (r, w') = fetch key w in (ok (fine_if_raised r), w')

  abbrev pub is_failed : Value → Bool
  is_failed status = value_eq status (str failed)

  abbrev pub is_resolved : Value → Bool
  is_resolved status = value_eq status (str resolved)

  -- The loop of `get_resource_group_status`, with whether a status was `RESOLVED` so far.
  unfoldable pub group_status : Items → Bool → Exec World Value
  group_status nil any = pure (if any then str resolved else str fine)
  group_status (cons resource rest) any = get_resource_status resource >>= λ status.
      if is_failed status then pure status else group_status rest (any || is_resolved status)

  unfoldable pub get_resource_group_status : Value → Exec World Value
  get_resource_group_status group = lift (group_members group) >>= λ rs. group_status rs false

  -- The body of the `try` of `acknowledge_resource`: with force the status is not read.
  unfoldable pub try_acknowledge : Value → Value → Bool → Exec World (Unit {0})
  try_acknowledge resource key true = remove_events key
  try_acknowledge resource key false = get_resource_status resource >>= λ status.
      if is_failed status then pure tt else remove_events key

  unfoldable pub acknowledge_resource : Value → Bool → Exec World (Unit {0})
  acknowledge_resource resource force =
      lift (resource_key resource) >>= λ key. swallow (try_acknowledge resource key force)

  unfoldable pub acknowledge_each : Items → Exec World (Unit {0})
  acknowledge_each nil = pure tt
  acknowledge_each (cons resource rest) =
      acknowledge_resource resource false >>= λ _. acknowledge_each rest

  unfoldable pub acknowledge_resource_group : Value → Exec World (Unit {0})
  acknowledge_resource_group group = lift (group_members group) >>= acknowledge_each
