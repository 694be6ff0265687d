-- ===== src/Ha/Maker.antt =====
-- `DecisionMaker.handle_alert` and `_store_action`
-- (py-utils/src/utils/ha/dm/decision_maker.py): what an alert leaves in the storage of decisions.
pub mod Laws
use cortx_utils.Base.{Bool, true, false, if◌then◌else◌, Result, ok, err}
use cortx_utils.Base
use cortx_utils.Base.Exec.{Exec, pure, lift, ◌>>=◌}
use cortx_utils.Value.{Value, null, dict, Fields}
use cortx_utils.Value.Compare.{is_null, is_truthy}
use cortx_utils.Value.Access.{get, item}
use cortx_utils.Ha.Names.{
  message, sensor_res_type, event_time, entity, entity_id, component, component_id,
}
use cortx_utils.Ha.Rules.{evaluate_alert}
use cortx_utils.Ha.Alerts.{set_db_key_info}
use cortx_utils.Ha.Decisions.{Storage, ResourceKey, store_event}

-- `except Exception`: what was done before stays done.
abbrev pub swallow : {S : Type 0} → Exec S (Unit {0}) → Exec S (Unit {0})
swallow m s = (ok tt, (m s).1)

-- The entries that `store_event` is given.
unfoldable pub stored_key : Fields → Result ResourceKey
stored_key fs = Base.◌>>=◌ (item entity (dict fs)) λ e.
    Base.◌>>=◌ (item entity_id (dict fs)) λ e_id. Base.◌>>=◌ (item component (dict fs)) λ part.
      Base.◌>>=◌ (item component_id (dict fs)) λ part_id.
        ok (record { entity = e; entity_id = e_id; component = part; component_id = part_id })

module _ (conf : Value) (D : Storage) where
  open D use {World}

  unfoldable pub store_info : Fields → Value → Exec World (Unit {0})
  store_info fs action =
      if is_truthy (dict fs)
      then (do
        key ← lift (stored_key fs)
        time ← lift (item event_time (dict fs))
        store_event D key time action)
      else pure tt

  -- `_store_action`
  unfoldable pub store_action : Value → Value → Exec World (Unit {0})
  store_action alert action = swallow (do
    body ← lift (get message alert)
    sensor_response ← lift (get sensor_res_type body)
    fs ← lift (set_db_key_info conf sensor_response)
    store_info fs action)

  -- `handle_alert`, by the schema of the rules.
  unfoldable pub handle_alert : Value → Value → Exec World (Unit {0})
  handle_alert schema alert = swallow (
      if is_null alert then pure tt else (do
        action ← lift (evaluate_alert schema alert)
        if is_null action then pure tt else store_action alert action))
