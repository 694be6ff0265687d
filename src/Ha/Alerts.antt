-- ===== src/Ha/Alerts.antt =====
-- What `DecisionMaker` (py-utils/src/utils/ha/dm/decision_maker.py) reads in an alert:
-- `_set_db_key_info` and its helpers. The coroutines are awaited at once.
use cortx_utils.Base.{
  Text, codes, Bool, true, false, [], ◌∷◌, List, ◌==◌, ◌||◌, if◌then◌else◌, Result, ok, err,
  attribute_error, ◌>>=◌,
}
use cortx_utils.Key.{split, last_segment}
use cortx_utils.Value.{Value, str, list, dict, nil, Fields, end, field}
use cortx_utils.Value.Dict.{put}
use cortx_utils.Value.Compare.{value_eq, is_truthy}
use cortx_utils.Value.Access.{get, get_by, item, is_in}
use cortx_utils.Ha.Names.{
  info, resource_type, resource_id, node_id, event_time, enclosure, entity, entity_id, component,
  component_id, connectivity, nic, specific_info, iem, node_entity, network, data_name, mgmt,
  data_iface, mgmt_iface, nodes, controller, nic_cable,
}

module _ (conf : Value) where
  -- `_get_data_nw_interface` and `_get_mgmt_nw_interface`
  unfoldable pub nw_interface : Text → Value → Result Value
  nw_interface iface host_id =
      if is_truthy conf
      then (get network conf >>= λ net. get_by host_id net >>= get iface)
      else ok (list nil)

  -- `_get_host_id`
  unfoldable pub get_host_id : Value → Result Value
  get_host_id node = if is_truthy conf then (get nodes conf >>= get_by node) else ok (str [])

  -- `_get_component_id_for_nic`: the empty text for an interface that is neither.
  unfoldable pub get_component_id_for_nic : Value → Value → Result Text
  get_component_id_for_nic host_id resource = do
    data_nw ← nw_interface data_iface host_id
    in_data ← is_in resource data_nw
    if in_data then ok data_name else (do
      mgmt_nw ← nw_interface mgmt_iface host_id
      in_mgmt ← is_in resource mgmt_nw
      if in_mgmt then ok mgmt else ok [])

  -- The entity, and for an IEM the component with its id.
  unfoldable pub set_entity : Text → Value → Fields → Result Fields
  set_entity kind sensor_response fs =
      if kind == iem
      then (do
        specific ← get specific_info sensor_response
        part ← get component specific
        ok (put component_id part (put component (str kind) (put entity (str node_entity) fs))))
      else ok (put entity (str (split b':' kind).0) fs)

  unfoldable pub set_entity_id : Value → Fields → Result Fields
  set_entity_id host_id fs = do
    e ← item entity (dict fs)
    ok (put entity_id (if value_eq e (str node_entity) then host_id else str (codes "0")) fs)

  abbrev pub is_nonempty : List Text → Bool
  is_nonempty [] = false
  is_nonempty (s ∷ ss) = true

  unfoldable pub set_component : Text → Value → Fields → Result Fields
  set_component kind host_id fs =
      if is_nonempty (split b':' kind).1
      then ok (put component (str (last_segment b':' kind)) fs)
      else (item entity (dict fs) >>= λ e.
          if value_eq e (str enclosure)
          then ok (put component_id host_id (put component (str connectivity) fs))
          else ok fs)

  abbrev pub is_nic : Text → Bool
  is_nic kind = kind == nic || kind == nic_cable

  unfoldable pub set_component_id : Text → Value → Value → Fields → Result Fields
  set_component_id kind host_id resource fs = do
    part ← item component (dict fs)
    if value_eq part (str controller)
        then ok (put component_id host_id fs)
        else if is_nic kind
        then (do
          comp_id ← get_component_id_for_nic host_id resource
          if is_truthy (str comp_id) then ok (put component_id (str comp_id) fs) else ok end)
        else if kind == iem || kind == enclosure
        then ok fs
        else ok (put component_id resource fs)

  -- `resource_type.split(':')` needs a text.
  unfoldable pub as_text : Value → Result Text
  as_text (str s) = ok s
  as_text _ = err attribute_error

  -- The entries in turn, from the event time.
  unfoldable pub key_info : Text → Value → Value → Value → Value → Result Fields
  key_info kind sensor_response host_id resource time =
      set_entity kind sensor_response (field event_time time end)
      >>= set_entity_id host_id
      >>= set_component kind host_id
      >>= set_component_id kind host_id resource

  -- `_set_db_key_info`
  unfoldable pub set_db_key_info : Value → Result Fields
  set_db_key_info sensor_response = do
    details ← get info sensor_response
    res_type ← get resource_type details
    resource ← get resource_id details
    node ← get node_id details
    host_id ← get_host_id node
    time ← get event_time details
    kind ← as_text res_type
    key_info kind sensor_response host_id resource time
