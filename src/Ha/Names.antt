-- ===== src/Ha/Names.antt =====
-- The names in alerts, rules and decisions (py-utils/src/utils/const.py,
-- py-utils/src/utils/ha/dm/actions.py).
use cortx_utils.Base.{Text, codes}

abbrev pub message : Text
message = codes "message"

abbrev pub sensor_res_type : Text
sensor_res_type = codes "sensor_response_type"

abbrev pub info : Text
info = codes "info"

abbrev pub resource_type : Text
resource_type = codes "resource_type"

abbrev pub alert_type : Text
alert_type = codes "alert_type"

abbrev pub severity : Text
severity = codes "severity"

abbrev pub action_key : Text
action_key = codes "action"

abbrev pub resource_id : Text
resource_id = codes "resource_id"

abbrev pub node_id : Text
node_id = codes "node_id"

abbrev pub event_time : Text
event_time = codes "event_time"

abbrev pub enclosure : Text
enclosure = codes "enclosure"

abbrev pub entity : Text
entity = codes "entity"

abbrev pub entity_id : Text
entity_id = codes "entity_id"

abbrev pub component : Text
component = codes "component"

abbrev pub component_id : Text
component_id = codes "component_id"

abbrev pub connectivity : Text
connectivity = codes "connectivity"

abbrev pub nic : Text
nic = codes "node:interface:nw"

abbrev pub specific_info : Text
specific_info = codes "specific_info"

abbrev pub iem : Text
iem = codes "iem"

abbrev pub node_entity : Text
node_entity = codes "node"

abbrev pub network : Text
network = codes "network"

abbrev pub data_name : Text
data_name = codes "data"

abbrev pub mgmt : Text
mgmt = codes "mgmt"

abbrev pub data_iface : Text
data_iface = codes "data_iface"

abbrev pub mgmt_iface : Text
mgmt_iface = codes "mgmt_iface"

abbrev pub nodes : Text
nodes = codes "nodes"

abbrev pub controller : Text
controller = codes "controller"

abbrev pub module_id : Text
module_id = codes "module_id"

abbrev pub specific_info_module : Text
specific_info_module = codes "module"

abbrev pub nic_cable : Text
nic_cable = codes "node:interface:nw:cable"

abbrev pub failed : Text
failed = codes "failed"

abbrev pub resolved : Text
resolved = codes "resolved"

abbrev pub fine : Text
fine = codes "ok"
