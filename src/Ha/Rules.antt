-- ===== src/Ha/Rules.antt =====
-- `RuleEngine` (py-utils/src/utils/ha/dm/decision_maker.py).
use cortx_utils.Base.{Bool, false, [], ◌&&◌, if◌then◌else◌, Result, ok, err, type_error, ◌>>=◌}
use cortx_utils.Value.{Value, null, str, dict, Items, nil, cons}
use cortx_utils.Value.Compare.{is_null, value_eq, is_truthy}
use cortx_utils.Value.Access.{get, item, item_by, elements}
use cortx_utils.Ha.Names.{
  message, sensor_res_type, info, resource_type, alert_type, severity, action_key, component,
  component_id, specific_info, iem, module_id, specific_info_module,
}

-- What a rule is compared with: the type of the resource, the type and the severity of the alert,
-- and the component and the module of an IEM.
pub record Facts : Type 0 where
  pub res_type : Value
  pub alert : Value
  pub level : Value
  pub component_var : Value
  pub module_var : Value

-- `res_type == const.IEM`
abbrev pub is_iem : Value → Bool
is_iem v = value_eq v (str iem)

-- `a == item[k] and …`: the second item is read only if the first is equal.
unfoldable pub both : Value → Result Value → Value → Result Value → Result Bool
both a x b y = x >>= λ v. if value_eq a v then (y >>= λ w. ok (value_eq b w)) else ok false

-- The tests of one rule.
unfoldable pub applies : Facts → Value → Result Bool
applies f rule = both (f.alert) (item alert_type rule) (f.level) (item severity rule) >>= λ found.
    if found && is_iem (f.res_type)
    then both (f.component_var) (item component_id rule) (f.module_var) (item module_id rule)
    else ok found

-- One turn of the loop, from the action that was found so far.
unfoldable pub try_rule : Facts → Value → Value → Result Value
try_rule f rule action =
    applies f rule >>= λ found. if found then item action_key rule else ok action

unfoldable pub try_rules : Facts → Items → Value → Result Value
try_rules f nil action = ok action
try_rules f (cons rule rules) action = try_rule f rule action >>= try_rules f rules

-- `self._rules_schema[res_type]`, of a schema that is not empty and, as in the file, a dict.
unfoldable pub rules_of : Value → Value → Result Value
rules_of res_type (dict fs) = item_by res_type fs
rules_of res_type _ = err type_error

-- `component_var` and `module_var`, which are read for an IEM alone.
unfoldable pub facts_of : Value → Value → Result Facts
facts_of sensor_response res_type = do
  alert ← get alert_type sensor_response
  level ← get severity sensor_response
  if is_iem res_type
      then (do
        specific ← get specific_info sensor_response
        part ← get component specific
        unit ← get specific_info_module specific
        ok (record {
          res_type = res_type;
          alert = alert;
          level = level;
          component_var = part;
          module_var = unit;
        }))
      else ok (record {
        res_type = res_type;
        alert = alert;
        level = level;
        component_var = str [];
        module_var = str [];
      })

-- What follows once the schema is there.
unfoldable pub evaluate : Value → Value → Result Value
evaluate schema alert = do
  body ← get message alert
  sensor_response ← get sensor_res_type body
  details ← get info sensor_response
  res_type ← get resource_type details
  if is_null res_type then ok null else (do
    facts ← facts_of sensor_response res_type
    found ← rules_of res_type schema
    if is_null found then ok null else (elements found >>= λ rules. try_rules facts rules null))

-- `evaluate_alert`, by the schema of the rules.
unfoldable pub evaluate_alert : Value → Value → Result Value
evaluate_alert schema alert = if is_truthy schema then evaluate schema alert else ok null
