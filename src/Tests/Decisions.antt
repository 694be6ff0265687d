-- ===== src/Tests/Decisions.antt =====
-- Alerts, decisions in a list, and what the monitor makes of them.
use cortx_utils.Base.{
  Text, Bool, true, false, codes, List, [], ◌∷◌, ◌≡◌, ◌⊎◌, ◌≢◌, inl, inr, Bool-cases, refl, ok,
  starts_with, ◌==◌, if◌then◌else◌,
}
use cortx_utils.Value.Compare.{is_null}
use cortx_utils.Value.{Value, str, list, dict, nil, cons, Fields, end, field}
use cortx_utils.Value.Dict.{lookup}
use cortx_utils.Value.Access.{lookup_by, elements}
use cortx_utils.Ha.Names.{failed, resolved, fine}
use cortx_utils.Ha.Rules.{evaluate_alert}
use cortx_utils.Ha.Decisions.{
  DecisionModel, Storage, Comparison, equal, like, get_event_time, create_decision_id, texts, join,
  join_all,
}
use cortx_utils.Ha.Maker.{handle_alert}
use cortx_utils.Ha.Maker.Laws.{StoresOne, handle_alert-StoresOne}
use cortx_utils.Ha.Monitor.{
  resource_key, get_resource_status, group_members, get_resource_group_status, fetch, query_key,
  read_key, keyword, get_or, acknowledge_resource,
}
use cortx_utils.Ha.Monitor.Acknowledged.{
  IsDeleting, IsKey, identifier, acknowledge_resource-verdict,
}
use cortx_utils.Ha.Monitor.Laws.{IsReadOnly, statuses, worst, get_resource_group_status-worst}

abbrev agrees : Comparison → Text → Text → Bool
agrees equal id s = s == id
agrees like id s = starts_with s id

unfoldable kept : Bool → Comparison → Text → List DecisionModel → List DecisionModel
kept keep c id [] = []
kept keep c id (d ∷ ds) =
    let rest = kept keep c id ds in
    if agrees c id d.decision_id
    then (if keep then d ∷ rest else rest)
    else if keep
    then rest
    else d ∷ rest

abbrev decisions : Storage
decisions = record {
  World = List DecisionModel;
  store = λ d ds. (ok tt, d ∷ ds);
  get = λ c id sorted ds. (ok (kept true c id ds), ds);
  delete = λ c id ds. (ok tt, kept false c id ds);
}

decisions-IsReadOnly : IsReadOnly decisions
decisions-IsReadOnly = record { get_same = λ c id sorted w. refl }

kept_none : (id : Text) (ds : List DecisionModel) → kept true like id (kept false like id ds) ≡ []
unfolding kept
kept_none id [] = refl
kept_none id (d ∷ ds) = elim (Bool-cases (starts_with d.decision_id id)) [
  | inl selected ↦ rw selected (kept_none id ds)
  | inr other ↦ rw other (rw other (kept_none id ds))
]

decisions-IsDeleting : IsDeleting decisions
decisions-IsDeleting = record { gone = λ id sorted w done. rw (kept_none id w) refl }

abbrev text : Text → Value
text s = str s

abbrev disk_fields : Fields
disk_fields = field (codes "entity") (text (codes "node")) (
    field (codes "entity_id") (text (codes "srvnode-1")) (
      field (codes "component") (text (codes "disk"))
        (field (codes "component_id") (text (codes "3")) end)))

abbrev disk_key : Value
disk_key = dict disk_fields

disk_IsKey : IsKey disk_fields (codes "node") (codes "srvnode-1") (codes "disk") (codes "3")
unfolding lookup ◌==◌
disk_IsKey = record {
  four = refl;
  no_order = refl;
  same_entity = refl;
  same_entity_id = refl;
  same_component = refl;
  same_component_id = refl;
}

abbrev fan_key : Value
fan_key = dict (
    field (codes "entity") (text (codes "enclosure")) (
      field (codes "entity_id") (text (codes "0")) (
        field (codes "component") (text (codes "fan"))
          (field (codes "component_id") (text (codes "1")) end))))

abbrev file : Value
file = dict (
    field (codes "resources")
      (dict (field (codes "disk") disk_key (field (codes "fan") fan_key end)))
      (field (codes "resource_groups")
        (dict (
          field (codes "all") (list (cons (text (codes "fan")) (cons (text (codes "disk")) nil)))
            end))
        end))

abbrev fan_failed : DecisionModel
fan_failed = record {
  decision_id = codes "enclosure/0/fan/1/5";
  action = str failed;
  alert_time = text (codes "5");
}

abbrev disk_resolved : DecisionModel
disk_resolved = record {
  decision_id = codes "node/srvnode-1/disk/3/4";
  action = str resolved;
  alert_time = text (codes "4");
}

abbrev known : List DecisionModel
known = fan_failed ∷ disk_resolved ∷ []

abbrev members : List Value
members = text (codes "fan") ∷ text (codes "disk") ∷ []

group_known :
    group_members file decisions (text (codes "all"))
    ≡ ok (cons (text (codes "fan")) (cons (text (codes "disk")) nil))
unfolding group_members get_or lookup_by lookup ◌==◌ elements
group_known = refl

status_of_each :
    statuses file decisions decisions-IsReadOnly
      (cons (text (codes "fan")) (cons (text (codes "disk")) nil))
      known
    ≡ ok (str failed ∷ str resolved ∷ [])
unfolding statuses get_resource_status resource_key get_or lookup_by lookup ◌==◌ fetch query_key
    read_key keyword get_event_time create_decision_id texts join join_all kept starts_with
status_of_each = refl

get_resource_group_status-worst_example :
    get_resource_group_status file decisions (text (codes "all")) known
    ≡ (ok (worst (str failed ∷ str resolved ∷ [])), known)
get_resource_group_status-worst_example =
    get_resource_group_status-worst file decisions decisions-IsReadOnly (text (codes "all")) _ known
      _ group_known status_of_each

disk_found : resource_key file decisions (text (codes "disk")) ≡ ok disk_key
unfolding resource_key get_or lookup_by lookup ◌==◌
disk_found = refl

disk_status : (get_resource_status file decisions (text (codes "disk")) known).0 ≡ ok (str resolved)
unfolding get_resource_status resource_key get_or lookup_by lookup ◌==◌ fetch query_key read_key
    keyword get_event_time create_decision_id texts join join_all kept starts_with
disk_status = refl

abbrev disk_id : Text
disk_id = identifier (codes "node") (codes "srvnode-1") (codes "disk") (codes "3")

acknowledge_resource-verdict_example :
    ((str resolved ≡ str failed)
      × (false ≡ false)
      × (acknowledge_resource file decisions (text (codes "disk")) false known ≡ (ok tt, known)))
    ⊎ (((str resolved ≢ str failed) ⊎ (false ≡ true))
        × ((acknowledge_resource file decisions (text (codes "disk")) false known).0 ≡ ok tt)
        × ((decisions.get like disk_id true
              (acknowledge_resource file decisions (text (codes "disk")) false known).1).0
            ≡ ok [])
        × ((get_resource_status file decisions
              (text (codes "disk"))
              (acknowledge_resource file decisions (text (codes "disk")) false known).1).0
            ≡ ok (str fine)))
acknowledge_resource-verdict_example =
    acknowledge_resource-verdict file decisions decisions-IsReadOnly decisions-IsDeleting
      (text (codes "disk")) (str resolved) false (codes "node") (codes "srvnode-1") (codes "disk")
      (codes "3") disk_fields known disk_found disk_IsKey disk_status refl

abbrev schema : Value
schema = dict (
    field (codes "node:os:disk")
      (list (
        cons
          (dict (
            field (codes "alert_type") (text (codes "fault")) (
              field (codes "severity") (text (codes "critical"))
                (field (codes "action") (text failed) end))))
          nil))
      end)

abbrev alert : Value
alert = dict (
    field (codes "message")
      (dict (
        field (codes "sensor_response_type")
          (dict (
            field (codes "alert_type") (text (codes "fault")) (
              field (codes "severity") (text (codes "critical")) (
                field (codes "info")
                  (dict (
                    field (codes "resource_type") (text (codes "node:os:disk")) (
                      field (codes "resource_id") (text (codes "3")) (
                        field (codes "node_id") (text (codes "n1"))
                          (field (codes "event_time") (text (codes "6")) end)))))
                  end))))
          end))
      end)

abbrev cluster : Value
cluster =
    dict (field (codes "nodes") (dict (field (codes "n1") (text (codes "srvnode-1")) end)) end)

handle_alert-StoresOne_example :
    ((handle_alert cluster decisions schema alert known).0 ≡ ok tt)
    × (((handle_alert cluster decisions schema alert known).1 ≡ known)
        ⊎ ((action : Value) × (evaluate_alert schema alert ≡ ok action)
            × (is_null action ≡ false)
            × StoresOne cluster decisions action known
                (handle_alert cluster decisions schema alert known).1))
handle_alert-StoresOne_example = handle_alert-StoresOne cluster decisions schema alert known
