-- ===== src/Iem.antt =====
-- `EventMessage` (py-utils/src/utils/iem_framework/event_message.py): interesting events are sent as
-- JSON over the message bus, which is an interface here.
pub mod Shape
pub mod Laws
use cortx_utils.Base.{
  ℕ, Text, codes, Bool, true, false, Option, none, some, [], ◌∷◌, if◌then◌else◌, Result, ok, err,
  event_error, einval, not_initialized, eperm, ◌||◌,
}
use cortx_utils.Base.Exec.{Exec, pure, raise, lift, ◌>>=◌, ◌>>◌}
use cortx_utils.Value.Compare.{is_null}
use cortx_utils.Value.{Value, null, int, str, dict, pos, Fields, end, field}
use cortx_utils.Value.Access.{lookup_by}
use cortx_utils.Activity.Checks.{Json}

abbrev pub severity_levels : Fields
severity_levels = field (codes "A") (str (codes "alert")) (
    field (codes "X") (str (codes "critical")) (
      field (codes "E") (str (codes "error")) (
        field (codes "W") (str (codes "warning")) (
          field (codes "N") (str (codes "notice")) (
            field (codes "C") (str (codes "configuration")) (
              field (codes "I") (str (codes "informational")) (
                field (codes "D") (str (codes "detail"))
                  (field (codes "B") (str (codes "debug")) end))))))))

abbrev pub sources : Fields
sources = field (codes "H") (str (codes "Hardware")) (
    field (codes "S") (str (codes "Software"))
      (field (codes "F") (str (codes "Firmware")) (field (codes "O") (str (codes "OS")) end)))

-- The attributes of the class, with whether there is a producer and a consumer.
pub record EventMessage : Type 0 where
  pub component : Value
  pub source : Value
  pub cluster_id : Value
  pub node_id : Value
  pub producer : Bool
  pub consumer : Bool

-- The message bus: to connect to it, with a producer or a consumer, to send, and to receive.
pub record Bus : Type 1 where
  pub World : Type 0
  pub produce : Text → Exec World (Unit {0})
  pub consume : Text → Value → Exec World (Unit {0})
  pub send : Text → Exec World (Unit {0})
  pub receive : Exec World (Option Text)

-- What a caller of `send` gives; `null` stands for what is left out.
pub record Event : Type 0 where
  pub module_name : Value
  pub event_id : Value
  pub severity : Value
  pub message_blob : Value
  pub problem_cluster_id : Value
  pub problem_site_id : Value
  pub problem_rack_id : Value
  pub problem_node_id : Value
  pub problem_host : Value
  pub event_time : Value

-- `a if a is not None else b`
abbrev pub given_or : Value → Value → Value
given_or b null = b
given_or b a = a

-- `cls._site_id` and `cls._rack_id`
abbrev pub one : Value
one = int (pos 1)

-- The attributes that must not be `None`, with what stands for those left out.
unfoldable pub lacks : EventMessage → Event → Bool
lacks c e =
    is_null e.module_name
    || is_null e.event_id
    || is_null e.message_blob
    || is_null (given_or one e.problem_site_id)
    || is_null (given_or one e.problem_rack_id)
    || is_null (given_or c.node_id e.problem_node_id)
    || is_null (given_or c.cluster_id e.problem_cluster_id)

abbrev pub info : Value → Value → Value → Value
info level kind time = dict (
    field (codes "severity") level
      (field (codes "type") kind (field (codes "event_time") time end)))

abbrev pub location : EventMessage → Event → Value → Value
location c e host = dict (
    field (codes "cluster_id") (given_or c.cluster_id e.problem_cluster_id) (
      field (codes "site_id") (given_or one e.problem_site_id) (
        field (codes "rack_id") (given_or one e.problem_rack_id) (
          field (codes "node_id") (given_or c.node_id e.problem_node_id)
            (field (codes "host") (given_or host e.problem_host) end)))))

abbrev pub sender : EventMessage → Event → Value
sender c e = dict (
    field (codes "site_id") one (
      field (codes "rack_id") one (
        field (codes "node_id") c.node_id
          (field (codes "component") c.component (field (codes "module") e.module_name end)))))

abbrev pub contents : Event → Value
contents e = dict (field (codes "event") e.event_id (field (codes "message") e.message_blob end))

-- The alert, with the names of the severity and of the source.
abbrev pub alert : EventMessage → Event → Value → Value → Value → Value → Value
alert c e host now level kind = dict (
    field (codes "iem")
      (dict (
        field (codes "version") (str (codes "1")) (
          field (codes "info") (info level kind (given_or now e.event_time)) (
            field (codes "location") (location c e host)
              (field (codes "source") (sender c e) (field (codes "contents") (contents e) end))))))
      end)

module _ (J : Json) (B : Bus) where
  abbrev pub State : Type 0
  State = EventMessage × B.World

  abbrev pub on_bus : {A : Type 0} → Exec B.World A → Exec State A
  on_bus f (c, w) = let (r, w') = f w in (r, (c, w'))

  -- `init`: the attributes are set before they are checked.
  unfoldable pub init : Value → Value → Value → Value → Text → Exec State (Unit {0})
  init component source cluster_id machine_id endpoints (c, w) =
      let set : EventMessage = record c {
        component = component;
        source = source;
        cluster_id = cluster_id;
        node_id = machine_id;
      } in
      if is_null component
      then (err (event_error einval), (set, w))
      else elim (lookup_by source sources) [
        | err e ↦ (err e, (set, w))
        | ok none ↦ (err (event_error einval), (set, w))
        | ok (some kind) ↦
            let (r, w') = B.produce endpoints w in
            elim r [
              | ok _ ↦ (ok tt, (record set { producer = true }, w'))
              | err e ↦ (err e, (set, w'))
            ]
      ]

  -- The names of the severity and of the source, once the attributes are checked.
  unfoldable pub named : EventMessage → Event → Result (Value × Value)
  named c e =
      if lacks c e then err (event_error einval) else elim (lookup_by e.severity severity_levels) [
        | err raised ↦ err raised
        | ok none ↦ err (event_error einval)
        | ok (some level) ↦ elim (lookup_by c.source sources) [
          | ok (some kind) ↦ ok (level, kind)
          | ok none ↦ err (event_error einval)
          | err raised ↦ err raised
        ]
      ]

  -- `send`, with the name of the host and the time.
  unfoldable pub send : Event → Value → Value → Exec State (Unit {0})
  send e host now (c, w) =
      if c.producer
      then (lift (named c e) >>= λ n. on_bus (B.send (J.dumps (alert c e host now n.0 n.1)))) (c, w)
      else (err (event_error not_initialized), (c, w))

  unfoldable pub subscribe : Value → Text → Exec State (Unit {0})
  subscribe component endpoints (c, w) =
      if is_null component
      then (err (event_error einval), (c, w))
      else (let (r, w') = B.consume endpoints component w in
          elim r [ ok _ ↦ (ok tt, (record c { consumer = true }, w')) | err e ↦ (err e, (c, w')) ])

  -- What `receive` makes of a message: `None` if there is none.
  unfoldable pub decode : Option Text → Result Value
  decode none = ok null
  decode (some t) = elim (J.loads t) [ none ↦ err (event_error eperm) | some v ↦ ok v ]

  unfoldable pub receive : Exec State Value
  receive (c, w) =
      if c.consumer
      then (on_bus B.receive >>= λ o. lift (decode o)) (c, w)
      else (err (event_error not_initialized), (c, w))
