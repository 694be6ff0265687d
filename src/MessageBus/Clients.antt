-- ===== src/MessageBus/Clients.antt =====
-- `MessageBus` (py-utils/src/utils/message_bus/message_bus.py) and its clients
-- (py-utils/src/utils/message_bus/message_bus_client.py), over an interface to the broker.
pub mod Laws
use cortx_utils.Base.{
  Text, codes, List, [], ◌∷◌, Bool, true, false, Option, none, some, Result, ok, err,
  attribute_error, bus_error, enoent, einval, not_initialized,
}
use cortx_utils.Base
use cortx_utils.Base.Exec.{Exec, lift, raise, pure, ◌>>=◌, ◌>>◌}
use cortx_utils.Value.{Value, str, Fields, end, field}
use cortx_utils.Value.Dict.{lookup}
use cortx_utils.Payload.{KvPayload}

-- A broker: `init_client`, `list_message_types`, and so on.
pub record Broker : Type 1 where
  pub World : Type 0
  pub init_client : Text → Fields → Exec World (Unit {0})
  pub list_message_types : Value → Exec World Value
  pub register_message_type : Value → Value → Value → Exec World (Unit {0})
  pub deregister_message_type : Value → Value → Exec World (Unit {0})
  pub add_concurrency : Value → Value → Value → Exec World (Unit {0})
  pub send : Value → Value → Value → List Text → Exec World (Unit {0})
  pub delete : Value → Value → Exec World Value
  pub set_message_type_expire : Value → Value → Fields → Exec World Value
  pub receive : Value → Value → Exec World Value
  pub ack : Value → Exec World (Unit {0})

-- A message: a payload, a text, or what is neither.
pub data Message : Type 0 where
  payload : KvPayload → Message
  text : Text → Message
  other : Value → Message

abbrev pub client_id : Text
client_id = codes "client_id"

abbrev pub message_type : Text
message_type = codes "message_type"

abbrev pub method : Text
method = codes "method"

-- `_get_conf`
unfoldable pub get_conf : Text → Fields → Result Value
get_conf k conf = elim (lookup k conf) [ none ↦ err (bus_error enoent) | some v ↦ ok v ]

-- The configurations that the clients are made with.
abbrev pub admin_conf : Value → Fields
admin_conf id = field client_id id end

abbrev pub producer_conf : Value → Value → Value → Fields
producer_conf id type how = field client_id id (field message_type type (field method how end))

abbrev pub consumer_conf : Value → Value → Value → Value → Value → Fields
consumer_conf id group types auto_ack offset = field client_id id (
    field (codes "consumer_group") group (
      field (codes "message_types") types
        (field (codes "auto_ack") auto_ack (field (codes "offset") offset end))))

-- `json` of a payload is an argument.
module _ (json : KvPayload → Text) where
  -- `_get_str_message_list`
  unfoldable pub get_str_message_list : List Message → Result (List Text)
  get_str_message_list [] = ok []
  get_str_message_list (payload p ∷ ms) =
      Base.◌>>=◌ (get_str_message_list ms) λ ts. ok (json p ∷ ts)
  get_str_message_list (text t ∷ ms) = Base.◌>>=◌ (get_str_message_list ms) λ ts. ok (t ∷ ts)
  get_str_message_list (other v ∷ ms) = err (bus_error einval)

  -- The broker, and whether `init` has set it.
  module _ (B : Broker) (is_set : Bool) where
    open B use {World}

    -- A call of `MessageBus._broker`, which is `None` before.
    unfoldable pub on_broker : {A : Type 0} → Exec World A → Exec World A
    on_broker call = elim is_set [ true ↦ call | false ↦ raise attribute_error ]

    -- `MessageBusClient.__init__` with `MessageBus.init_client`: the configuration of the client.
    unfoldable pub new_client : Text → Fields → Exec World Fields
    new_client client_type conf = elim is_set [
      | true ↦ B.init_client client_type conf >> pure conf
      | false ↦ raise (bus_error not_initialized)
    ]

    -- `MessageBusAdmin`, `MessageProducer` and `MessageConsumer`
    unfoldable pub new_admin : Value → Exec World Fields
    new_admin id = new_client (codes "admin") (admin_conf id)

    unfoldable pub new_producer : Value → Value → Value → Exec World Fields
    new_producer id type how = new_client (codes "producer") (producer_conf id type how)

    unfoldable pub new_consumer : Value → Value → Value → Value → Value → Exec World Fields
    new_consumer id group types auto_ack offset =
        new_client (codes "consumer") (consumer_conf id group types auto_ack offset)

    unfoldable pub list_message_types : Fields → Exec World Value
    list_message_types conf =
        lift (get_conf client_id conf) >>= λ id. on_broker (B.list_message_types id)

    unfoldable pub register_message_type : Value → Value → Fields → Exec World (Unit {0})
    register_message_type types partitions conf = lift (get_conf client_id conf) >>= λ id.
        on_broker (B.register_message_type id types partitions)

    unfoldable pub deregister_message_type : Value → Fields → Exec World (Unit {0})
    deregister_message_type types conf =
        lift (get_conf client_id conf) >>= λ id. on_broker (B.deregister_message_type id types)

    unfoldable pub add_concurrency : Value → Value → Fields → Exec World (Unit {0})
    add_concurrency type count conf =
        lift (get_conf client_id conf) >>= λ id. on_broker (B.add_concurrency id type count)

    unfoldable pub send : List Message → Fields → Exec World (Unit {0})
    send messages conf = lift (get_conf message_type conf) >>= λ type.
        lift (get_conf method conf) >>= λ how. lift (get_conf client_id conf) >>= λ id.
        lift (get_str_message_list messages) >>= λ ts. on_broker (B.send id type how ts)

    unfoldable pub delete : Fields → Exec World Value
    delete conf = lift (get_conf message_type conf) >>= λ type.
        lift (get_conf client_id conf) >>= λ id. on_broker (B.delete id type)

    unfoldable pub set_message_type_expire : Value → Fields → Fields → Exec World Value
    set_message_type_expire type kwargs conf = lift (get_conf client_id conf) >>= λ id.
        on_broker (B.set_message_type_expire id type kwargs)

    unfoldable pub receive : Value → Fields → Exec World Value
    receive timeout conf = lift (get_conf client_id conf) >>= λ id. on_broker (B.receive id timeout)

    unfoldable pub ack : Fields → Exec World (Unit {0})
    ack conf = lift (get_conf client_id conf) >>= λ id. on_broker (B.ack id)
