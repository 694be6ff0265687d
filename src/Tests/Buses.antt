-- ===== src/Tests/Buses.antt =====
-- Endpoints, and clients of a broker that keeps what it was sent.
use cortx_utils.Base.{
  ◌+◌, Text, codes, List, [], ◌∷◌, true, ok, err, bus_error, einval, ◌≡◌, refl, ◌⊎◌,
}
use cortx_utils.Base.Exec.{pure}
use cortx_utils.Key.Words.{split_two}
use cortx_utils.Value.{Value, null, str, list, nil}
use cortx_utils.Payload.{KvPayload}
use cortx_utils.MessageBus.Servers.{
  Server, read_server, has_char, split_char, pair_of, endpoint_of, references, collect,
  get_server_list,
}
use cortx_utils.MessageBus.Servers.Laws.{length, replicate, get_server_list_repeats}
use cortx_utils.MessageBus.Clients.{
  Broker, Message, text, other, producer_conf, consumer_conf, new_client, new_producer,
  new_consumer, send,
}
use cortx_utils.MessageBus.Clients.Laws.{AreTexts, message_texts, producer-send}

abbrev first : Text
first = codes "https://node-1:29092"

abbrev second : Text
second = codes "node-2"

abbrev node_2 : Server
node_2 = record { server = second; port = codes "9092" }

both_read : get_server_list (first ∷ second ∷ []) ≡ ok (node_2 ∷ node_2 ∷ [])
unfolding get_server_list collect references read_server has_char endpoint_of pair_of split_char
    split_two
both_read = refl

second_read : read_server second ≡ ok node_2
unfolding read_server has_char
second_read = refl

get_server_list_repeats_example :
    (node_2 ∷ node_2 ∷ []) ≡ replicate (length (first ∷ []) + 1) node_2
get_server_list_repeats_example =
    get_server_list_repeats (first ∷ []) second node_2 (node_2 ∷ node_2 ∷ []) second_read both_read

-- What was sent, each with the type.
abbrev Sent : Type 0
Sent = List (Value × List Text)

abbrev keeping : Broker
keeping = record {
  World = Sent;
  init_client = λ client_type conf. pure tt;
  list_message_types = λ id. pure (list nil);
  register_message_type = λ id types partitions. pure tt;
  deregister_message_type = λ id types. pure tt;
  add_concurrency = λ id type count. pure tt;
  send = λ id type how ts sent. (ok tt, (type, ts) ∷ sent);
  delete = λ id type. pure null;
  set_message_type_expire = λ id type kwargs. pure null;
  receive = λ id timeout. pure null;
  ack = λ id. pure tt;
}

abbrev no_json : KvPayload → Text
no_json p = []

abbrev p1 : Value
p1 = str (codes "p1")

abbrev alerts : Value
alerts = str (codes "alerts")

abbrev sync : Value
sync = str (codes "sync")

producer_made :
    new_producer no_json keeping true p1 alerts sync [] ≡ (ok (producer_conf p1 alerts sync), [])
unfolding new_producer new_client
producer_made = refl

consumer_made :
    new_consumer no_json keeping true p1 sync alerts sync sync []
    ≡ (ok (consumer_conf p1 sync alerts sync sync), [])
unfolding new_consumer new_client
consumer_made = refl

abbrev messages : List Message
messages = text (codes "fan failed") ∷ other null ∷ []

producer-send_example :
    (AreTexts messages
      × (send no_json keeping true messages (producer_conf p1 alerts sync) []
          ≡ (ok tt, (alerts, message_texts no_json messages) ∷ [])))
    ⊎ ((AreTexts messages → ⊥)
        × (send no_json keeping true messages (producer_conf p1 alerts sync) []
            ≡ (err (bus_error einval), [])))
producer-send_example =
    producer-send no_json keeping p1 alerts sync messages (producer_conf p1 alerts sync) [] []
      producer_made
