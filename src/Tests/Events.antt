-- ===== src/Tests/Events.antt =====
-- An event on a bus that keeps the messages in a list.
use cortx_utils.Base.{
  Text, true, codes, Option, none, some, List, [], ◌∷◌, ◌++◌, ◌≡◌, refl, ok, Result, ◌==◌,
}
use cortx_utils.Value.{Value, null, int, str, pos}
use cortx_utils.Value.Dict.{lookup}
use cortx_utils.Value.Access.{lookup_by}
use cortx_utils.Iem
use cortx_utils.Iem.{EventMessage, Bus, Event, named, lacks}
use cortx_utils.Iem.Shape.{IsAlertOf}
use cortx_utils.Iem.Laws.{IsDelivered, receive-send}
use cortx_utils.Tests.Codec.{codec, codec-IsExactJson}

abbrev take_first : List Text → Result (Option Text) × List Text
take_first [] = (ok none, [])
take_first (t ∷ ts) = (ok (some t), ts)

abbrev queue : Bus
queue = record {
  World = List Text;
  produce = λ endpoints w. (ok tt, w);
  consume = λ endpoints group w. (ok tt, w);
  send = λ t w. (ok tt, w ++ (t ∷ []));
  receive = take_first;
}

queue-IsDelivered : IsDelivered queue []
queue-IsDelivered = record { received = λ t done. refl }

abbrev sspl : EventMessage
sspl = record {
  component = str (codes "SSPL");
  source = str (codes "H");
  cluster_id = str (codes "c1");
  node_id = str (codes "n1");
  producer = true;
  consumer = true;
}

abbrev fan : Event
fan = record {
  module_name = str (codes "fan");
  event_id = str (codes "500");
  severity = str (codes "X");
  message_blob = str (codes "stopped");
  problem_cluster_id = null;
  problem_site_id = null;
  problem_rack_id = null;
  problem_node_id = str (codes "n2");
  problem_host = null;
  event_time = int (pos 7);
}

abbrev host : Value
host = str (codes "host")

fan_sent : (Iem.send codec queue fan host null (sspl, [])).0 ≡ ok tt
unfolding Iem.send named lacks lookup_by lookup ◌==◌
fan_sent = refl

receive-send_example :
    (v : Value) × ((Iem.receive codec queue (Iem.send codec queue fan host null (sspl, [])).1).0
      ≡ ok v)
    × IsAlertOf sspl fan host null v
receive-send_example =
    receive-send codec queue fan host null sspl [] codec-IsExactJson queue-IsDelivered refl refl
      fan_sent
