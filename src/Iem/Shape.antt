-- ===== src/Iem/Shape.antt =====
-- What an alert says, read by its keys.
use cortx_utils.Base.{
  Text, codes, List, [], ◌∷◌, Option, none, some, ◌≡◌, ◌≢◌, refl, ok, Bool, ◌||◌, arith, ◌==◌, true,
  false,
}
use cortx_utils.Value.{Value, null, int, str, dict, pos}
use cortx_utils.Value.Dict.{lookup}
use cortx_utils.Value.Compare.{is_null}
use cortx_utils.Value.Access.{lookup_by}
use cortx_utils.Activity.Checks.{Json}
use cortx_utils.Iem.{
  EventMessage, Bus, Event, alert, named, lacks, severity_levels, sources, given_or,
}

-- `v[k1][k2]…`, if it is there.
unfoldable pub at_keys : List Text → Value → Option Value
at_keys [] v = some v
at_keys (k ∷ ks) (dict fs) = elim (lookup k fs) [ none ↦ none | some v ↦ at_keys ks v ]
at_keys (k ∷ ks) v = none

-- The value that was given, or what stands for it if none was.
pub data StandsFor (given default : Value) : Value → Type 0 where
  itself : given ≢ null → StandsFor given default given
  instead : given ≡ null → StandsFor given default default

-- The alert has such a value under the keys.
abbrev pub Has : Value → List Text → Value → Type 0
Has v ks u = at_keys ks v ≡ some u

abbrev pub HasFor : Value → List Text → Value → Value → Type 0
HasFor v ks given default = (u : Value) × Has v ks u × StandsFor given default u

-- ... which is not `None`.
abbrev pub HasSome : Value → List Text → Value → Value → Type 0
HasSome v ks given default = (u : Value) × Has v ks u × StandsFor given default u × (u ≢ null)

abbrev pub iem : List Text → List Text
iem ks = codes "iem" ∷ ks

abbrev pub place : Text → List Text
place k = codes "iem" ∷ codes "location" ∷ k ∷ []

abbrev pub origin : Text → List Text
origin k = codes "iem" ∷ codes "source" ∷ k ∷ []

abbrev pub about : Text → List Text
about k = codes "iem" ∷ codes "info" ∷ k ∷ []

abbrev pub content : Text → List Text
content k = codes "iem" ∷ codes "contents" ∷ k ∷ []

-- The alert of an event that a class sends, with the name of the host and the time.
pub record IsAlertOf (c : EventMessage) (e : Event) (host now v : Value) : Type 0 where
  pub version : Has v (codes "iem" ∷ codes "version" ∷ []) (str (codes "1"))
  pub severity_name :
      (level : Value) × (lookup_by e.severity severity_levels ≡ ok (some level))
      × Has v (about (codes "severity")) level
  pub source_name :
      (kind : Value) × (lookup_by c.source sources ≡ ok (some kind))
      × Has v (about (codes "type")) kind
  pub time : HasFor v (about (codes "event_time")) e.event_time now
  pub cluster : HasSome v (place (codes "cluster_id")) e.problem_cluster_id c.cluster_id
  pub site : HasFor v (place (codes "site_id")) e.problem_site_id (int (pos 1))
  pub rack : HasFor v (place (codes "rack_id")) e.problem_rack_id (int (pos 1))
  pub node : HasSome v (place (codes "node_id")) e.problem_node_id c.node_id
  pub host_name : HasFor v (place (codes "host")) e.problem_host host
  pub own_site : Has v (origin (codes "site_id")) (int (pos 1))
  pub own_rack : Has v (origin (codes "rack_id")) (int (pos 1))
  pub own_node : Has v (origin (codes "node_id")) c.node_id
  pub component : Has v (origin (codes "component")) c.component
  pub module_name : Has v (origin (codes "module")) e.module_name × (e.module_name ≢ null)
  pub event : Has v (content (codes "event")) e.event_id × (e.event_id ≢ null)
  pub message : Has v (content (codes "message")) e.message_blob × (e.message_blob ≢ null)

given_or-StandsFor : (default given : Value) → StandsFor given default (given_or default given)
given_or-StandsFor default null = StandsFor.instead refl
given_or-StandsFor default given = StandsFor.itself (λ e. cc)

not_null : (v : Value) → is_null v ≡ false → v ≢ null
not_null null h = absurd cc
not_null _ h = λ e. cc

-- An event that is not refused lacks nothing, and its severity and the source are known.
record IsNamed (c : EventMessage) (e : Event) (level kind : Value) : Type 0 where
  has_module : is_null e.module_name ≡ false
  has_event : is_null e.event_id ≡ false
  has_message : is_null e.message_blob ≡ false
  has_node : is_null (given_or c.node_id e.problem_node_id) ≡ false
  has_cluster : is_null (given_or c.cluster_id e.problem_cluster_id) ≡ false
  has_level : lookup_by e.severity severity_levels ≡ ok (some level)
  has_kind : lookup_by c.source sources ≡ ok (some kind)

neither : (a b : Bool) → (a || b) ≡ false → (a ≡ false) × (b ≡ false)
neither false b h = (refl, h)
neither true b h = absurd cc

named-lacks :
    (J : Json) (B : Bus) (c : EventMessage) (e : Event) (level kind : Value)
    → named J B c e ≡ ok (level, kind)
    → (lacks c e ≡ false)
      × (lookup_by e.severity severity_levels ≡ ok (some level))
      × (lookup_by c.source sources ≡ ok (some kind))
unfolding named
named-lacks J B c e level kind h = (ground arith, ground arith, ground arith)

named-IsNamed :
    (J : Json) (B : Bus) (c : EventMessage) (e : Event) (level kind : Value)
    → named J B c e ≡ ok (level, kind)
    → IsNamed c e level kind
unfolding lacks
named-IsNamed J B c e level kind h =
    let (whole, has_level, has_kind) = named-lacks J B c e level kind h in
    let (h1, has_cluster) = neither _ _ whole in
    let (h2, has_node) = neither _ _ h1 in
    let (h3, _) = neither _ _ h2 in
    let (h4, _) = neither _ _ h3 in
    let (h5, has_message) = neither _ _ h4 in
    let (has_module, has_event) = neither _ _ h5 in
    record {
      has_module = has_module;
      has_event = has_event;
      has_message = has_message;
      has_node = has_node;
      has_cluster = has_cluster;
      has_level = has_level;
      has_kind = has_kind;
    }

-- An event that is not refused has the alert that is made of it.
pub alert-IsAlertOf :
    (J : Json) (B : Bus) (c : EventMessage) (e : Event) (host now level kind : Value)
    → named J B c e ≡ ok (level, kind)
    → IsAlertOf c e host now (alert c e host now level kind)
unfolding at_keys lookup ◌==◌
alert-IsAlertOf J B c e host now level kind h =
    let known = named-IsNamed J B c e level kind h in
    record {
      version = refl;
      severity_name = (level, known.has_level, refl);
      source_name = (kind, known.has_kind, refl);
      time = (_, refl, given_or-StandsFor now e.event_time);
      cluster = (
        _,
        refl,
        given_or-StandsFor c.cluster_id e.problem_cluster_id,
        not_null _ known.has_cluster,
      );
      site = (_, refl, given_or-StandsFor _ e.problem_site_id);
      rack = (_, refl, given_or-StandsFor _ e.problem_rack_id);
      node = (_, refl, given_or-StandsFor c.node_id e.problem_node_id, not_null _ known.has_node);
      host_name = (_, refl, given_or-StandsFor host e.problem_host);
      own_site = refl;
      own_rack = refl;
      own_node = refl;
      component = refl;
      module_name = (refl, not_null _ known.has_module);
      event = (refl, not_null _ known.has_event);
      message = (refl, not_null _ known.has_message);
    }
