-- ===== src/Ha/Decisions.antt =====
-- `DecisionModel` (py-utils/src/utils/ha/dm/models/decisiondb.py) and `DecisionDB`
-- (py-utils/src/utils/ha/dm/repository/decisiondb.py), over the storage that it is given.
pub mod Laws
use cortx_utils.Base.{
  ℕ, Text, Bool, true, false, List, [], ◌∷◌, ◌++◌, Option, none, some, ◌≡◌, Result, ok, err,
  type_error,
}
use cortx_utils.Base.Exec.{Exec, lift, ◌>>=◌}
use cortx_utils.Value.{Value, str}

-- `alert_time` is kept as it comes in the alert.
pub record DecisionModel : Type 0 where
  pub decision_id : Text
  pub action : Value
  pub alert_time : Value

-- `"/".join(decision_payload)`
unfoldable pub join : Text → List Text → Text
join s [] = s
join s (t ∷ ts) = s ++ b'/' ∷ join t ts

-- `create_decision_id`: every part must be a text.
unfoldable pub texts : List Value → Result (List Text)
texts [] = ok []
texts (str s ∷ vs) = let rest = texts vs in elim rest [ ok ss ↦ ok (s ∷ ss) | err e ↦ err e ]
texts (v ∷ vs) = err type_error

unfoldable pub join_all : List Text → Text
join_all [] = []
join_all (s ∷ ss) = join s ss

unfoldable pub create_decision_id : List Value → Result Text
create_decision_id vs = elim (texts vs) [ ok ss ↦ ok (join_all ss) | err e ↦ err e ]

-- The comparisons that the queries make with the identifier.
pub data Comparison : Type 0 where
  equal like : Comparison

-- The storage of decisions: `store`, `get` with a comparison, sorted by the time of the alert with
-- the latest first if asked for, and `delete`.
pub record Storage : Type 1 where
  pub World : Type 0
  pub store : DecisionModel → Exec World (Unit {0})
  pub get : Comparison → Text → Bool → Exec World (List DecisionModel)
  pub delete : Comparison → Text → Exec World (Unit {0})

-- What a decision is about: `entity`, `entity_id`, `component`, `component_id`.
pub record ResourceKey : Type 0 where
  pub entity : Value
  pub entity_id : Value
  pub component : Value
  pub component_id : Value

abbrev pub parts : ResourceKey → List Value
parts k = k.entity ∷ k.entity_id ∷ k.component ∷ k.component_id ∷ []

module _ (D : Storage) where
  open D use {World}

  unfoldable pub store_event : ResourceKey → Value → Value → Exec World (Unit {0})
  store_event k time action = lift (create_decision_id (parts k ++ (time ∷ []))) >>= λ id.
      D.store (record { decision_id = id; action = action; alert_time = time })

  unfoldable pub get_event : ResourceKey → Value → Exec World (List DecisionModel)
  get_event k time =
      lift (create_decision_id (parts k ++ (time ∷ []))) >>= λ id. D.get equal id false

  -- With `sort_by` or without.
  unfoldable pub get_event_time : ResourceKey → Bool → Exec World (List DecisionModel)
  get_event_time k sorted = lift (create_decision_id (parts k)) >>= λ id. D.get like id sorted

  unfoldable pub delete_event : ResourceKey → Exec World (Unit {0})
  delete_event k = lift (create_decision_id (parts k)) >>= D.delete like
