-- ===== src/Ha/Monitor/Acknowledged.antt =====
-- What is left of a resource that was acknowledged.
use cortx_utils.Base.{
  ◌==◌, ℕ, Text, codes, Bool, true, false, List, [], ◌∷◌, ◌++◌, none, some, if◌then◌else◌, ◌≡◌, ◌≢◌,
  ◌⊎◌, refl, ap, ◌∙◌, sym, inl, inr, arith, ok, err, Result, Bool-cases,
}
use cortx_utils.Base
use cortx_utils.Base.Exec.{continue}
use cortx_utils.Value.{Value, str, dict, Fields}
use cortx_utils.Value.Dict.{lookup, size}
use cortx_utils.Value.Compare.{value_eq, atom_eq}
use cortx_utils.Value.Compare.Laws.{value_eq-str}
use cortx_utils.Ha.Names.{entity, entity_id, component, component_id, failed, fine}
use cortx_utils.Ha.Decisions.{
  Storage, ResourceKey, like, get_event_time, delete_event, create_decision_id, texts, join,
  join_all, parts,
}
use cortx_utils.Ha.Monitor.{
  read_key, keyword, query_key, delete_key, fetch, remove_events, resource_key, get_resource_status,
  is_failed, acknowledge_resource, try_acknowledge,
}
use cortx_utils.Ha.Monitor.Laws.{IsReadOnly, status_known}

-- What the storage promises of its deletions: what was selected is not there any more.
pub record IsDeleting (D : Storage) : Type 0 where
  pub gone :
      (id : Text) (sorted : Bool) (w : D.World)
      → (D.delete like id w).0 ≡ ok tt
      → (D.get like id sorted (D.delete like id w).1).0 ≡ ok []

-- A dict of the four parts of a key, all of them texts.
pub record IsKey (fs : Fields) (e e_id part part_id : Text) : Type 0 where
  pub four : size fs ≡ 4
  pub no_order : lookup (codes "sort_by") fs ≡ none
  pub same_entity : lookup entity fs ≡ some (str e)
  pub same_entity_id : lookup entity_id fs ≡ some (str e_id)
  pub same_component : lookup component fs ≡ some (str part)
  pub same_component_id : lookup component_id fs ≡ some (str part_id)

-- How the identifiers of the decisions on a resource begin.
abbrev pub identifier : Text → Text → Text → Text → Text
identifier e e_id part part_id = e ++ b'/' ∷ (e_id ++ b'/' ∷ (part ++ b'/' ∷ part_id))

keyword_lem : (k : Text) (fs : Fields) (v : Value) → lookup k fs ≡ some v → keyword k fs ≡ ok v
unfolding keyword
keyword_lem k fs v found = rw (found, keyword) refl

module _ (e e_id part part_id : Text) (fs : Fields) (K : IsKey fs e e_id part part_id) where
  key_read : ResourceKey
  key_read = record {
    entity = str e;
    entity_id = str e_id;
    component = str part;
    component_id = str part_id;
  }

  read_key_lem : read_key (dict fs) ≡ ok key_read
  unfolding read_key key_read
  read_key_lem =
      rw (keyword_lem entity fs _ K.same_entity, Base.◌>>=◌)
        (rw (keyword_lem entity_id fs _ K.same_entity_id, Base.◌>>=◌)
          (rw (keyword_lem component fs _ K.same_component, Base.◌>>=◌)
            (rw (keyword_lem component_id fs _ K.same_component_id, Base.◌>>=◌) refl)))

  identifier_made : create_decision_id (parts key_read) ≡ ok (identifier e e_id part part_id)
  unfolding create_decision_id texts join_all join key_read
  identifier_made = refl

  query_key_lem : query_key (dict fs) ≡ ok key_read
  unfolding query_key
  query_key_lem = rw (K.no_order, query_key) read_key_lem

  module _ (file : Value) (D : Storage) (w : D.World) where
    remove_events_lem :
        remove_events file D (dict fs) w ≡ D.delete like (identifier e e_id part part_id) w
    unfolding remove_events delete_key delete_event
    remove_events_lem = rw (K.four) (rw read_key_lem (rw identifier_made refl))

    fetch_none :
        (D.get like (identifier e e_id part part_id) true w).0 ≡ ok []
        → (fetch file D (dict fs) w).0 ≡ ok (str fine)
    unfolding fetch get_event_time
    fetch_none nothing =
        rw (query_key_lem, continue) (rw (identifier_made, continue) (rw (nothing, continue) refl))

failed_is_failed : value_eq (str failed) (str failed) ≡ true
unfolding value_eq atom_eq ◌==◌
failed_is_failed = refl

module _ (file : Value) (D : Storage) (R : IsReadOnly D) (G : IsDeleting D) where
  acknowledge_resource_lem :
      (r key v : Value) (force : Bool) (w : D.World)
      → resource_key file D r ≡ ok key
      → (get_resource_status file D r w).0 ≡ ok v
      → acknowledge_resource file D r force w ≡ (
        ok tt,
        if is_failed file D v
            then (if force then (remove_events file D key w).1 else w)
            else (remove_events file D key w).1,
      )
  unfolding acknowledge_resource try_acknowledge
  acknowledge_resource_lem r key v true w found known = rw (found, continue) (ground arith)
  acknowledge_resource_lem r key v false w found known =
      rw (found, continue) (rw (status_known file D R r v w known) (ground arith))

  -- The state after the deletion of the decisions on a resource.
  removed_lem :
      (r : Value) (e e_id part part_id : Text) (fs : Fields) (w : D.World)
      → resource_key file D r ≡ ok (dict fs)
      → IsKey fs e e_id part part_id
      → (D.delete like (identifier e e_id part part_id) w).0 ≡ ok tt
      → ((D.get like (identifier e e_id part part_id) true (remove_events file D (dict fs) w).1).0
          ≡ ok [])
        × ((get_resource_status file D r (remove_events file D (dict fs) w).1).0 ≡ ok (str fine))
  unfolding get_resource_status
  removed_lem r e e_id part part_id fs w found K deleted =
      let removed = remove_events_lem e e_id part part_id fs K file D w in
      let nothing = G.gone (identifier e e_id part part_id) true w deleted in
      rw removed (
        nothing,
        rw (found, continue) (rw (fetch_none e e_id part part_id fs K file D _ nothing) refl),
      )

  acknowledged :
      (r : Value) (e e_id part part_id : Text) (fs : Fields) (w : D.World)
      → resource_key file D r ≡ ok (dict fs)
      → IsKey fs e e_id part part_id
      → (D.delete like (identifier e e_id part part_id) w).0 ≡ ok tt
      → (end : Result (Unit {0}) × D.World) → end ≡ (ok tt, (remove_events file D (dict fs) w).1)
      → (end.0 ≡ ok tt)
        × ((D.get like (identifier e e_id part part_id) true end.1).0 ≡ ok [])
        × ((get_resource_status file D r end.1).0 ≡ ok (str fine))
  acknowledged r e e_id part part_id fs w found K deleted end same =
      let (nothing, status) = removed_lem r e e_id part part_id fs w found K deleted in
      rw same (refl, nothing, status)

  -- To acknowledge a resource returns, where its key has four texts for its parts, queries leave
  -- what is stored, a query finds nothing of what was deleted, the status can be read, and the
  -- deletion of the decisions on the resource succeeds. If the status is `FAILED` and force is not
  -- used, nothing is changed. Otherwise a query by the identifier of the resource finds no decision
  -- any more, and the status of the resource is `OK`.
  pub acknowledge_resource-verdict :
      (r v : Value) (force : Bool) (e e_id part part_id : Text) (fs : Fields) (w : D.World)
      → resource_key file D r ≡ ok (dict fs)
      → IsKey fs e e_id part part_id
      → (get_resource_status file D r w).0 ≡ ok v
      → (D.delete like (identifier e e_id part part_id) w).0 ≡ ok tt
      → ((v ≡ str failed) × (force ≡ false) × (acknowledge_resource file D r force w ≡ (ok tt, w)))
        ⊎ (((v ≢ str failed) ⊎ (force ≡ true))
            × ((acknowledge_resource file D r force w).0 ≡ ok tt)
            × ((D.get like
                  (identifier e e_id part part_id)
                  true
                  (acknowledge_resource file D r force w).1).0
                ≡ ok [])
            × ((get_resource_status file D r (acknowledge_resource file D r force w).1).0
                ≡ ok (str fine)))
  acknowledge_resource-verdict r v true e e_id part part_id fs w found K known deleted =
      let step = acknowledge_resource_lem r (dict fs) v true w found known in
      let (returns, nothing, status) =
        acknowledged r e e_id part part_id fs w found K deleted _ (ground arith) in
      inr (inr refl, returns, nothing, status)
  acknowledge_resource-verdict r v false e e_id part part_id fs w found K known deleted =
      let step = acknowledge_resource_lem r (dict fs) v false w found known in
      elim (Bool-cases (value_eq v (str failed))) [
        | inr good ↦
            let (returns, nothing, status) =
              acknowledged r e e_id part part_id fs w found K deleted _ (rw good at step) in
            inr (
              inl (λ is. absurd (let bad = failed_is_failed in ground (arith, rw is at good))),
              returns,
              nothing,
              status,
            )
        | inl bad ↦ inl (value_eq-str v failed bad, refl, rw bad at step)
      ]
