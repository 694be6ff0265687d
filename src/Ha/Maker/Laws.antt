-- ===== src/Ha/Maker/Laws.antt =====
-- What an alert may leave in the storage.
use cortx_utils.Base.{
  Text, false, ◌≡◌, refl, ◌⊎◌, inl, inr, ok, Result-cases, Bool-cases, [], ◌∷◌, ◌++◌,
}
use cortx_utils.Base.Exec.{continue}
use cortx_utils.Value.{Value, dict, Fields}
use cortx_utils.Value.Compare.{is_null, is_truthy}
use cortx_utils.Value.Access.{get, item}
use cortx_utils.Ha.Names.{message, sensor_res_type, event_time}
use cortx_utils.Ha.Rules.{evaluate_alert}
use cortx_utils.Ha.Alerts.{set_db_key_info}
use cortx_utils.Ha.Decisions.{Storage, ResourceKey, store_event, create_decision_id, parts}
use cortx_utils.Ha.Maker.{store_info, store_action, stored_key, handle_alert}

module _ (conf : Value) (D : Storage) where
  -- The storage is as it was, or one decision for the action was stored.
  abbrev pub StoresOne : Value → D.World → D.World → Type 0
  StoresOne action w u =
      (u ≡ w)
      ⊎ ((id : Text) × (time : Value) × (u
            ≡ (D.store (record { decision_id = id; action = action; alert_time = time }) w).1))

  store_event-StoresOne :
      (k : ResourceKey) (time action : Value) (w : D.World)
      → StoresOne action w (store_event D k time action w).1
  unfolding store_event
  store_event-StoresOne k time action w =
      elim (Result-cases (create_decision_id (parts k ++ (time ∷ [])))) [
        | inl (id, made) ↦ inr (id, time, rw (made, continue) refl)
        | inr (e, raised) ↦ inl (rw (raised, continue) refl)
      ]

  store_info-StoresOne :
      (fs : Fields) (action : Value) (w : D.World)
      → StoresOne action w (store_info conf D fs action w).1
  unfolding store_info
  store_info-StoresOne fs action w = elim (Bool-cases (is_truthy (dict fs))) [
    | inl some_ ↦ rw some_ (elim (Result-cases (stored_key fs)) [
      | inl (k, read) ↦
          rw (read, continue)
            (elim (Result-cases (item event_time (dict fs))) [
              | inl (time, timed) ↦ rw (timed, continue) (store_event-StoresOne k time action w)
              | inr (e, raised) ↦ rw (raised, continue) (inl refl)
            ])
      | inr (e, raised) ↦ rw (raised, continue) (inl refl)
    ])
    | inr none_ ↦ rw none_ (inl refl)
  ]

  store_action-StoresOne :
      (alert action : Value) (w : D.World)
      → StoresOne action w (store_action conf D alert action w).1
  unfolding store_action
  store_action-StoresOne alert action w = elim (Result-cases (get message alert)) [
    | inl (body, read) ↦
        rw (read, continue)
          (elim (Result-cases (get sensor_res_type body)) [
            | inl (sr, sensed) ↦
                rw (sensed, continue)
                  (elim (Result-cases (set_db_key_info conf sr)) [
                    | inl (fs, keyed) ↦ rw (keyed, continue) (store_info-StoresOne fs action w)
                    | inr (e, raised) ↦ rw (raised, continue) (inl refl)
                  ])
            | inr (e, raised) ↦ rw (raised, continue) (inl refl)
          ])
    | inr (e, raised) ↦ rw (raised, continue) (inl refl)
  ]

  -- To handle an alert, whatever it holds, returns, and leaves the storage as it was or stores one
  -- decision, whose action is the one that the rules give for the alert, and not `None`.
  pub handle_alert-StoresOne :
      (schema alert : Value) (w : D.World)
      → ((handle_alert conf D schema alert w).0 ≡ ok tt)
        × (((handle_alert conf D schema alert w).1 ≡ w)
            ⊎ ((action : Value) × (evaluate_alert schema alert ≡ ok action)
                × (is_null action ≡ false)
                × StoresOne action w (handle_alert conf D schema alert w).1))
  unfolding handle_alert
  handle_alert-StoresOne schema alert w = (
    refl,
    elim (Bool-cases (is_null alert)) [
      | inl none_ ↦ inl (rw none_ refl)
      | inr some_ ↦ rw some_ (elim (Result-cases (evaluate_alert schema alert)) [
        | inl (action, chosen) ↦
            rw (chosen, continue)
              (elim (Bool-cases (is_null action)) [
                | inl none_ ↦ inl (rw none_ refl)
                | inr act ↦ inr (action, refl, act, rw act (store_action-StoresOne alert action w))
              ])
        | inr (e, raised) ↦ inl (rw (raised, continue) refl)
      ])
    ],
  )
