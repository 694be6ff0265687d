-- ===== src/MessageBus/Clients/Laws.antt =====
-- Which client may send, and what.
use cortx_utils.Base.{
  Text, codes, List, [], ◌∷◌, Bool, true, Result, ok, err, bus_error, enoent, einval, ◌==◌, ◌≡◌,
  refl, ◌⊎◌, inl, inr, sym, ◌∙◌, ap,
}
use cortx_utils.Base
use cortx_utils.Base.Exec.{continue}
use cortx_utils.Value.{Value, Fields}
use cortx_utils.Value.Dict.{lookup}
use cortx_utils.Payload.{KvPayload}
use cortx_utils.MessageBus.Clients.{
  Broker, Message, payload, text, other, get_conf, get_str_message_list, on_broker, new_client,
  new_producer, new_consumer, send,
}

-- Every message is a payload or a text.
abbrev pub AreTexts : List Message → Type 0
AreTexts [] = Unit
AreTexts (payload p ∷ ms) = AreTexts ms
AreTexts (text t ∷ ms) = AreTexts ms
AreTexts (other v ∷ ms) = ⊥

-- The texts that are sent.
abbrev pub message_texts : (KvPayload → Text) → List Message → List Text
message_texts json [] = []
message_texts json (payload p ∷ ms) = json p ∷ message_texts json ms
message_texts json (text t ∷ ms) = t ∷ message_texts json ms
message_texts json (other v ∷ ms) = message_texts json ms

module _ (json : KvPayload → Text) where
  get_str_message_list_lem :
      (ms : List Message)
      → (AreTexts ms × (get_str_message_list json ms ≡ ok (message_texts json ms)))
        ⊎ ((AreTexts ms → ⊥) × (get_str_message_list json ms ≡ err (bus_error einval)))
  unfolding get_str_message_list
  get_str_message_list_lem [] = inl (tt, refl)
  get_str_message_list_lem (payload p ∷ ms) = elim (get_str_message_list_lem ms) [
    | inl (texts, e) ↦ inl (texts, rw (get_str_message_list, e, Base.◌>>=◌) refl)
    | inr (none_are, e) ↦ inr (none_are, rw (get_str_message_list, e, Base.◌>>=◌) refl)
  ]
  get_str_message_list_lem (text t ∷ ms) = elim (get_str_message_list_lem ms) [
    | inl (texts, e) ↦ inl (texts, rw (get_str_message_list, e, Base.◌>>=◌) refl)
    | inr (none_are, e) ↦ inr (none_are, rw (get_str_message_list, e, Base.◌>>=◌) refl)
  ]
  get_str_message_list_lem (other v ∷ ms) = inr (λ h. h, refl)

  -- A client that was made has the configuration that it was made with.
  new_client_conf :
      (B : Broker) (client_type : Text) (given conf : Fields) (w w' : B.World)
      → new_client json B true client_type given w ≡ (ok conf, w')
      → conf ≡ given
  unfolding new_client
  new_client_conf B client_type given conf w w' h = made (B.init_client client_type given w) h
    where
      made :
          (r : Result (Unit {0}) × B.World)
          → (let (a, u) = r in continue a (λ _ v. (Base.ok given, v)) u) ≡ (Base.ok conf, w')
          → conf ≡ given
      made (ok t, u) e = let same = ap (λ p. p.0) e in cc
      made (err x, u) e = absurd (let bad = ap (λ p. p.0) e in cc)

  module _ (B : Broker) where
    -- A producer that was made sends its messages, as texts, to the broker under its type, with its
    -- method and identifier, if each of them is a payload or a text, and else nothing at all, with
    -- `EINVAL`.
    pub producer-send :
        (id type how : Value) (ms : List Message) (conf : Fields) (w w' : B.World)
        → new_producer json B true id type how w ≡ (ok conf, w')
        → (AreTexts ms
            × (send json B true ms conf w' ≡ B.send id type how (message_texts json ms) w'))
          ⊎ ((AreTexts ms → ⊥) × (send json B true ms conf w' ≡ (err (bus_error einval), w')))
    unfolding send get_conf lookup ◌==◌ on_broker new_producer
    producer-send id type how ms conf w w' h =
        let same = new_client_conf B _ _ conf w w' h in
        elim (get_str_message_list_lem ms) [
          | inl (texts, e) ↦ inl (texts, rw same (rw (e, continue) refl))
          | inr (none_are, e) ↦ inr (none_are, rw same (rw (e, continue) refl))
        ]

    -- A consumer that was made cannot send: `ENOENT`, and nothing is done.
    consumer-send :
        (id group types auto_ack offset : Value) (ms : List Message) (conf : Fields)
        (w w' : B.World)
        → new_consumer json B true id group types auto_ack offset w ≡ (ok conf, w')
        → send json B true ms conf w' ≡ (err (bus_error enoent), w')
    unfolding send get_conf lookup ◌==◌ new_consumer
    consumer-send id group types auto_ack offset ms conf w w' h =
        rw (new_client_conf B _ _ conf w w' h) refl
