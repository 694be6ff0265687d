-- ===== src/Activity/Stored.antt =====
-- An activity that was created is found again under its identifier.
use cortx_utils.Base.{
  ℕ, Text, some, [], ◌∷◌, ◌≡◌, refl, ◌∙◌, arith, ok, ◌==◌, Result-cases, inl, inr,
}
use cortx_utils.Base.Exec.{continue}
use cortx_utils.Key.{split, key_index_split, find_index, match_index}
use cortx_utils.Value.{str, dict, field, end, Fields}
use cortx_utils.Value.Dict.{lookup, put}
use cortx_utils.Payload
use cortx_utils.Payload.{KvPayload}
use cortx_utils.Payload.Enumerate.{keys_of}
use cortx_utils.Payload.Laws.{IsReadableKey}
use cortx_utils.Payload.Write.{set_path, set_step, set_at}
use cortx_utils.KvStore
use cortx_utils.KvStore.{Backend, IsFaithful}
use cortx_utils.KvStore.Laws.{get-set_one, loaded, after_load}
use cortx_utils.Activity.{create, get, write}
use cortx_utils.Activity.Names.{
  id_key, name_key, resource_path_key, description_key, pct_progress_key, status_key,
  status_desc_key, created_time_key,
}
use cortx_utils.Activity.Entry
use cortx_utils.Activity.Entry.{ActivityEntry, new_attributes, required, given_id, assign}
use cortx_utils.Activity.Checks.{Json, loads_value, as_entry, first_value}
use cortx_utils.Activity.Shown.{IsExactJson}

-- The attributes that `create` gives to an activity.
abbrev pub created : Text → ℕ → Text → Text → Text → Fields
created fresh now name path desc = new_attributes fresh now (str name) (str path) (str desc)

module _ (fresh : Text) (now : ℕ) (name path desc : Text) where
  abbrev pub entry : ActivityEntry
  entry = record {
    id = str fresh;
    payload = record {
      node = dict (created fresh now name path desc);
      delim = b'>';
      keys =
          some id_key
          ∷ some name_key
          ∷ some resource_path_key
          ∷ some description_key
          ∷ some pct_progress_key
          ∷ some status_key
          ∷ some status_desc_key
          ∷ some created_time_key
          ∷ [];
    };
  }

  init_new :
      Entry.init fresh now (
        field name_key
          (str name)
          (field resource_path_key (str path) (field description_key (str desc) end)))
      ≡ ok entry
  unfolding Entry.init given_id required lookup assign Payload.init Payload.set Payload.note
      set_path set_step set_at put ◌==◌ split key_index_split find_index match_index keys_of
  init_new = refl

  init_again :
      (fresh' : Text) (now' : ℕ)
      → Entry.init fresh' now' (created fresh now name path desc) ≡ ok entry
  unfolding Entry.init given_id required lookup assign Payload.init Payload.set Payload.note
      set_path set_step set_at put ◌==◌ split key_index_split find_index match_index keys_of
  init_again fresh' now' = refl

  module _ (J : Json) (B : Backend) (url : Text) where
    pub create_writes :
        (w : B.World)
        → create J B url fresh now (str name) (str path) (str desc) w
          ≡ (let (r, w') = write J B url entry w in continue r (λ _ s. (ok entry, s)) w')
    unfolding create
    create_writes w = rw (init_new, continue) refl

    get_found :
        (fresh' : Text) (now' : ℕ) (w : B.World)
        → IsExactJson J
        → (KvStore.get B url (fresh ∷ []) w).0 ≡ ok (str (J.dumps entry.payload.node) ∷ [])
        → (get J B url fresh' now' fresh w).0 ≡ ok entry
    unfolding get first_value loads_value as_entry
    get_found fresh' now' w E found =
        rw (found, continue)
          (rw (E.loads-dumps entry.payload.node, continue) (rw (init_again fresh' now') refl))

    -- An activity that `create` returned is returned by a later `get` of its identifier, with the
    -- same attributes, over a backend that loads what was dumped, if the store can keep the
    -- payload, the identifier is a key that `get` accepts, and `json` reads back what it wrote.
    pub get-create :
        (F : IsFaithful B) (w : B.World) (p : KvPayload) (a : ActivityEntry) (fresh' : Text)
        (now' : ℕ)
        → IsExactJson J
        → loaded B F url w ≡ ok p
        → IsReadableKey p.delim fresh
        → F.Keeps url
            (Payload.set fresh (str (J.dumps entry.payload.node)) p).1
            (after_load B F url w)
        → (create J B url fresh now (str name) (str path) (str desc) w).0 ≡ ok a
        → (get J B url fresh' now' fresh
            (create J B url fresh now (str name) (str path) (str desc) w).1).0
          ≡ ok a
    unfolding write
    get-create F w p a fresh' now' E loads readable keeps done =
        elim (Result-cases (write J B url entry w).0) [
          | inl (u, written) ↦
              let made : create J B url fresh now (str name) (str path) (str desc) w
                  ≡ (ok entry, (write J B url entry w).1) =
                create_writes w ∙ rw (written, continue) refl in
              rw made (
                get_found fresh' now' (write J B url entry w).1 E (
                  get-set_one B F url w fresh (str (J.dumps entry.payload.node)) p loads readable
                    keeps written)
                ∙ (rw made at done))
          | inr (e, raised) ↦ absurd (ground (arith, create_writes w))
        ]
