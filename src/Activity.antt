-- ===== src/Activity.antt =====
-- The activity tracker (py-utils/src/utils/activity_tracker/activity_store.py): an entry holds a
-- payload of attributes, and every operation writes it, as JSON, under its identifier in a store.
pub mod Names
pub mod Entry
pub mod Checks
pub mod Attributes
pub mod Spec
pub mod Shown
pub mod Life
pub mod Searching
pub mod Stored
use cortx_utils.Base.{
  ℕ, suc, Text, Bool, true, false, Option, none, some, List, [], ◌∷◌, codes, ltb, ◌==◌, ◌||◌,
  if◌then◌else◌, Result, ok, err, activity_error, einval, attribute_error, type_error, value_error,
}
use cortx_utils.Base.Exec.{Exec, pure, raise, lift, ◌>>=◌, ◌>>◌}
use cortx_utils.Value.{Value, null, bool, int, str, list, dict, ℤ, pos, negsuc, Fields, end, field}
use cortx_utils.Value.Dict.{lookup}
use cortx_utils.Payload.{KvPayload}
use cortx_utils.KvStore
use cortx_utils.KvStore.{Backend}
use Names.{
  id_key, name_key, resource_path_key, description_key, pct_progress_key, status_key, completed,
}
use Entry
use Entry.{ActivityEntry, set_progress}
use Checks.{Json, loads_value, check_update, check_suspend, as_entry, first_value}

module _ (J : Json) (B : Backend) (url : Text) where
  -- An entry in the hands of a caller, and the stores.
  abbrev pub Shared : Type 0
  Shared = ActivityEntry × B.World

  -- `Activity._kv_store.set([activity.id], [activity.payload.json])`: an identifier that is no
  -- text fails once the store is loaded.
  unfoldable pub write : ActivityEntry → Exec B.World (Unit {0})
  write a = elim a.id [
    | str i ↦ KvStore.set B url (i ∷ []) (str (J.dumps a.payload.node) ∷ [])
    | _ ↦ B.load url true >>= λ p. raise attribute_error
  ]

  unfoldable pub write_shared : Exec Shared (Unit {0})
  write_shared (a, w) = let (r, w') = write a w in (r, (a, w'))

  -- A method of the entry.
  abbrev pub on_entry : {A : Type 0} → Exec ActivityEntry A → Exec Shared A
  on_entry m (a, w) = let (r, a') = m a in (r, (a', w))

  -- `create`
  unfoldable pub create : Text → ℕ → Value → Value → Value → Exec B.World ActivityEntry
  create fresh now name path desc = do
    a ← lift (
        Entry.init fresh now
          (field name_key name (field resource_path_key path (field description_key desc end))))
    _ ← write a
    pure a

  -- `update`
  unfoldable pub update : ℤ → Text → ℕ → Exec Shared (Unit {0})
  update pct desc now = do
    _ ← λ s. lift (check_update J pct s.0) s
    _ ← on_entry (set_progress pct desc now)
    write_shared

  -- `finish`: a completed activity is finished again.
  unfoldable pub finish : ℤ → Text → ℕ → Exec Shared (Unit {0})
  finish rc desc now = do _ ← on_entry (Entry.finish rc desc now); write_shared

  -- `suspend`
  unfoldable pub suspend : Text → ℕ → Exec Shared (Unit {0})
  suspend desc now = do
    _ ← λ s. lift (check_suspend J s.0) s
    _ ← on_entry (Entry.suspend desc now)
    write_shared

  -- `get`
  unfoldable pub get : Text → ℕ → Text → Exec B.World ActivityEntry
  get fresh now activity_id = do
    vals ← KvStore.get B url (activity_id ∷ [])
    v ← lift (first_value vals)
    decoded ← lift (loads_value J v)
    lift (as_entry fresh now decoded)
