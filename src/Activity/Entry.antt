-- ===== src/Activity/Entry.antt =====
-- `ActivityEntry` (py-utils/src/utils/activity_tracker/activity_store.py): a payload of attributes.
use cortx_utils.Base.{
  ℕ, Text, Bool, true, false, none, some, [], ◌∷◌, ltb, if◌then◌else◌, Result, ok, err,
  activity_error, einval, ◌>>=◌,
}
use cortx_utils.Base.Exec.{Exec, pure, raise, continue}
use cortx_utils.Value.{Value, null, int, str, ℤ, pos, negsuc, Fields, end, field}
use cortx_utils.Value.Dict.{lookup}
use cortx_utils.Payload
use cortx_utils.Payload.{KvPayload}
use cortx_utils.Activity.Names.{
  id_key, name_key, resource_path_key, description_key, pct_progress_key, status_key,
  status_desc_key, created_time_key, updated_time_key, rc_key, new, in_progress, completed,
  suspended, created_desc,
}

pub record ActivityEntry : Type 0 where
  pub id : Value
  pub payload : KvPayload

-- `self._payload[key] = value` for some keys and values in turn.
unfoldable pub assign : Fields → Exec KvPayload (Unit {0})
assign end p = pure tt p
assign (field k v fs) p = let (r, q) = Payload.set k v p in continue r (λ _. assign fs) q

-- An argument of a new activity: it must be there, and not `None`.
unfoldable pub required : Text → Fields → Result Value
required k kwargs = elim (lookup k kwargs) [
  | none ↦ err (activity_error einval)
  | some null ↦ err (activity_error einval)
  | some v ↦ ok v
]

-- `kwargs.get(const.ID)`
unfoldable pub given_id : Fields → Value
given_id kwargs = elim (lookup id_key kwargs) [ none ↦ null | some v ↦ v ]

-- The attributes of a new activity.
abbrev pub new_attributes : Text → ℕ → Value → Value → Value → Fields
new_attributes fresh now name path desc = field id_key (str fresh) (
    field name_key name (
      field resource_path_key path (
        field description_key desc (
          field pct_progress_key (int (pos 0)) (
            field status_key (str new) (
              field status_desc_key (str created_desc)
                (field created_time_key (int (pos now)) end)))))))

-- A payload that is filled, unless a key is refused.
abbrev filled : Value → Fields → KvPayload → Result ActivityEntry
filled id fs p =
    let (r, q) = assign fs p in
    elim r [ ok _ ↦ ok (record { id = id; payload = q }) | err e ↦ err e ]

-- `__init__`, with a fresh identifier and the time.
unfoldable pub init : Text → ℕ → Fields → Result ActivityEntry
unfolding assign
init fresh now kwargs = do
  p ← Payload.init none (b'>' ∷ []) true
  elim (given_id kwargs) [
    | null ↦ do
      name ← required name_key kwargs
      path ← required resource_path_key kwargs
      desc ← required description_key kwargs
      filled (str fresh) (new_attributes fresh now name path desc) p
    | id ↦ filled id kwargs p
  ]

-- The attributes are set in turn.
unfoldable pub set_attrs : Fields → Exec ActivityEntry (Unit {0})
set_attrs fs a = let (r, p) = assign fs a.payload in (r, record a { payload = p })

unfoldable pub set_attr : Text → Value → Exec ActivityEntry (Unit {0})
set_attr attr val = set_attrs (field attr val end)

abbrev pub is_pct : ℤ → Bool
is_pct (pos n) = ltb n 100
is_pct (negsuc n) = false

unfoldable pub set_progress : ℤ → Text → ℕ → Exec ActivityEntry (Unit {0})
set_progress pct desc now =
    if is_pct pct
    then set_attrs (
        field pct_progress_key (int pct) (
          field status_key (str in_progress)
            (field status_desc_key (str desc) (field updated_time_key (int (pos now)) end))))
    else raise (activity_error einval)

unfoldable pub finish : ℤ → Text → ℕ → Exec ActivityEntry (Unit {0})
finish rc desc now = set_attrs (
    field pct_progress_key (int (pos 100)) (
      field status_key (str completed) (
        field status_desc_key (str desc)
          (field updated_time_key (int (pos now)) (field rc_key (int rc) end)))))

unfoldable pub suspend : Text → ℕ → Exec ActivityEntry (Unit {0})
suspend desc now = set_attrs (
    field status_key (str suspended)
      (field status_desc_key (str desc) (field updated_time_key (int (pos now)) end)))
