-- ===== src/Data/Models.antt =====
-- What the databases use of the models of schematics, on which `BaseModel`
-- (py-utils/src/utils/data/access/base_model.py) stands, and of `json`.
use cortx_utils.Base.{
  Text, List, Bool, Option, none, some, Result, ok, err, attribute_error, data_access_internal,
  value_error, contains, if◌then◌else◌,
}
use cortx_utils.Value.{Value, Fields}
use cortx_utils.Value.Dict.{lookup}
use cortx_utils.Value.Access.{or_null}
use cortx_utils.Activity.Checks.{Json}
use cortx_utils.Data.Filters.{LeftOperand, name, base_type, unknown}

-- A class of models. An object of it is the table of its fields. `to_native` fails by a
-- `ConversionError`, and `validate` by one or by a `ValidationError`.
pub record Model : Type 0 where
  pub fields : List Text
  pub primary_key : Text
  pub is_string : Text → Bool
  pub to_native : Text → Value → Option Value
  pub from_raw : Value → Result Fields
  pub validate : Fields → Option Fields
  pub to_primitive : Fields → Value

-- `getattr(obj, name)` for a field.
abbrev pub attribute : Text → Fields → Value
attribute k obj = or_null (lookup k obj)

-- `field_to_str`
unfoldable pub field_to_str : LeftOperand → Result Text
field_to_str (name s) = ok s
field_to_str (base_type s) = ok s
field_to_str unknown = err data_access_internal

abbrev pub or_internal {ℓ} : {A : Type ℓ} → Option A → Result A
or_internal none = err data_access_internal
or_internal (some a) = ok a

-- `getattr(model, name).to_native(v)`, with its `ConversionError` caught.
unfoldable pub convert : Model → Text → Value → Result Value
convert M k v = if contains k M.fields then or_internal (M.to_native k v) else err attribute_error

-- `model(json.loads(text))`
unfoldable pub read_object : Json → Model → Text → Result Fields
read_object J M text = elim (J.loads text) [ none ↦ err value_error | some v ↦ M.from_raw v ]
