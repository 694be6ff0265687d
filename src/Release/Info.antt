-- ===== src/Release/Info.antt =====
-- `Manifest` and the methods of `Release` (py-utils/src/utils/schema/release.py) that read
-- RELEASE.INFO, loaded under a fixed index.
use cortx_utils.Base.{
  Text, codes, Bool, true, false, [], not, if◌then◌else◌, Result, ok, err, attribute_error, ◌>>=◌,
  Option, none, some,
}
use cortx_utils.Base.Exec.{Exec}
use cortx_utils.Value.{Value, str, Fields, end}
use cortx_utils.Value.Dict.{lookup, put}
use cortx_utils.Value.Compare.{value_eq}
use cortx_utils.Value.Access.{or_null}
use cortx_utils.KvStore.{Backend}
use cortx_utils.Conf
use cortx_utils.Conf.{ConfStore, State}
use cortx_utils.Release.Versions.{get_rpm_from_list, get_rpm_version, without_hash}

abbrev pub manifest_idx : Text
manifest_idx = codes "manifest_conf"

-- `__init__`
unfoldable pub init : (B : Backend) → Text → Exec (State B) (Unit {0})
init B manifest_url = Conf.load B manifest_idx manifest_url []

-- `_get_val`
unfoldable pub get_val : Text → ConfStore → Result Value
get_val key s = Conf.get manifest_idx (some key) (str []) true s

unfoldable pub get_release_version : ConfStore → Result Value
get_release_version = get_val (codes "VERSION")

-- `rpm_name.split` needs a text.
unfoldable pub rpm_version : Value → Result Text
rpm_version (str s) = get_rpm_version s
rpm_version _ = err attribute_error

unfoldable pub get_component_version : Text → ConfStore → Result Text
get_component_version component s = do
  rpms ← get_val (codes "COMPONENTS") s
  component_rpm ← get_rpm_from_list component rpms
  version ← rpm_version component_rpm
  ok (without_hash version)

-- `release_spec is None or release_spec.get(key) != value`
unfoldable pub differs : Option Fields → Text → Value → Bool
differs none key value = true
differs (some spec) key value = not (value_eq (or_null (lookup key spec)) value)

-- One turn of the loop of `validate`, for a key and the name that it has in RELEASE.INFO.
unfoldable pub validate_key :
    Option Fields → Text → Text → ConfStore → Bool × Fields → Result (Bool × Fields)
validate_key spec key upper s (is_valid, release_info) = do
  value ← get_val upper s
  ok (
      if differs spec key value
      then (false, put key value release_info)
      else (is_valid, release_info))

unfoldable pub validate : Option Fields → ConfStore → Result (Bool × Fields)
validate spec s =
    validate_key spec (codes "name") (codes "NAME") s (true, end)
    >>= validate_key spec (codes "version") (codes "VERSION") s
