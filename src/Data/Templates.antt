-- ===== src/Data/Templates.antt =====
-- `ConsulKeyTemplate` (py-utils/src/utils/data/db/consul_db/storage.py): the paths under which
-- objects are stored. A template of `string.Template` is the list of its pieces, so a type of
-- objects whose name has a dollar sign in it is left out.
use cortx_utils.Base.{
  Text, codes, List, [], ◌∷◌, ◌++◌, Bool, true, false, Option, none, some, Result, ok, err,
  key_error, data_access_internal, ◌>>=◌, if◌then◌else◌, Assoc, find,
}

pub data Piece : Type 0 where
  literal : Text → Piece
  placeholder : Text → Piece

-- `substitute`: every placeholder must be given.
unfoldable pub substitute : List Piece → Assoc Text → Result Text
substitute [] values = ok []
substitute (literal s ∷ ps) values = substitute ps values >>= λ t. ok (s ++ t)
substitute (placeholder k ∷ ps) values = elim (find k values) [
  | none ↦ err key_error
  | some s ↦ substitute ps values >>= λ t. ok (s ++ t)
]

-- `Template(t.safe_substitute(...))`: the others stay.
unfoldable pub safe_substitute : List Piece → Assoc Text → List Piece
safe_substitute [] values = []
safe_substitute (literal s ∷ ps) values = literal s ∷ safe_substitute ps values
safe_substitute (placeholder k ∷ ps) values =
    elim (find k values) [ none ↦ placeholder k | some s ↦ literal s ] ∷ safe_substitute ps values

abbrev pub object_type : Text
object_type = codes "OBJECT_TYPE"

abbrev pub object_uuid : Text
object_uuid = codes "OBJECT_UUID"

abbrev pub property_name : Text
property_name = codes "PROPERTY_NAME"

abbrev pub property_value : Text
property_value = codes "PROPERTY_VALUE"

pub record ConsulKeyTemplate : Type 0 where
  pub root_template : List Piece
  pub dir_template : List Piece
  pub path_template : List Piece
  pub property_template : List Piece
  pub object_type_is_set : Bool

-- `_OBJECT_ROOT`
abbrev pub root_pieces : List Piece
root_pieces = literal (codes "cortx/base/") ∷ placeholder object_type ∷ []

-- `_OBJECT_DIR`
abbrev pub dir_pieces : List Piece
dir_pieces = literal (codes "cortx/base/") ∷ placeholder object_type ∷ literal (codes "/obj") ∷ []

-- `_OBJECT_PATH`
abbrev pub path_pieces : List Piece
path_pieces =
    literal (codes "cortx/base/")
    ∷ placeholder object_type
    ∷ literal (codes "/obj")
    ∷ literal (codes "/")
    ∷ placeholder object_uuid
    ∷ []

-- `_PROPERTY_DIR`
abbrev pub property_pieces : List Piece
property_pieces =
    literal (codes "cortx/base/")
    ∷ placeholder object_type
    ∷ literal (codes "/prop/")
    ∷ placeholder property_name
    ∷ literal (codes "/")
    ∷ placeholder property_value
    ∷ []

-- `__init__`
abbrev pub new_templates : ConsulKeyTemplate
new_templates = record {
  root_template = root_pieces;
  dir_template = dir_pieces;
  path_template = path_pieces;
  property_template = property_pieces;
  object_type_is_set = false;
}

-- `set_object_type`
unfoldable pub set_object_type : Text → ConsulKeyTemplate → Result ConsulKeyTemplate
set_object_type type t =
    let values = (object_type, type) ∷ [] in
    substitute t.root_template values >>= λ root. substitute t.dir_template values >>= λ dir.
    ok (record {
      root_template = literal root ∷ [];
      dir_template = literal dir ∷ [];
      path_template = safe_substitute t.path_template values;
      property_template = safe_substitute t.property_template values;
      object_type_is_set = true;
    })

-- `_render_template`: what a given type of objects makes of the template is dropped.
unfoldable pub render_template :
    ConsulKeyTemplate → List Piece → Option Text → Assoc Text → Result Text
render_template t template none values =
    if t.object_type_is_set then substitute template values else err data_access_internal
render_template t template (some type) values =
    substitute template ((object_type, type) ∷ values) >>= λ _. substitute template values

unfoldable pub get_object_root : Option Text → ConsulKeyTemplate → Result Text
get_object_root type t = render_template t t.root_template type []

unfoldable pub get_object_dir : Option Text → ConsulKeyTemplate → Result Text
get_object_dir type t = render_template t t.dir_template type []

unfoldable pub get_object_path : Text → Option Text → ConsulKeyTemplate → Result Text
get_object_path uuid type t = render_template t t.path_template type ((object_uuid, uuid) ∷ [])

unfoldable pub get_property_dir : Text → Text → Option Text → ConsulKeyTemplate → Result Text
get_property_dir name value type t =
    render_template t t.property_template type
      ((property_name, name) ∷ (property_value, value) ∷ [])
