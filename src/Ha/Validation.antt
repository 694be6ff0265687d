-- ===== src/Ha/Validation.antt =====
-- `SymanticValidator` (py-utils/src/utils/ha/hac/validation.py): the checks of a compiled schema. The
-- cycles of the graph of orders are those that networkx finds.
pub mod Laws
use cortx_utils.Base.{
  Text, codes, Bool, true, false, List, [], ◌∷◌, ◌||◌, if◌then◌else◌, Result, ok, err,
  attribute_error, type_error, exception, ◌>>=◌,
}
use cortx_utils.Value.{Value, str, dict, Items, nil, cons, Fields, end, field}
use cortx_utils.Value.Access.{item, elements, is_in}

-- A part of a message: what is no text cannot be joined to it.
abbrev pub joined : Value → Result Text
joined (str s) = ok s
joined _ = err type_error

-- Whether a resource that another one names is missing, which is told with the component.
unfoldable pub is_missing : Fields → Value → Value → Result Bool
is_missing resources resource name = is_in name (dict resources) >>= λ known.
    if known
    then ok false
    else (joined name >>= λ _. item (codes "component") resource >>= joined >>= λ _. ok true)

-- The loop over the names, all of which are looked at.
unfoldable pub any_missing : Fields → Value → Items → Result Bool
any_missing resources resource nil = ok false
any_missing resources resource (cons name names) =
    let rest = any_missing resources resource names in
    is_missing resources resource name >>= λ bad. rest >>= λ more. ok (bad || more)

-- `resource_set[resource]["dependencies"][kind]`
unfoldable pub named_by : Text → Value → Result Items
named_by kind resource = item (codes "dependencies") resource >>= item kind >>= elements

-- The loop over the resources.
unfoldable pub any_invalid : Text → Fields → Fields → Result Bool
any_invalid kind resources end = ok false
any_invalid kind resources (field k resource others) =
    let rest = any_invalid kind resources others in
    named_by kind resource >>= any_missing resources resource >>= λ bad.
    rest >>= λ more. ok (bad || more)

-- `resource_set.keys()` needs a dict.
unfoldable pub resources_of : Value → Result Fields
resources_of schema =
    item (codes "resources") schema >>= λ v. elim v [ dict fs ↦ ok fs | _ ↦ err attribute_error ]

abbrev pub raise_if : Bool → Result (Unit {0})
raise_if true = err exception
raise_if false = ok tt

-- `_validate_resource_predecessors`, `_validate_resource_colocation` and
-- `_validate_resource_relation`, which differ by the list that they read.
unfoldable pub validate_resources : Text → Value → Result (Unit {0})
validate_resources kind schema =
    resources_of schema >>= λ resources. any_invalid kind resources resources >>= raise_if

unfoldable pub validate_cycle : List (List Text) → Result (Unit {0})
validate_cycle [] = ok tt
validate_cycle (cycle ∷ cycles) = err exception

-- `execute`: the methods in the order of their names.
unfoldable pub execute : List (List Text) → Value → Result (Unit {0})
execute cycles schema = validate_cycle cycles >>= λ _.
    validate_resources (codes "colocation") schema >>= λ _.
    validate_resources (codes "predecessors") schema >>= λ _.
    validate_resources (codes "relation") schema
