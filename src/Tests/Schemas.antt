-- ===== src/Tests/Schemas.antt =====
-- A schema of two resources, one of which follows the other.
use cortx_utils.Base.{Text, codes, List, [], ◌≡◌, refl, ok, ◌==◌}
use cortx_utils.Value.{Value, str, list, dict, nil, cons, Fields, end, field}
use cortx_utils.Value.Dict.{lookup}
use cortx_utils.Value.Access.{item, elements, is_in, lookup_by}
use cortx_utils.Ha.Validation.{
  is_missing, any_missing, named_by, any_invalid, resources_of, validate_resources, validate_cycle,
  execute,
}
use cortx_utils.Ha.Validation.Laws.{IsClosed, execute-IsClosed}

abbrev resource : Value → Value
resource predecessors = dict (
    field (codes "component") (str (codes "io")) (
      field (codes "dependencies")
        (dict (
          field (codes "predecessors") predecessors
            (field (codes "colocation") (list nil) (field (codes "relation") (list nil) end))))
        end))

abbrev schema : Value
schema = dict (
    field (codes "resources")
      (dict (
        field (codes "motr") (resource (list nil))
          (field (codes "s3") (resource (list (cons (str (codes "motr")) nil))) end)))
      end)

abbrev no_cycles : List (List Text)
no_cycles = []

accepted : execute no_cycles schema ≡ ok tt
unfolding execute validate_cycle validate_resources resources_of any_invalid named_by any_missing
    is_missing item elements is_in lookup_by lookup ◌==◌
accepted = refl

execute-IsClosed_example :
    (no_cycles ≡ [])
    × (resources : Fields) × (resources_of schema ≡ ok resources)
    × IsClosed (codes "predecessors") resources resources
    × IsClosed (codes "colocation") resources resources
    × IsClosed (codes "relation") resources resources
execute-IsClosed_example = execute-IsClosed no_cycles schema accepted
