-- ===== src/Tests/Releases.antt =====
-- Versions, and a cluster of one node with one component.
use cortx_utils.Base.{
  Text, true, false, codes, some, List, [], ◌∷◌, ◌++◌, ◌≡◌, refl, ok, find, store, starts_with,
  ◌==◌,
}
use cortx_utils.Key.{
  split, is_digit, show_nat, show_digits, key_index_split, find_index, match_index, digits_bracket,
  is_blank, is_empty, is_space,
}
use cortx_utils.Key.Words.{split_two, strip, strip_left, strip_right, before}
use cortx_utils.Value.{Value, int, str, list, dict, pos, negsuc, nil, cons, Fields, end, field}
use cortx_utils.Value.Dict.{lookup}
use cortx_utils.Value.Compare.{value_eq, atom_eq}
use cortx_utils.Value.Access.{is_infix}
use cortx_utils.Payload
use cortx_utils.Payload.{KvPayload}
use cortx_utils.Payload.Read.{get_path}
use cortx_utils.Payload.Read
use cortx_utils.Conf
use cortx_utils.Conf.{ConfStore}
use cortx_utils.Conf.Cache.{ConfCache}
use cortx_utils.Conf.Mapped
use cortx_utils.Release.Versions.{
  version_check, get_digits, compare_digits, get_rpm_version, numbered, first_two, cut_suffix,
}
use cortx_utils.Release.Versions.Laws.{version_check-misorders}
use cortx_utils.Release.Installed
use cortx_utils.Release.Installed.{Versions, get_installed_version, installed}
use cortx_utils.Base.Exec.{continue}
use cortx_utils.Release.Compatible.{
  is_version_compatible, validate_clauses, clause_name, check_some, check_versions, check_all,
  check_component, parse_version, mapped_name, check_installed, tally,
}
use cortx_utils.Release.Compatible.Laws.{AreMet, is_version_compatible-AreMet}
use cortx_utils.Tests.Stores.{memory}
use cortx_utils.Tests.Samples.{blank}

version_check-misorders_example :
    version_check (codes "2.0.0-" ++ codes "9") (codes "2.0.0-" ++ codes "10") ≡ pos 1
version_check-misorders_example = version_check-misorders (codes "2.0.0-")

older : version_check (codes "2.0.0-428") (codes "2.0.0-430") ≡ negsuc 0
unfolding version_check get_digits compare_digits is_digit ◌==◌
older = refl

rpm :
    get_rpm_version (codes "cortx-motr-2.0.0-438_b3c80e82.x86_64.rpm")
    ≡ ok (codes "2.0.0-438_b3c80e82")
unfolding get_rpm_version numbered first_two cut_suffix before is_infix split is_digit starts_with
rpm = refl

abbrev text : Text → Value
text s = str s

abbrev components : Value
components = list (
    cons
      (dict (
        field (codes "name") (text (codes "motr"))
          (field (codes "version") (text (codes "2.0.0-9")) end)))
      nil)

abbrev a_node : Value
a_node = dict (
    field (codes "name") (text (codes "srv"))
      (field (codes "num_components") (int (pos 1)) (field (codes "components") components end)))

abbrev release : Value
release = dict (
    field (codes "name") (text (codes "CORTX"))
      (field (codes "version") (text (codes "2.0.0-5")) end))

abbrev storage_set : Value
storage_set = list (
    cons
      (dict (
        field (codes "num_nodes") (int (pos 1))
          (field (codes "nodes") (list (cons (text (codes "n1")) nil)) end)))
      nil)

abbrev config : Fields
config =
    field (codes "cluster")
      (dict (
        field (codes "num_storage_set") (int (pos 1))
          (field (codes "storage_set") storage_set end)))
      (field (codes "node") (dict (field (codes "n1") a_node end)) (
        field (codes "cortx")
          (dict (field (codes "common") (dict (field (codes "release") release end)) end)) end))

abbrev conf : ConfStore
conf = record {
  delim = b'>';
  cache =
      (
        codes "cortx_conf",
        record {
          payload = record { node = dict config; delim = b'>'; keys = [] };
          dirty = false;
          url = codes "json:///c";
          recurse = true;
        },
      )
      ∷ [];
  callbacks = [];
  lock_owner = text (codes "m1");
}

abbrev show : Value → Text
show (str s) = s
show _ = []

abbrev rules : List Text
rules = codes "cortx-motr >= 2.0.0-5" ∷ codes "CORTX >= 2.0.0-1" ∷ []

abbrev expected : Versions
expected =
    (text (codes "motr"), text (codes "2.0.0-9"))
    ∷ (text (codes "CORTX"), text (codes "2.0.0-5"))
    ∷ []

found_all :
    (get_installed_version memory show (text (codes "srv")) (codes "json:///c") (conf, blank)).0
    ≡ ok (some expected)
unfolding get_installed_version Mapped.init Conf.load Conf.read_args find ◌==◌ installed
    Installed.get_node_list Mapped.get Conf.get Conf.Cache.get Payload.get get_path split is_blank
    key_index_split find_index match_index store Conf.Cache.init Conf.cached Conf.is_loaded
    Conf.or_default Conf.read_store strip digits_bracket is_digit is_empty show_digits show_nat
    Payload.Read.enter Payload.Read.enter_index Payload.Read.get_down Payload.Read.get_leaf
    Payload.Read.index_leaf Installed.components_of Installed.node_named Installed.nodes_of_set
    Installed.nodes_of_sets Installed.set_version Installed.store_version Installed.to_int
    Installed.versions_of atom_eq value_eq lookup
found_all = refl

valid : validate_clauses rules ≡ true
unfolding validate_clauses clause_name strip split_two find ◌==◌ strip_left strip_right is_space
valid = refl

rules_met : check_some rules (some expected) ≡ ok true
unfolding check_versions check_all check_component parse_version clause_name mapped_name
    check_installed tally strip split_two find ◌==◌ version_check get_digits compare_digits is_digit
    value_eq atom_eq strip_left strip_right is_space
rules_met = refl

compatible :
    (is_version_compatible memory show
      (codes "json:///c")
      (codes "node")
      (text (codes "srv"))
      rules
      (conf, blank)).0
    ≡ ok true
unfolding is_version_compatible ◌==◌
compatible = rw valid (rw (found_all, continue) rules_met)

is_version_compatible-AreMet_example :
    (versions : Versions) × ((get_installed_version memory show
        (text (codes "srv"))
        (codes "json:///c")
        (conf, blank)).0
      ≡ ok (some versions))
    × AreMet rules versions
is_version_compatible-AreMet_example =
    is_version_compatible-AreMet memory show (codes "json:///c") (codes "node") (text (codes "srv"))
      rules (conf, blank) compatible
