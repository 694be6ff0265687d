-- ===== src/Tests/Databases.antt =====
-- A store of keys in memory, and a collection of disks in it.
use cortx_utils.Base.{
  ℕ, Text, codes, List, [], ◌∷◌, ◌++◌, Bool, true, false, not, ◌&&◌, Option, none, some, Result, ok,
  err, Assoc, find, store, contains, ◌==◌, eq_refl, starts_with, ◌≡◌, refl, ap, ◌∙◌, type_error,
  if◌then◌else◌,
}
use cortx_utils.Value.{Value, str, int, pos, dict, Fields, end, field}
use cortx_utils.Data.Filters.{
  Filter, filter_and, filter_compare, operand, no_more, name, operation_gt, operation_eq,
}
use cortx_utils.Data.Models.{Model, field_to_str, convert, read_object}
use cortx_utils.Data.Converter.{
  Entry, build, object_data, visit, handle_and, and_all, handle_compare, select_keys, at_key,
  keys_of, is_suitable, apply_operator, intersection, filter_entries,
}
use cortx_utils.Value.Compare.{value_eq, atom_eq}
use cortx_utils.Value.Dict.{lookup}
use cortx_utils.Value.Order.{less, order, order_atom, order_int}
use cortx_utils.Data.Converter.Entries.{keep, keep-keep, keep_ext, AreDistinct}
use cortx_utils.Data.Converter.Laws.{satisfies, build-satisfies, visit_misorders}
use cortx_utils.Data.Converter.Visit.{is_true}
use cortx_utils.Data.Templates.{
  new_templates, set_object_type, get_object_dir, render_template, substitute,
}
use cortx_utils.Data.Consul.Deletion.{is_target, delete_leaves}
use cortx_utils.Data.Consul.Sorting.{length}
use cortx_utils.Data.Consul.{Client, ConsulDb, get_all_raw, selected, delete_all, all_done, delete}
use cortx_utils.Key.Words.{lower}
use cortx_utils.Data.Consul.Store.{IsStore, is_under, or_none}
use cortx_utils.Data.Consul.Paths.{made, set_object_type_lem}
use cortx_utils.Tests.Codec.{codec, first, run, value_onto}

unfoldable pub value_at : Text → List Entry → Option Text
value_at k [] = none
value_at k (e ∷ es) = if e.key == k then some e.value else value_at k es

abbrev pub memory_client : Client
memory_client = record {
  World = List Entry;
  get_value = λ k es. ok (value_at k es);
  get_all = λ prefix es. ok (or_none (keep (is_under prefix) es));
  put_value =
      λ k v es. (ok true, (record { key = k; value = v }) ∷ keep (λ e. not (e.key == k)) es);
  delete_key = λ k es. (ok true, keep (λ e. not (e.key == k)) es);
}

both_same : (b : Bool) → (b && b) ≡ b
both_same true = refl
both_same false = refl

never_both : (b : Bool) → (not b && b) ≡ false
never_both true = refl
never_both false = refl

keep_nothing : (es : List Entry) → keep (λ e. false) es ≡ []
keep_nothing [] = refl
keep_nothing (e ∷ es) = keep_nothing es

pub memory_there :
    (k v : Text) (es : List Entry)
    → keep (λ e. e.key == k) ((record { key = k; value = v }) ∷ keep (λ e. not (e.key == k)) es)
      ≡ (record { key = k; value = v }) ∷ []
memory_there k v es = rw (eq_refl k) (
    ap (λ rest. (record { key = k; value = v }) ∷ rest)
      (keep-keep (λ e. e.key == k) (λ e. not (e.key == k)) es
        ∙ keep_ext _ _ es (λ e. never_both (e.key == k))
        ∙ keep_nothing es))

pub memory_others :
    (k v : Text) (es : List Entry)
    → keep
        (λ e. not (e.key == k))
        ((record { key = k; value = v }) ∷ keep (λ e. not (e.key == k)) es)
      ≡ keep (λ e. not (e.key == k)) es
memory_others k v es = rw (eq_refl k) (
    keep-keep (λ e. not (e.key == k)) (λ e. not (e.key == k)) es
    ∙ keep_ext _ _ es (λ e. both_same (not (e.key == k))))

abbrev pub memory_store : IsStore memory_client
memory_store = record {
  entries = λ es. es;
  get_all_under = λ prefix es. refl;
  delete_key_gone = λ k es answered. refl;
  put_value_there = λ k v es answered. memory_there k v es;
  put_value_others = λ k v es answered. memory_others k v es;
}

abbrev raw_fields : Value → Result Fields
raw_fields (dict fs) = ok fs
raw_fields _ = err type_error

abbrev pub disk_model : Model
disk_model = record {
  fields = codes "id" ∷ codes "age" ∷ [];
  primary_key = codes "id";
  is_string = λ k. k == codes "id";
  to_native = λ k v. some v;
  from_raw = raw_fields;
  validate = λ o. some o;
  to_primitive = λ o. dict o;
}

abbrev pub disk : Text → ℕ → Fields
disk id age = field (codes "id") (str id) (field (codes "age") (int (pos age)) end)

abbrev pub shown : Value → Text
shown (str s) = s
shown _ = []

abbrev pub disks : ConsulDb
disks = record { templates = made (codes "disks"); model_scheme = dict (disk [] 0) }

abbrev pub disk_entry : Text → ℕ → Entry
disk_entry id age = record {
  key = codes "cortx/base/disks/obj/" ++ id;
  value = codec.dumps (dict (disk id age));
}

abbrev pub stored : List Entry
stored = disk_entry (codes "a") 3 ∷ disk_entry (codes "b") 7 ∷ disk_entry (codes "c") 5 ∷ []

abbrev over_four : Filter
over_four = filter_compare (name (codes "age")) operation_gt (int (pos 4))

abbrev pub not_old : Filter
not_old = filter_and (
    operand over_four
      (operand (filter_compare (name (codes "id")) operation_eq (str (codes "a"))) no_more))

pub stored-AreDistinct : AreDistinct stored
unfolding contains ◌==◌
stored-AreDistinct = (refl, (refl, (refl, tt)))

-- The disk of the age 3 alone is selected by `>` with 4.
not_old_kept : build disk_model codec not_old stored ≡ ok (disk_entry (codes "a") 3 ∷ [])
unfolding build object_data read_object first run value_onto find store visit handle_and and_all
    handle_compare convert field_to_str select_keys at_key keys_of is_suitable apply_operator
    value_eq atom_eq less order order_atom order_int lookup contains ◌==◌ intersection
    filter_entries
not_old_kept = refl

build-satisfies_example :
    (disk_entry (codes "a") 3 ∷ []) ≡ keep (satisfies codec disk_model not_old) stored
build-satisfies_example =
    build-satisfies codec disk_model not_old stored (disk_entry (codes "a") 3 ∷ [])
      stored-AreDistinct not_old_kept

abbrev held : Assoc Fields
held = (codes "k", disk (codes "a") 3) ∷ []

visit_misorders_example :
    contains (codes "k") (codes "k" ∷ []) ≡ is_true (less (int (pos 3)) (int (pos 4)))
unfolding visit handle_compare convert field_to_str select_keys at_key keys_of is_suitable
    apply_operator less order order_atom order_int lookup contains ◌==◌ find
visit_misorders_example =
    visit_misorders disk_model (name (codes "age")) (int (pos 4)) (int (pos 4)) (codes "age")
      (codes "k") held (codes "k" ∷ []) (disk (codes "a") 3) refl refl refl refl

pub disks_made : set_object_type (codes "disks") new_templates ≡ ok disks.templates
disks_made = set_object_type_lem (codes "disks")

abbrev disks_dir : Text
disks_dir = codes "cortx/base/disks/obj"

pub disks_dir_lem : get_object_dir none disks.templates ≡ ok disks_dir
unfolding get_object_dir render_template substitute
disks_dir_lem = refl

abbrev left : List Entry
left = disk_entry (codes "b") 7 ∷ disk_entry (codes "c") 5 ∷ []

deleted : delete memory_client disk_model codec shown disks not_old stored ≡ (ok 1, left)
unfolding delete get_all_raw selected get_object_dir render_template substitute lower starts_with
    delete_all all_done build object_data read_object first run value_onto find store visit
    handle_and and_all handle_compare convert field_to_str select_keys at_key keys_of is_suitable
    apply_operator value_eq atom_eq less order order_atom order_int lookup contains ◌==◌
    intersection filter_entries
deleted = refl

delete_leaves_example :
    (1
      ≡ length (
          keep
            (is_target memory_client disk_model codec shown memory_store disks_dir not_old)
            stored))
    × (left
        ≡ keep
            (λ e.
              not (is_target memory_client disk_model codec shown memory_store disks_dir not_old e))
            stored)
delete_leaves_example =
    delete_leaves memory_client disk_model codec shown memory_store disks not_old stored left 1
      disks_dir stored-AreDistinct disks_dir_lem deleted
