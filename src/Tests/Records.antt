-- ===== src/Tests/Records.antt =====
-- The collection of disks: what is asked of it, and what is stored in it.
use cortx_utils.Base.{
  ℕ, Text, codes, List, [], ◌∷◌, false, not, ◌&&◌, none, some, ok, find, store as put_assoc,
  contains, ◌==◌, starts_with, ◌≡◌, refl,
}
use mathlib.Core.List.{Perm}
use cortx_utils.Value.{str, pos, dict, Fields}
use cortx_utils.Value.Compare.{value_eq, atom_eq}
use cortx_utils.Value.Dict.{lookup, names}
use cortx_utils.Value.Order.{less, order, order_atom, order_int}
use cortx_utils.Key.Words.{lower}
use cortx_utils.Data.Filters.{name}
use cortx_utils.Data.Queries.{Query, OrderBy, desc}
use cortx_utils.Data.Models.{field_to_str, convert, read_object}
use cortx_utils.Data.Converter.{
  Entry, build, object_data, visit, handle_and, and_all, handle_compare, select_keys, at_key,
  keys_of, is_suitable, apply_operator, intersection, filter_entries,
}
use cortx_utils.Data.Converter.Entries.{keep, AreDistinct, All}
use cortx_utils.Data.Converter.Visit.{holds, meets}
use cortx_utils.Data.Converter.Total.{AreReadable}
use cortx_utils.Data.Converter.Laws.{satisfies}
use cortx_utils.Data.Templates.{get_object_dir, get_object_path, render_template, substitute}
use cortx_utils.Data.Consul.{
  store, check_object, scheme_keys, has_other, path_of, put_checked, get_by_id, get_all_raw, get,
  get_from, suitable, read_objects, ordered, ordering_of, page,
}
use cortx_utils.Data.Consul.Paging.{get-InOrder, get-perm}
use cortx_utils.Data.Consul.Store.{is_under}
use cortx_utils.Data.Consul.Writing.{store_collides}
use cortx_utils.Data.Consul.Identity.{id_filter, get_by_id-store}
use cortx_utils.Data.Consul.Sorting.{sort_key, with_keys, precedes, insert, sort, objects, sort_by}
use cortx_utils.Data.Consul.Sorting.Ordered.{InOrder}
use cortx_utils.Tests.Codec.{codec, first, run, value_onto}
use cortx_utils.Tests.Databases.{
  memory_client, memory_store, disk_model, disk, shown, disks, disk_entry, stored, not_old,
  stored-AreDistinct, disks_made,
}

abbrev by_age : OrderBy
by_age = record { by_field = name (codes "age"); by_order = desc }

abbrev two_oldest : Query
two_oldest = record {
  order_by = some by_age;
  filter_by = none;
  limit = some (pos 2);
  offset = none;
}

abbrev oldest : List Fields
oldest = disk (codes "b") 7 ∷ disk (codes "c") 5 ∷ []

two_found : get memory_client disk_model codec shown disks two_oldest stored ≡ ok oldest
unfolding get get_from get_all_raw suitable read_objects read_object ordered ordering_of page
    get_object_dir render_template substitute lower starts_with first run value_onto field_to_str
    contains ◌==◌ sort_by with_keys sort_key sort insert precedes objects less order order_atom
    order_int lookup
two_found = refl

get-InOrder_example : InOrder desc (disk_model.is_string (codes "age")) (codes "age") oldest
unfolding field_to_str
get-InOrder_example =
    get-InOrder memory_client disk_model codec shown disks two_oldest by_age (codes "age") stored
      oldest refl refl two_found

abbrev all_not_old : Query
all_not_old = record {
  order_by = some by_age;
  filter_by = some not_old;
  limit = none;
  offset = none;
}

raw_found : get_all_raw memory_client disk_model codec shown disks stored ≡ ok stored
unfolding get_all_raw get_object_dir render_template substitute lower starts_with
raw_found = refl

one_found :
    get memory_client disk_model codec shown disks all_not_old stored ≡ ok (disk (codes "a") 3 ∷ [])
unfolding get get_from get_all_raw suitable read_objects read_object ordered ordering_of page
    get_object_dir render_template substitute lower starts_with first run value_onto field_to_str
    contains ◌==◌ sort_by with_keys sort_key sort insert precedes objects less order order_atom
    order_int lookup build object_data find put_assoc visit handle_and and_all handle_compare
    convert select_keys at_key keys_of is_suitable apply_operator value_eq atom_eq intersection
    filter_entries
one_found = refl

get-perm_example :
    (read : List Fields) × (read_objects memory_client disk_model codec shown
        (keep (satisfies codec disk_model not_old) stored)
      ≡ ok read)
    × Perm (disk (codes "a") 3 ∷ []) read
unfolding field_to_str
get-perm_example =
    get-perm memory_client disk_model codec shown disks all_not_old not_old by_age (codes "age")
      stored stored (disk (codes "a") 3 ∷ []) refl refl refl refl refl raw_found stored-AreDistinct
      one_found

abbrev d_entry : Entry
d_entry = disk_entry (codes "d") 9

abbrev d_path : Text
d_path = codes "cortx/base/disks/obj/d"

abbrev D_disk : Fields
D_disk = disk (codes "D") 2

abbrev d_disk : Fields
d_disk = disk (codes "d") 9

checked :
    (id : Text) (age : ℕ)
    → check_object memory_client disk_model codec shown disks.model_scheme (disk id age)
      ≡ ok (disk id age)
unfolding check_object scheme_keys names has_other contains ◌==◌
checked id age = refl

d_found : path_of memory_client disk_model codec shown disks (codes "d") ≡ ok d_path
unfolding path_of get_object_path render_template substitute lower find ◌==◌
d_found = refl

D_found : path_of memory_client disk_model codec shown disks (codes "D") ≡ ok d_path
unfolding path_of get_object_path render_template substitute lower find ◌==◌
D_found = refl

d_ran :
    (w : List Entry)
    → store memory_client disk_model codec shown disks d_disk w
      ≡ (ok tt, d_entry ∷ keep (λ e. not (e.key == d_path)) w)
unfolding store check_object scheme_keys names has_other contains ◌==◌ path_of get_object_path
    render_template substitute lower find put_checked lookup
d_ran w = refl

D_ran :
    (w : List Entry)
    → store memory_client disk_model codec shown disks D_disk w ≡ (
      ok tt,
      (record { key = d_path; value = codec.dumps (dict D_disk) })
          ∷ keep (λ e. not (e.key == d_path)) w,
    )
unfolding store check_object scheme_keys names has_other contains ◌==◌ path_of get_object_path
    render_template substitute lower find put_checked lookup
D_ran w = refl

store_collides_example : keep (λ e. e.key == d_path) (d_entry ∷ stored) ≡ d_entry ∷ []
unfolding ◌==◌ lookup lower
store_collides_example =
    store_collides memory_client disk_model codec shown memory_store disks (codes "disks") D_disk
      d_disk D_disk d_disk d_path stored
      ((record { key = d_path; value = codec.dumps (dict D_disk) }) ∷ stored) (d_entry ∷ stored)
      disks_made (checked (codes "D") 2) (checked (codes "d") 9) refl D_found (D_ran stored)
      (d_ran ((record { key = d_path; value = codec.dumps (dict D_disk) }) ∷ stored))

d_read : read_object codec disk_model (codec.dumps (dict d_disk)) ≡ ok d_disk
unfolding read_object first run value_onto
d_read = refl

d_converted : convert disk_model (codes "id") (str (codes "d")) ≡ ok (str (codes "d"))
unfolding convert contains ◌==◌
d_converted = refl

others :
    All
      (λ e.
        (is_under (codes "cortx/base/disks/obj/") e
          && satisfies codec disk_model
              (id_filter memory_client disk_model codec shown memory_store (str (codes "d")))
              e)
        ≡ false)
      stored
unfolding holds meets read_object first run value_onto convert field_to_str contains ◌==◌
    is_suitable apply_operator value_eq atom_eq lookup starts_with
others = (refl, (refl, (refl, tt)))

new-AreDistinct : AreDistinct (d_entry ∷ stored)
unfolding contains ◌==◌
new-AreDistinct = (refl, stored-AreDistinct)

new-AreReadable :
    AreReadable disk_model codec
      (keep (is_under (codes "cortx/base/disks/obj/")) (d_entry ∷ stored))
unfolding read_object first run value_onto starts_with
new-AreReadable = (
  (d_disk, refl),
  ((disk (codes "a") 3, refl), ((disk (codes "b") 7, refl), ((disk (codes "c") 5, refl), tt))),
)

get_by_id-store_example :
    get_by_id memory_client disk_model codec shown disks (str (codes "d")) (d_entry ∷ stored)
    ≡ ok (some d_disk)
unfolding lookup ◌==◌ lower value_eq atom_eq
get_by_id-store_example =
    get_by_id-store memory_client disk_model codec shown memory_store disks (codes "disks") d_path
      d_disk d_disk (str (codes "d")) (str (codes "d")) stored (d_entry ∷ stored) disks_made
      (checked (codes "d") 9) d_found d_read d_converted d_converted refl others new-AreReadable
      new-AreDistinct (d_ran stored)
