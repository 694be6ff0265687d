-- ===== src/Data/Consul/Identity.antt =====
-- Objects found by their identifier.
use cortx_utils.Base.{
  ℕ, Text, codes, List, [], ◌∷◌, ◌++◌, append_assoc, append-nil, Bool, true, false, not, ◌&&◌,
  starts_with, ◌==◌, Option, none, some, Result, ok, err, find, ◌>>=◌, ◌≡◌, refl, ap, sym, ◌∙◌,
  arith, ◌=ℕ◌, =ℕ_refl, inl, inr,
}
use cortx_utils.Base
use cortx_utils.Key.Words.{lower}
use cortx_utils.Value.{Value, Fields}
use cortx_utils.Value.Compare.{value_eq}
use cortx_utils.Activity.Checks.{Json}
use cortx_utils.Data.Filters.{Filter, filter_compare, name, operation_eq}
use cortx_utils.Data.Queries.{new_query, set_filter_by}
use cortx_utils.Data.Models.{Model, field_to_str, attribute, convert, read_object}
use cortx_utils.Data.Templates.{new_templates, set_object_type}
use cortx_utils.Data.Converter.{Entry, build, is_suitable, apply_operator}
use cortx_utils.Data.Converter.Entries.{
  keep, All, AreDistinct, AreDistinct-keep, keep-keep, keep_one,
}
use cortx_utils.Data.Converter.Visit.{holds, meets}
use cortx_utils.Data.Converter.Laws.{satisfies, build-satisfies}
use cortx_utils.Data.Converter.Total.{AreReadable, build_total}
use cortx_utils.Data.Consul.{
  Client, ConsulDb, check_object, path_of, store, get_by_id, by_id, last_of, get, get_from,
  suitable, page, get_all_raw, read_objects, ordered,
}
use cortx_utils.Data.Consul.Store.{IsStore, is_under, get_all_raw-keep}
use cortx_utils.Data.Consul.Paths.{dir_text, path_text, under_path, path_of_lem, get_object_dir_lem}
use cortx_utils.Data.Consul.Writing.{store_written}

module _ (C : Client) (M : Model) (J : Json) (shown : Value → Text) (S : IsStore C) where
  -- The filter by an identifier.
  abbrev pub id_filter : Value → Filter
  id_filter native = filter_compare (name M.primary_key) operation_eq native

  satisfies_id :
      (native : Value) (valid : Fields) (e : Entry)
      → convert M M.primary_key native ≡ ok native
      → value_eq native (attribute M.primary_key valid) ≡ true
      → read_object J M e.value ≡ ok valid
      → satisfies J M (id_filter native) e ≡ true
  unfolding holds meets field_to_str is_suitable apply_operator
  satisfies_id native valid e converted equal read = rw read (rw (converted, ◌>>=◌) equal)

  -- What a query for one entry returns.
  found_one :
      (f : Filter) (e : Entry) (valid : Fields) (raw kept : List Entry)
      → AreDistinct raw
      → keep (satisfies J M f) raw ≡ e ∷ []
      → read_object J M e.value ≡ ok valid
      → build M J f raw ≡ ok kept
      → get_from C M J shown (set_filter_by f new_query) raw ≡ ok (valid ∷ [])
  unfolding get_from suitable set_filter_by read_objects ordered page
  found_one f e valid [] kept distinct one read built = absurd cc
  found_one f e valid (x ∷ xs) kept distinct one read built =
      let kept_is : kept ≡ e ∷ [] = build-satisfies J M f (x ∷ xs) kept distinct built ∙ one in
      rw (built ∙ ap (λ ks. Base.ok ks) kept_is, ◌>>=◌, read_objects, read, ◌>>=◌) refl

  -- The entry that is written is the one that a filter by the identifier selects.
  written_one :
      (c path text : Text) (native : Value) (valid : Fields) (w w' : C.World)
      → is_under (lower (dir_text c) ++ codes "/") (record { key = path; value = text }) ≡ true
      → satisfies J M (id_filter native) (record { key = path; value = text }) ≡ true
      → All
          (λ e.
            (is_under (lower (dir_text c) ++ codes "/") e && satisfies J M (id_filter native) e)
            ≡ false)
          (keep (λ e. not (e.key == path)) (S.entries w))
      → (C.put_value path text w).0 ≡ ok true
      → w' ≡ (C.put_value path text w).1
      → keep
          (satisfies J M (id_filter native))
          (keep (is_under (lower (dir_text c) ++ codes "/")) (S.entries w'))
        ≡ (record { key = path; value = text }) ∷ []
  written_one c path text native valid w w' under suits others answered after = rw after (
      keep-keep (satisfies J M (id_filter native)) (is_under (lower (dir_text c) ++ codes "/"))
        (S.entries (C.put_value path text w).1)
      ∙ keep_one _ path (record { key = path; value = text })
          (S.entries (C.put_value path text w).1) (S.put_value_there path text w answered)
          (rw (S.put_value_others path text w answered) others) (rw under suits))

  by_id_lem :
      (id native : Value)
      → convert M M.primary_key id ≡ ok native
      → by_id C M J shown id ≡ ok (id_filter native)
  unfolding by_id
  by_id_lem id native converted = rw (converted, ◌>>=◌) refl

  answer_one :
      (db : ConsulDb) (f : Filter) (e : Entry) (valid : Fields) (id : Value) (w : C.World)
      (raw kept : List Entry)
      → by_id C M J shown id ≡ ok f
      → get_all_raw C M J shown db w ≡ ok raw
      → AreDistinct raw
      → keep (satisfies J M f) raw ≡ e ∷ []
      → read_object J M e.value ≡ ok valid
      → build M J f raw ≡ ok kept
      → get_by_id C M J shown db id w ≡ ok (some valid)
  unfolding get_by_id get last_of
  answer_one db f e valid id w raw kept named there distinct one read built =
      rw (named, ◌>>=◌, there, ◌>>=◌)
        (rw (found_one f e valid raw kept distinct one read built, ◌>>=◌) refl)

  -- An object that `store` has stored is returned by `get_by_id`, as it was after its validation, if
  -- it can be read back, as can the other objects of the collection, the conversion of the
  -- identifier gives its primary key, which no other object of the collection has, and the keys of
  -- the store are distinct.
  pub get_by_id-store :
      (db : ConsulDb) (c path : Text) (obj valid : Fields) (id native : Value) (w w' : C.World)
      → set_object_type c new_templates ≡ ok db.templates
      → check_object C M J shown db.model_scheme obj ≡ ok valid
      → path_of C M J shown db (shown (attribute M.primary_key valid)) ≡ ok path
      → read_object J M (J.dumps (M.to_primitive valid)) ≡ ok valid
      → convert M M.primary_key id ≡ ok native
      → convert M M.primary_key native ≡ ok native
      → value_eq native (attribute M.primary_key valid) ≡ true
      → All
          (λ e.
            (is_under (lower (dir_text c) ++ codes "/") e && satisfies J M (id_filter native) e)
            ≡ false)
          (keep (λ e. not (e.key == path)) (S.entries w))
      → AreReadable M J (keep (is_under (lower (dir_text c) ++ codes "/")) (S.entries w'))
      → AreDistinct (S.entries w')
      → store C M J shown db obj w ≡ (ok tt, w')
      → get_by_id C M J shown db id w' ≡ ok (some valid)
  unfolding field_to_str
  get_by_id-store db c path obj valid id native w w' h checked found back converted again equal
        others readable distinct ran =
      let text = J.dumps (M.to_primitive valid) in
      let e : Entry = record { key = path; value = text } in
      let prefix = lower (dir_text c) ++ codes "/" in
      let (answered, after) = store_written C M J shown db obj valid path w w' checked found ran in
      let place : Base.ok path ≡ ok (lower (path_text c (shown (attribute M.primary_key valid)))) =
        sym found ∙ path_of_lem C M J shown db c (shown (attribute M.primary_key valid)) h in
      let path_is : path ≡ lower (path_text c (shown (attribute M.primary_key valid))) = cc in
      let under : is_under prefix e ≡ true =
        rw path_is (under_path c (shown (attribute M.primary_key valid))) in
      let one =
        written_one c path text native valid w w' under
          (satisfies_id native valid e again equal back) others answered after in
      let raw = keep (is_under prefix) (S.entries w') in
      let (kept, built) =
        build_total M J (name M.primary_key) native native M.primary_key raw refl again readable in
      answer_one db (id_filter native) e valid id w' raw kept (by_id_lem id native converted)
        (get_all_raw-keep C M J shown S db w' (dir_text c) (get_object_dir_lem c db.templates h))
        (AreDistinct-keep (is_under prefix) (S.entries w') distinct) one back built
