-- ===== src/Data/Converter/Total.antt =====
-- A comparison by `=` raises nothing on entries that can be read.
use cortx_utils.Base.{
  Text, List, [], ◌∷◌, Bool, true, contains, ◌==◌, eq_refl, ◌||◌, if◌then◌else◌, Option-cases,
  Result, ok, Assoc, find, store, ◌≡◌, refl, sym, ◌∙◌, arith, inl, inr, ◌>>=◌,
}
use cortx_utils.Value.{Value, Fields}
use cortx_utils.Value.Compare.{value_eq}
use cortx_utils.Activity.Checks.{Json}
use cortx_utils.Data.Filters.{LeftOperand, filter_compare, operation_eq}
use cortx_utils.Data.Models.{Model, attribute, field_to_str, convert, read_object}
use cortx_utils.Data.Converter.{
  Entry, is_suitable, apply_operator, keys_of, at_key, select_keys, handle_compare, visit,
  object_data, filter_entries, build,
}
use cortx_utils.Data.Converter.Entries.{All}
use cortx_utils.Data.Converter.Visit.{has_value, contains-keys_of}

select_keys_total :
    (test : Text → Result Bool) (ks : List Text)
    → ((k : Text) → contains k ks ≡ true → (b : Bool) × (test k ≡ ok b))
    → (found : List Text) × (select_keys test ks ≡ ok found)
unfolding select_keys contains
select_keys_total test [] h = ([], refl)
select_keys_total test (k ∷ ks) h =
    let (b, tested) = h k (rw (eq_refl k) refl) in
    let (found, rest) =
      select_keys_total test ks (λ j there. h j (or_right (j == k) (contains j ks) there)) in
    (if b then k ∷ found else found, rw (tested, ◌>>=◌) (rw (rest, ◌>>=◌) refl))
  where
    or_right : (a b : Bool) → b ≡ true → (a || b) ≡ true
    or_right a b e = ground arith

module _ (M : Model) where
  handle_compare_total :
      (left : LeftOperand) (right native : Value) (name : Text) (objects : Assoc Fields)
      → field_to_str left ≡ ok name
      → convert M name right ≡ ok native
      → (ks : List Text) × (handle_compare M left operation_eq right objects ≡ ok ks)
  unfolding handle_compare at_key is_suitable apply_operator
  handle_compare_total left right native name objects named converted =
      let (ks, selected) =
        select_keys_total
          (λ k. at_key k objects >>= λ o. is_suitable operation_eq (attribute name o) native)
          (keys_of objects) (λ k there. tested k (sym (contains-keys_of k objects) ∙ there)) in
      (ks, rw (named, ◌>>=◌) (rw (converted, ◌>>=◌) selected))
    where
      tested :
          (k : Text)
          → has_value (find k objects) ≡ true
          → (b : Bool) × ((at_key k objects >>= λ o.
                is_suitable operation_eq (attribute name o) native)
              ≡ ok b)
      tested k there = elim (Option-cases (find k objects)) [
        | inl missing ↦ absurd (let bad = rw missing at there in cc)
        | inr (o, here) ↦ (value_eq native (attribute name o), rw (at_key, here, ◌>>=◌) refl)
      ]

  module _ (J : Json) where
    -- The entries can be read.
    abbrev pub AreReadable : List Entry → Type 0
    AreReadable = All (λ e. (o : Fields) × (read_object J M e.value ≡ ok o))

    object_data_total :
        (es : List Entry) (objects : Assoc Fields)
        → AreReadable es
        → (all : Assoc Fields) × (object_data M J es objects ≡ ok all)
    unfolding object_data
    object_data_total [] objects h = (objects, refl)
    object_data_total (e ∷ es) objects ((o, opened), h) =
        let (all, rest) = object_data_total es (store e.key o objects) h in
        (all, rw (opened, ◌>>=◌) rest)

    pub build_total :
        (left : LeftOperand) (right native : Value) (name : Text) (raw : List Entry)
        → field_to_str left ≡ ok name
        → convert M name right ≡ ok native
        → AreReadable raw
        → (kept : List Entry) × (build M J (filter_compare left operation_eq right) raw ≡ ok kept)
    unfolding build visit
    build_total left right native name raw named converted readable =
        let (all, opened) = object_data_total raw [] readable in
        let (ks, visited) = handle_compare_total left right native name all named converted in
        (filter_entries M J ks raw, rw (opened, ◌>>=◌) (rw (visited, ◌>>=◌) refl))
