-- ===== src/Data/Converter/Laws.antt =====
-- The entries that a filter keeps: those whose object satisfies it.
use cortx_utils.Base.{
  Text, List, [], ◌∷◌, Bool, false, contains, eq_iff, some, ok, Assoc, find, store, find-store,
  find-store_self, ◌≡◌, refl, ap, sym, ◌∙◌, arith, ◌>>=◌,
}
use cortx_utils.Value.{Value, Fields}
use cortx_utils.Value.Order.{less}
use cortx_utils.Activity.Checks.{Json}
use cortx_utils.Data.Filters.{operation_gt, LeftOperand, Filter, filter_compare}
use cortx_utils.Data.Models.{Model, attribute, field_to_str, convert, read_object}
use cortx_utils.Data.Converter.{
  Entry, is_suitable, apply_operator, visit, object_data, filter_entries, build,
}
use cortx_utils.Data.Converter.Entries.{keys, keep, All, AreDistinct, keep_cong}
use cortx_utils.Data.Converter.Visit.{>>=-ok, to_option, is_true, meets, holds, visit-holds}

module _ (J : Json) (M : Model) where
  -- Does the object of an entry satisfy a filter?
  abbrev pub satisfies : Filter → Entry → Bool
  satisfies f e = holds M f (to_option (read_object J M e.value))

  -- The keys of later entries leave what is there under another key.
  object_data_apart :
      (k : Text) (es : List Entry) (objects all : Assoc Fields)
      → object_data M J es objects ≡ ok all
      → contains k (keys es) ≡ false
      → find k all ≡ find k objects
  unfolding object_data contains
  object_data_apart k [] objects all h new = let same : all ≡ objects = cc in ap (find k) same
  object_data_apart k (e ∷ es) objects all h new =
      let (o, opened, h1) = >>=-ok (read_object J M e.value) _ h in
      object_data_apart k es (store e.key o objects) all h1 (ground arith)
      ∙ ground (arith, find-store e.key k o objects, eq_iff e.key k, eq_iff k e.key)

  -- Each of the entries, if their keys are distinct, has its own object under its key.
  object_data-find :
      (es : List Entry) (objects all : Assoc Fields)
      → object_data M J es objects ≡ ok all
      → AreDistinct es
      → All (λ e. find e.key all ≡ to_option (read_object J M e.value)) es
  unfolding object_data
  object_data-find [] objects all h d = tt
  object_data-find (e ∷ es) objects all h (new, d) =
      let (o, opened, h1) = >>=-ok (read_object J M e.value) _ h in
      (
        object_data_apart e.key es (store e.key o objects) all h1 new
            ∙ find-store_self e.key o objects
            ∙ sym (ap to_option opened),
        object_data-find es (store e.key o objects) all h1 d,
      )

  filter_entries-keep :
      (ks : List Text) (es : List Entry)
      → filter_entries M J ks es ≡ keep (λ e. contains e.key ks) es
  unfolding filter_entries
  filter_entries-keep ks [] = refl
  filter_entries-keep ks (e ∷ es) = rw (filter_entries-keep ks es) (ground arith)

  agree :
      (root : Filter) (all : Assoc Fields) (ks : List Text) (es : List Entry)
      → visit M root all ≡ ok ks
      → All (λ e. find e.key all ≡ to_option (read_object J M e.value)) es
      → All (λ e. contains e.key ks ≡ satisfies root e) es
  agree root all ks [] visited hs = tt
  agree root all ks (e ∷ es) visited (h, hs) = (
    visit-holds M root all ks e.key visited ∙ ap (holds M root) h,
    agree root all ks es visited hs,
  )

  -- What `build` returns are the entries whose object satisfies the filter, in their order: the
  -- comparisons are made on each object, and `and` and `or` are those of truth values. The keys of
  -- the entries must be distinct.
  pub build-satisfies :
      (root : Filter) (raw kept : List Entry)
      → AreDistinct raw
      → build M J root raw ≡ ok kept
      → kept ≡ keep (satisfies root) raw
  unfolding build
  build-satisfies root raw kept d h =
      let (all, read, h1) = >>=-ok (object_data M J raw []) _ h in
      let (ks, visited, h2) = >>=-ok (visit M root all) _ h1 in
      let same : kept ≡ filter_entries M J ks raw = cc in
      same
      ∙ filter_entries-keep ks raw
      ∙ keep_cong _ _ raw (agree root all ks raw visited (object_data-find raw [] all read d))

-- A comparison of a field by `>` selects those objects whose field is less than the value, and no
-- others: the two stand in the wrong order.
pub visit_misorders :
    (M : Model) (left : LeftOperand) (right native : Value) (name k : Text) (objects : Assoc Fields)
    (ks : List Text) (o : Fields)
    → field_to_str left ≡ ok name
    → convert M name right ≡ ok native
    → visit M (filter_compare left operation_gt right) objects ≡ ok ks
    → find k objects ≡ some o
    → contains k ks ≡ is_true (less (attribute name o) native)
unfolding holds meets is_suitable apply_operator
visit_misorders M left right native name k objects ks o named converted h there =
    visit-holds M (filter_compare left operation_gt right) objects ks k h
    ∙ rw (there, named, ◌>>=◌) (rw (converted, ◌>>=◌) refl)
