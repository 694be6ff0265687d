-- ===== src/Data/Converter/Visit.antt =====
-- The keys that a filter selects, beside what it means for each object taken by itself.
use cortx_utils.Base.{
  Text, List, [], ◌∷◌, ◌++◌, Bool, true, false, ◌&&◌, ◌||◌, if◌then◌else◌, contains, ◌==◌, eq_iff,
  eq_cases, Option, Option-cases, none, some, Result, ok, err, Assoc, find, ◌≡◌, refl, ◌∙◌, arith,
  inl, inr, ◌>>=◌,
}
use cortx_utils.Value.{Value, Fields}
use cortx_utils.Data.Filters.{
  ComparisonOperation, LeftOperand, Filter, filter_and, filter_or, filter_compare, Filters, no_more,
  operand,
}
use cortx_utils.Data.Models.{Model, attribute, field_to_str, convert}
use cortx_utils.Data.Converter.{
  is_suitable, keys_of, at_key, select_keys, intersection, handle_compare, visit, handle_and,
  and_all, handle_or, or_all,
}
use cortx_utils.Data.Converter.Entries.{contains-intersection, contains-append}

abbrev pub is_true : Result Bool → Bool
is_true (ok b) = b
is_true (err e) = false

abbrev pub to_option {ℓ} : {A : Type ℓ} → Result A → Option A
to_option (ok a) = some a
to_option (err e) = none

abbrev pub has_value : Option Fields → Bool
has_value none = false
has_value (some o) = true

-- The parts of a computation that returned.
pub >>=-ok :
    {A B : Type 0} (first : Result A) (next : A → Result B) {last : B}
    → (first >>= next) ≡ ok last
    → (found : A) × (first ≡ ok found) × (next found ≡ ok last)
>>=-ok (err raised) next returned = absurd cc
>>=-ok (ok found) next returned = (found, refl, returned)

pub contains-keys_of :
    (k : Text) (objects : Assoc Fields) → contains k (keys_of objects) ≡ has_value (find k objects)
unfolding contains keys_of find
contains-keys_of k [] = refl
contains-keys_of k ((j, o) ∷ objects) =
    ground (arith, contains-keys_of k objects, eq_iff k j, eq_iff j k)

select_step :
    (k j : Text) (kept : Bool) (found ks : List Text) (test : Text → Result Bool)
    → test j ≡ ok kept
    → contains k found ≡ (contains k ks && is_true (test k))
    → contains k (if kept then j ∷ found else found)
      ≡ ((k == j || contains k ks) && is_true (test k))
unfolding contains
select_step k j true found ks test tested h = elim (eq_cases k j) [
  | inl same ↦ ground (arith, eq_iff k j)
  | inr other ↦ rw other h
]
select_step k j false found ks test tested h = elim (eq_cases k j) [
  | inl same ↦ ground (arith, eq_iff k j)
  | inr other ↦ rw other h
]

pub contains-select_keys :
    (k : Text) (test : Text → Result Bool) (ks : List Text) (found : List Text)
    → select_keys test ks ≡ ok found
    → contains k found ≡ (contains k ks && is_true (test k))
unfolding contains select_keys
contains-select_keys k test [] found h = let none_found : found ≡ [] = cc in rw none_found refl
contains-select_keys k test (j ∷ ks) found h =
    let (kept, tested, h1) = >>=-ok (test j) _ h in
    let (others, rest, h2) = >>=-ok (select_keys test ks) _ h1 in
    let both : found ≡ (if kept then j ∷ others else others) = cc in
    rw both
      (select_step k j kept others ks test tested (contains-select_keys k test ks others rest))

module _ (M : Model) where
  -- Does an object satisfy a comparison? One that is not there does not, nor does one of a type that
  -- cannot be compared.
  unfoldable pub meets : LeftOperand → ComparisonOperation → Value → Option Fields → Bool
  meets left op right none = false
  meets left op right (some o) = is_true (
      field_to_str left >>= λ name.
      convert M name right >>= λ native. is_suitable op (attribute name o) native)

  unfoldable mutual
    -- `and` is the conjunction, and `or` the disjunction.
    pub holds : Filter → Option Fields → Bool
    holds (filter_and fs) o = all_hold fs o
    holds (filter_or fs) o = any_holds fs o
    holds (filter_compare left op right) o = meets left op right o

    pub all_hold : Filters → Option Fields → Bool
    all_hold no_more o = true
    all_hold (operand f fs) o = holds f o && all_hold fs o

    pub any_holds : Filters → Option Fields → Bool
    any_holds no_more o = false
    any_holds (operand f fs) o = holds f o || any_holds fs o

  select-meets :
      (left : LeftOperand) (op : ComparisonOperation) (right : Value) (objects : Assoc Fields)
      (k : Text) (name : Text) (native : Value)
      → field_to_str left ≡ ok name
      → convert M name right ≡ ok native
      → (contains k (keys_of objects)
          && is_true (at_key k objects >>= λ o. is_suitable op (attribute name o) native))
        ≡ meets left op right (find k objects)
  unfolding meets at_key
  select-meets left op right objects k name native named converted =
      rw (contains-keys_of k objects) (elim (Option-cases (find k objects)) [
        | inl missing ↦ rw missing refl
        | inr (o, there) ↦ rw (there, named, ◌>>=◌) (rw (converted, ◌>>=◌) refl)
      ])

  handle_compare-meets :
      (left : LeftOperand) (op : ComparisonOperation) (right : Value) (objects : Assoc Fields)
      (ks : List Text) (k : Text)
      → handle_compare M left op right objects ≡ ok ks
      → contains k ks ≡ meets left op right (find k objects)
  unfolding handle_compare
  handle_compare-meets left op right objects ks k h =
      let (name, named, h1) = >>=-ok (field_to_str left) _ h in
      let (native, converted, h2) = >>=-ok (convert M name right) _ h1 in
      contains-select_keys k _ (keys_of objects) ks h2
      ∙ select-meets left op right objects k name native named converted

  mutual
    unfolding visit handle_and and_all handle_or or_all holds all_hold any_holds

    pub visit-holds :
        (f : Filter) (objects : Assoc Fields) (ks : List Text) (k : Text)
        → visit M f objects ≡ ok ks
        → contains k ks ≡ holds f (find k objects)
    visit-holds (filter_and (operand f (operand g fs))) objects ks k h =
        let (first, visited, h1) = >>=-ok (visit M f objects) _ h in
        let (second, visited', h2) = >>=-ok (visit M g objects) _ h1 in
        and_all-holds (intersection first second) fs objects ks k h2
        ∙ rw
            (
              contains-intersection k first second,
              visit-holds f objects first k visited,
              visit-holds g objects second k visited',
            )
            (ground arith)
    visit-holds (filter_and no_more) objects ks k h = absurd cc
    visit-holds (filter_and (operand f no_more)) objects ks k h = absurd cc
    visit-holds (filter_or (operand f (operand g fs))) objects ks k h =
        let (first, visited, h1) = >>=-ok (visit M f objects) _ h in
        let (second, visited', h2) = >>=-ok (visit M g objects) _ h1 in
        or_all-holds (first ++ second) fs objects ks k h2
        ∙ rw
            (
              contains-append k first second,
              visit-holds f objects first k visited,
              visit-holds g objects second k visited',
            )
            (ground arith)
    visit-holds (filter_or no_more) objects ks k h = absurd cc
    visit-holds (filter_or (operand f no_more)) objects ks k h = absurd cc
    visit-holds (filter_compare left op right) objects ks k h =
        handle_compare-meets left op right objects ks k h

    and_all-holds :
        (ret : List Text) (fs : Filters) (objects : Assoc Fields) (ks : List Text) (k : Text)
        → and_all M ret fs objects ≡ ok ks
        → contains k ks ≡ (contains k ret && all_hold fs (find k objects))
    and_all-holds ret no_more objects ks k h = let same : ks ≡ ret = cc in rw same (ground arith)
    and_all-holds ret (operand f fs) objects ks k h =
        let (next, visited, h1) = >>=-ok (visit M f objects) _ h in
        and_all-holds (intersection ret next) fs objects ks k h1
        ∙ rw (contains-intersection k ret next, visit-holds f objects next k visited) (ground arith)

    or_all-holds :
        (ret : List Text) (fs : Filters) (objects : Assoc Fields) (ks : List Text) (k : Text)
        → or_all M ret fs objects ≡ ok ks
        → contains k ks ≡ (contains k ret || any_holds fs (find k objects))
    or_all-holds ret no_more objects ks k h = let same : ks ≡ ret = cc in rw same (ground arith)
    or_all-holds ret (operand f fs) objects ks k h =
        let (next, visited, h1) = >>=-ok (visit M f objects) _ h in
        or_all-holds (ret ++ next) fs objects ks k h1
        ∙ rw (contains-append k ret next, visit-holds f objects next k visited) (ground arith)
