-- ===== src/Data/Converter.antt =====
-- `GenericQueryConverter` (py-utils/src/utils/data/db/generic_storage.py) and
-- `ConsulQueryConverterWithData` (py-utils/src/utils/data/db/consul_db/storage.py): the keys of the
-- objects that a filter selects. A set of keys is a list, whose order nothing uses.
pub mod Entries
pub mod Visit
pub mod Laws
pub mod Total
use cortx_utils.Base.{
  Text, List, [], ◌∷◌, Bool, true, false, not, Option, none, some, Result, ok, err, exception,
  key_error, ◌>>=◌, contains, if◌then◌else◌, ◌++◌, Assoc, find, store,
}
use cortx_utils.Value.{Value, Fields}
use cortx_utils.Value.Compare.{value_eq}
use cortx_utils.Value.Order.{less, less_or_equal}
use cortx_utils.Value.Access.{is_in}
use cortx_utils.Activity.Checks.{Json}
use cortx_utils.Data.Filters.{
  ComparisonOperation, operation_gt, operation_lt, operation_eq, operation_leq, operation_geq,
  operation_ne, operation_like, LeftOperand, Filter, filter_and, filter_or, filter_compare, Filters,
  no_more, operand,
}
use cortx_utils.Data.Models.{Model, attribute, field_to_str, convert, read_object}

-- An entry of the store of keys.
pub record Entry : Type 0 where
  pub key : Text
  pub value : Text

-- `self._operator[op](a, b)`; `operator.contains(a, b)` is `b in a`.
unfoldable pub apply_operator : ComparisonOperation → Value → Value → Result Bool
apply_operator operation_eq a b = ok (value_eq a b)
apply_operator operation_ne a b = ok (not (value_eq a b))
apply_operator operation_geq a b = less_or_equal b a
apply_operator operation_leq a b = less_or_equal a b
apply_operator operation_gt a b = less b a
apply_operator operation_lt a b = less a b
apply_operator operation_like a b = is_in b a

-- The test of `handle_compare` on one object: `like` has the attribute on its left, and the others
-- have it on their right.
unfoldable pub is_suitable : ComparisonOperation → Value → Value → Result Bool
is_suitable operation_like attr right = apply_operator operation_like attr right
is_suitable op attr right = apply_operator op right attr

-- `self._object_data.keys()`
unfoldable pub keys_of : Assoc Fields → List Text
keys_of [] = []
keys_of ((k, o) ∷ objects) = k ∷ keys_of objects

-- `self._object_data[x]`
unfoldable pub at_key : Text → Assoc Fields → Result Fields
at_key k objects = elim (find k objects) [ none ↦ err key_error | some o ↦ ok o ]

-- `set(filter(test, keys))`
unfoldable pub select_keys : (Text → Result Bool) → List Text → Result (List Text)
select_keys test [] = ok []
select_keys test (k ∷ ks) =
    let rest = select_keys test ks in
    test k >>= λ kept. rest >>= λ found. ok (if kept then k ∷ found else found)

-- `a & b`
unfoldable pub intersection : List Text → List Text → List Text
intersection [] ks = []
intersection (j ∷ js) ks = let rest = intersection js ks in if contains j ks then j ∷ rest else rest

module _ (M : Model) where
  -- `handle_compare`
  unfoldable pub handle_compare :
      LeftOperand → ComparisonOperation → Value → Assoc Fields → Result (List Text)
  handle_compare left op right objects = field_to_str left >>= λ name.
      convert M name right >>= λ native.
      select_keys (λ k. at_key k objects >>= λ o. is_suitable op (attribute name o) native)
        (keys_of objects)

  unfoldable mutual
    -- `accept_visitor`
    pub visit : Filter → Assoc Fields → Result (List Text)
    visit (filter_and fs) objects = handle_and fs objects
    visit (filter_or fs) objects = handle_or fs objects
    visit (filter_compare left op right) objects = handle_compare left op right objects

    -- `handle_and`: two operands at least.
    pub handle_and : Filters → Assoc Fields → Result (List Text)
    handle_and (operand f (operand g fs)) objects = visit f objects >>= λ first.
        visit g objects >>= λ second. and_all (intersection first second) fs objects
    handle_and _ objects = err exception

    -- The loop of `handle_and`.
    pub and_all : List Text → Filters → Assoc Fields → Result (List Text)
    and_all ret no_more objects = ok ret
    and_all ret (operand f fs) objects =
        visit f objects >>= λ ks. and_all (intersection ret ks) fs objects

    -- `handle_or`
    pub handle_or : Filters → Assoc Fields → Result (List Text)
    handle_or (operand f (operand g fs)) objects = visit f objects >>= λ first.
        visit g objects >>= λ second. or_all (first ++ second) fs objects
    handle_or _ objects = err exception

    -- The loop of `handle_or`.
    pub or_all : List Text → Filters → Assoc Fields → Result (List Text)
    or_all ret no_more objects = ok ret
    or_all ret (operand f fs) objects = visit f objects >>= λ ks. or_all (ret ++ ks) fs objects

  module _ (J : Json) where
    -- `self._object_data`: of entries with one key the last one counts.
    unfoldable pub object_data : List Entry → Assoc Fields → Result (Assoc Fields)
    object_data [] objects = ok objects
    object_data (e ∷ es) objects =
        read_object J M e.value >>= λ o. object_data es (store e.key o objects)

    -- `_filter`
    unfoldable pub filter_entries : List Text → List Entry → List Entry
    filter_entries ks [] = []
    filter_entries ks (e ∷ es) =
        let rest = filter_entries ks es in if contains e.key ks then e ∷ rest else rest

    -- `build`
    unfoldable pub build : Filter → List Entry → Result (List Entry)
    build root raw =
        object_data raw [] >>= λ objects. visit root objects >>= λ ks. ok (filter_entries ks raw)
