-- ===== src/Data/Filters.antt =====
-- The filters of queries (py-utils/src/utils/data/access/filters.py).
use cortx_utils.Base.{
  Text, codes, List, [], ◌∷◌, Option, none, some, if◌then◌else◌, ◌==◌, Result, ok, err,
  malformed_query,
}
use cortx_utils.Value.{Value}

pub data ComparisonOperation : Type 0 where
  operation_gt operation_lt operation_eq operation_leq operation_geq operation_ne operation_like :
      ComparisonOperation

-- The left operand of a comparison: the name of a field, a field, or what is neither.
pub data LeftOperand : Type 0 where
  name : Text → LeftOperand
  base_type : Text → LeftOperand
  unknown : LeftOperand

-- `FilterOperationAnd`, `FilterOperationOr` and `FilterOperationCompare`.
mutual
  pub data Filter : Type 0 where
    filter_and : Filters → Filter
    filter_or : Filters → Filter
    filter_compare : LeftOperand → ComparisonOperation → Value → Filter

  pub data Filters : Type 0 where
    no_more : Filters
    operand : Filter → Filters → Filters

-- An argument of `And` and `Or`, which need not be a filter.
pub data Argument : Type 0 where
  filter : Filter → Argument
  other : Value → Argument

-- `all(isinstance(x, IFilter) for x in args)`, with the filters.
unfoldable pub filters_of : List Argument → Option Filters
filters_of [] = some no_more
filters_of (filter f ∷ args) = elim (filters_of args) [
  | none ↦ none
  | some fs ↦ some (operand f fs)
]
filters_of (other v ∷ args) = none

-- `__init__` of `FilterOperationAnd` and `FilterOperationOr`: two filters at least.
unfoldable pub operands : List Argument → Result Filters
operands [] = err malformed_query
operands (a ∷ []) = err malformed_query
operands (a ∷ b ∷ args) = elim (filters_of (a ∷ b ∷ args)) [
  | none ↦ err malformed_query
  | some fs ↦ ok fs
]

-- `And`: one argument is passed on.
unfoldable pub and_of : List Argument → Result Argument
and_of [] = err malformed_query
and_of (a ∷ []) = ok a
and_of (a ∷ b ∷ args) = elim (operands (a ∷ b ∷ args)) [
  | ok fs ↦ ok (filter (filter_and fs))
  | err e ↦ err e
]

-- `Or`
unfoldable pub or_of : List Argument → Result Argument
or_of [] = err malformed_query
or_of (a ∷ []) = ok a
or_of (a ∷ b ∷ args) = elim (operands (a ∷ b ∷ args)) [
  | ok fs ↦ ok (filter (filter_or fs))
  | err e ↦ err e
]

-- `ComparisonOperation.from_standard_representation`
unfoldable pub from_standard_representation : Text → Result ComparisonOperation
from_standard_representation op =
    if op == codes "="
    then ok operation_eq
    else if op == codes ">"
    then ok operation_gt
    else if op == codes "<"
    then ok operation_lt
    else if op == codes ">="
    then ok operation_geq
    else if op == codes "<="
    then ok operation_leq
    else if op == codes "!="
    then ok operation_ne
    else if op == codes "like"
    then ok operation_like
    else err malformed_query

-- `Compare`
unfoldable pub compare_of : LeftOperand → Text → Value → Result Filter
compare_of left operation right = elim (from_standard_representation operation) [
  | ok op ↦ ok (filter_compare left op right)
  | err e ↦ err e
]
