-- ===== src/Data/Queries.antt =====
-- Queries (py-utils/src/utils/data/access/queries.py).
use cortx_utils.Base.{Option, none, some}
use cortx_utils.Value.{ℤ}
use cortx_utils.Data.Filters.{Filter, LeftOperand}

pub data SortOrder : Type 0 where
  asc desc : SortOrder

pub record OrderBy : Type 0 where
  pub by_field : LeftOperand
  pub by_order : SortOrder

-- `Query`, by its data.
pub record Query : Type 0 where
  pub order_by : Option OrderBy
  pub filter_by : Option Filter
  pub limit : Option ℤ
  pub offset : Option ℤ

-- `Query()`
abbrev pub new_query : Query
new_query = record { order_by = none; filter_by = none; limit = none; offset = none }

unfoldable pub set_order_by : LeftOperand → SortOrder → Query → Query
set_order_by field direction q = record q {
  order_by = some (record { by_field = field; by_order = direction });
}

unfoldable pub set_filter_by : Filter → Query → Query
set_filter_by f q = record q { filter_by = some f }

unfoldable pub set_limit : ℤ → Query → Query
set_limit n q = record q { limit = some n }

unfoldable pub set_offset : ℤ → Query → Query
set_offset n q = record q { offset = some n }
