-- ===== src/Value.antt =====
-- The data that `KvPayload` holds: Python's dicts in insertion order, lists, strings, integers,
-- booleans and `None`, as JSON, YAML and TOML files load them. Floats are left out.
pub mod Dict
pub mod Seq
pub mod Compare
pub mod Order
pub mod Access
use cortx_utils.Base.{ℕ, Text, Bool, true, false, Option, none, some, ◌==◌, if◌then◌else◌}

-- `negsuc n` is -(n + 1).
pub data ℤ : Type 0 where
  pos : ℕ → ℤ
  negsuc : ℕ → ℤ

mutual
  pub data Value : Type 0 where
    null : Value
    bool : Bool → Value
    int : ℤ → Value
    str : Text → Value
    list : Items → Value
    dict : Fields → Value

  pub data Items : Type 0 where
    nil : Items
    cons : Value → Items → Items

  pub data Fields : Type 0 where
    end : Fields
    field : Text → Value → Fields → Fields

-- `isinstance(v, (str, int))`: `bool` is a subclass of `int`.
abbrev pub is_scalar : Value → Bool
is_scalar (bool b) = true
is_scalar (int n) = true
is_scalar (str s) = true
is_scalar _ = false

abbrev pub is_dict : Value → Bool
is_dict (dict fs) = true
is_dict _ = false

abbrev pub is_list : Value → Bool
is_list (list xs) = true
is_list _ = false
