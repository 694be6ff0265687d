-- ===== src/Value/Compare.antt =====
-- Python's `==`, `not v` and `isinstance` on the values of a payload.
pub mod Laws
use cortx_utils.Base.{zero, [], Bool, true, false, ◌&&◌, none, some, ◌==◌, ◌=ℕ◌}
use cortx_utils.Value.{
  ℤ, pos, negsuc, Value, null, bool, int, str, list, dict, Items, nil, cons, Fields, end, field,
}
use cortx_utils.Value.Dict.{lookup, size}

-- `v is None`
abbrev pub is_null : Value → Bool
is_null null = true
is_null _ = false

int_eq : ℤ → ℤ → Bool
int_eq (pos m) (pos n) = m =ℕ n
int_eq (negsuc m) (negsuc n) = m =ℕ n
int_eq _ _ = false

-- `True` is the integer 1.
of_bool : Bool → ℤ
of_bool true = pos 1
of_bool false = pos 0

-- `==` on what is neither a list nor a dict.
unfoldable pub atom_eq : Value → Value → Bool
unfolding int_eq of_bool
atom_eq null null = true
atom_eq (bool a) (bool b) = int_eq (of_bool a) (of_bool b)
atom_eq (bool a) (int n) = int_eq (of_bool a) n
atom_eq (int m) (bool b) = int_eq m (of_bool b)
atom_eq (int m) (int n) = int_eq m n
atom_eq (str s) (str t) = s == t
atom_eq _ _ = false

unfoldable mutual
  -- Two dicts are equal if they are of one size and each entry of the first is in the second.
  pub value_eq : Value → Value → Bool
  value_eq (list xs) (list ys) = items_eq xs ys
  value_eq (dict fs) (dict gs) = size fs =ℕ size gs && fields_in fs gs
  value_eq v w = atom_eq v w

  pub items_eq : Items → Items → Bool
  items_eq nil nil = true
  items_eq (cons x xs) (cons y ys) = value_eq x y && items_eq xs ys
  items_eq _ _ = false

  pub fields_in : Fields → Fields → Bool
  fields_in end gs = true
  fields_in (field k v fs) gs =
      elim (lookup k gs) [ none ↦ false | some w ↦ value_eq v w ] && fields_in fs gs

-- `bool(v)`
unfoldable pub is_truthy : Value → Bool
is_truthy null = false
is_truthy (bool b) = b
is_truthy (int (pos zero)) = false
is_truthy (str []) = false
is_truthy (list nil) = false
is_truthy (dict end) = false
is_truthy _ = true
