-- ===== src/Value/Order.antt =====
-- Python's `<`, `<=`, `>` and `>=` on values: numbers and booleans by size, texts by their code
-- points, lists by their first elements that differ; all else is a `TypeError`.
pub mod Laws
use Prim.Native.Nat.{compare, Ordering}
use cortx_utils.Base.{
  Text, Bool, true, false, [], ◌∷◌, ◌=ℕ◌, if◌then◌else◌, Result, ok, err, type_error,
}
use cortx_utils.Value.{ℤ, pos, negsuc, Value, bool, int, str, list, Items, nil, cons}
use cortx_utils.Value.Compare.{value_eq}

unfoldable pub order_int : ℤ → ℤ → Ordering
order_int (pos m) (pos n) = compare m n
order_int (pos m) (negsuc n) = Ordering.gt
order_int (negsuc m) (pos n) = Ordering.lt
order_int (negsuc m) (negsuc n) = compare n m

unfoldable pub order_text : Text → Text → Ordering
order_text [] [] = Ordering.eq
order_text [] (d ∷ t) = Ordering.lt
order_text (c ∷ s) [] = Ordering.gt
order_text (c ∷ s) (d ∷ t) = let rest = order_text s t in if c =ℕ d then rest else compare c d

abbrev pub number : Bool → ℤ
number true = pos 1
number false = pos 0

-- The order of what is no list.
unfoldable pub order_atom : Value → Value → Result Ordering
order_atom (bool a) (bool b) = ok (order_int (number a) (number b))
order_atom (bool a) (int n) = ok (order_int (number a) n)
order_atom (int m) (bool b) = ok (order_int m (number b))
order_atom (int m) (int n) = ok (order_int m n)
order_atom (str s) (str t) = ok (order_text s t)
order_atom _ _ = err type_error

unfoldable mutual
  pub order : Value → Value → Result Ordering
  order (list xs) (list ys) = order_items xs ys
  order v w = order_atom v w

  pub order_items : Items → Items → Result Ordering
  order_items nil nil = ok Ordering.eq
  order_items nil (cons y ys) = ok Ordering.lt
  order_items (cons x xs) nil = ok Ordering.gt
  order_items (cons x xs) (cons y ys) =
      let rest = order_items xs ys in let first = order x y in if value_eq x y then rest else first

-- `v < w`
unfoldable pub less : Value → Value → Result Bool
less v w = elim (order v w) [
  | ok o ↦ ok (elim o [ Ordering.lt ↦ true | _ ↦ false ])
  | err e ↦ err e
]

-- `v <= w`
unfoldable pub less_or_equal : Value → Value → Result Bool
less_or_equal v w = elim (order v w) [
  | ok o ↦ ok (elim o [ Ordering.gt ↦ false | _ ↦ true ])
  | err e ↦ err e
]
