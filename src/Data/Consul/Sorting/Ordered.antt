-- ===== src/Data/Consul/Sorting/Ordered.antt =====
-- The order of objects by a field, and slices of objects in order.
use cortx_utils.Base.{
  ℕ, zero, suc, ◌-◌, Text, List, [], ◌∷◌, Bool, true, false, Result, ok, err, type_error, ◌≡◌, refl,
}
use cortx_utils.Value.{Value, str, Fields}
use cortx_utils.Value.Order.Laws.{AtMost, less-AtMost, not_less-AtMost}
use cortx_utils.Key.Words.{lower}
use cortx_utils.Data.Models.{attribute}
use cortx_utils.Data.Queries.{SortOrder, asc, desc}
use cortx_utils.Data.Consul.Sorting.{sort_key, precedes, take, drop, slice}

-- The first key may stand before the second one: it is at most as great, or in the other direction
-- at least as great.
abbrev pub Precedes : SortOrder → Value → Value → Type 0
Precedes asc v w = AtMost v w
Precedes desc v w = AtMost w v

-- The value of an object that the order goes by: that of the field, a text in lower case.
abbrev pub IsKeyOf : Bool → Text → Fields → Value → Type 0
IsKeyOf false k o v = v ≡ attribute k o
IsKeyOf true k o v = (s : Text) × (attribute k o ≡ str s) × (v ≡ str (lower s))

-- What the comparison of two keys says of their order.
pub precedes-Precedes :
    (direction : SortOrder) (v w : Value)
    → precedes direction v w ≡ ok true
    → Precedes direction w v
unfolding precedes
precedes-Precedes asc v w h = less-AtMost w v h
precedes-Precedes desc v w h = less-AtMost v w h

pub not-precedes-Precedes :
    (direction : SortOrder) (v w : Value)
    → precedes direction v w ≡ ok false
    → Precedes direction v w
unfolding precedes
not-precedes-Precedes asc v w h = not_less-AtMost v w h
not-precedes-Precedes desc v w h = not_less-AtMost w v h

pub sort_key-IsKeyOf :
    (is_string : Bool) (k : Text) (o : Fields) (v : Value)
    → sort_key is_string k o ≡ ok v
    → IsKeyOf is_string k o v
unfolding sort_key
sort_key-IsKeyOf false k o v h = cc
sort_key-IsKeyOf true k o v h = of_text (attribute k o) h
  where
    of_text :
        (u : Value)
        → (elim u as (λ x. Result Value) [ str s ↦ ok (str (lower s)) | _ ↦ err type_error ]) ≡ ok v
        → (s : Text) × (u ≡ str s) × (v ≡ str (lower s))
    of_text (str s) h = (s, refl, cc)
    of_text _ h = absurd cc

-- The object may stand before the first of the others, by their keys.
abbrev pub Leads : SortOrder → Bool → Text → Fields → List Fields → Type 0
Leads direction is_string k o [] = Unit
Leads direction is_string k o (p ∷ os) =
    (v : Value) × (w : Value) × IsKeyOf is_string k o v
    × IsKeyOf is_string k p w
    × Precedes direction v w

-- Each object may stand before the next one.
abbrev pub InOrder : SortOrder → Bool → Text → List Fields → Type 0
InOrder direction is_string k [] = Unit
InOrder direction is_string k (o ∷ os) =
    Leads direction is_string k o os × InOrder direction is_string k os

-- A slice of objects in order is in order.
InOrder-drop :
    (direction : SortOrder) (is_string : Bool) (k : Text) (n : ℕ) (os : List Fields)
    → InOrder direction is_string k os
    → InOrder direction is_string k (drop n os)
InOrder-drop direction is_string k zero os h = h
InOrder-drop direction is_string k (suc n) [] h = tt
InOrder-drop direction is_string k (suc n) (o ∷ os) (l, h) =
    InOrder-drop direction is_string k n os h

InOrder-take :
    (direction : SortOrder) (is_string : Bool) (k : Text) (n : ℕ) (os : List Fields)
    → InOrder direction is_string k os
    → InOrder direction is_string k (take n os)
InOrder-take direction is_string k zero os h = tt
InOrder-take direction is_string k (suc n) [] h = tt
InOrder-take direction is_string k (suc zero) (o ∷ os) (l, h) = (tt, tt)
InOrder-take direction is_string k (suc (suc n)) (o ∷ []) (l, h) = (tt, tt)
InOrder-take direction is_string k (suc (suc n)) (o ∷ p ∷ os) (l, h) =
    (l, InOrder-take direction is_string k (suc n) (p ∷ os) h)

pub InOrder-slice :
    (direction : SortOrder) (is_string : Bool) (k : Text) (start stop : ℕ) (os : List Fields)
    → InOrder direction is_string k os
    → InOrder direction is_string k (slice start stop os)
InOrder-slice direction is_string k start stop os h =
    InOrder-take direction is_string k (stop - start) (drop start os)
      (InOrder-drop direction is_string k start os h)
