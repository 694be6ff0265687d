-- ===== src/Data/Consul/Sorting.antt =====
-- The order and the slices of the objects that a query returns: `sorted` with a key, and `os[i:j]`.
pub mod Ordered
pub mod Laws
use cortx_utils.Base.{
  ℕ, zero, suc, ◌-◌, Text, List, [], ◌∷◌, Bool, true, false, Result, ok, err, type_error, ◌>>=◌,
  if◌then◌else◌,
}
use cortx_utils.Value.{Value, str, Fields}
use cortx_utils.Value.Order.{less}
use cortx_utils.Key.Words.{lower}
use cortx_utils.Data.Models.{attribute}
use cortx_utils.Data.Queries.{SortOrder, asc, desc}

abbrev pub length {ℓ} : {A : Type ℓ} → List A → ℕ
length [] = 0
length (x ∷ xs) = suc (length xs)

abbrev pub take {ℓ} : {A : Type ℓ} → ℕ → List A → List A
take zero xs = []
take (suc n) [] = []
take (suc n) (x ∷ xs) = x ∷ take n xs

abbrev pub drop {ℓ} : {A : Type ℓ} → ℕ → List A → List A
drop zero xs = xs
drop (suc n) [] = []
drop (suc n) (x ∷ xs) = drop n xs

-- `os[start:stop]`
abbrev pub slice {ℓ} : {A : Type ℓ} → ℕ → ℕ → List A → List A
slice start stop xs = take (stop - start) (drop start xs)

-- The key of an object: texts of a field of texts are compared in lower case.
unfoldable pub sort_key : Bool → Text → Fields → Result Value
sort_key false k o = ok (attribute k o)
sort_key true k o = elim (attribute k o) [ str s ↦ ok (str (lower s)) | _ ↦ err type_error ]

unfoldable pub with_keys : Bool → Text → List Fields → Result (List (Value × Fields))
with_keys is_string k [] = ok []
with_keys is_string k (o ∷ os) =
    sort_key is_string k o >>= λ v. with_keys is_string k os >>= λ rest. ok ((v, o) ∷ rest)

-- Does the second key stand before the first one?
unfoldable pub precedes : SortOrder → Value → Value → Result Bool
precedes asc v w = less w v
precedes desc v w = less v w

-- Objects with one key keep their order, in the reverse order too.
unfoldable pub insert :
    SortOrder → Value × Fields → List (Value × Fields) → Result (List (Value × Fields))
insert direction (v, o) [] = ok ((v, o) ∷ [])
insert direction (v, o) ((w, p) ∷ rest) =
    let later = insert direction (v, o) rest in
    precedes direction v w >>= λ before.
    if before then later >>= (λ placed. ok ((w, p) ∷ placed)) else ok ((v, o) ∷ (w, p) ∷ rest)

unfoldable pub sort : SortOrder → List (Value × Fields) → Result (List (Value × Fields))
sort direction [] = ok []
sort direction (x ∷ xs) = sort direction xs >>= insert direction x

unfoldable pub objects : List (Value × Fields) → List Fields
objects [] = []
objects ((v, o) ∷ rest) = o ∷ objects rest

-- `sorted(base_models, key=key, reverse=reverse)`
unfoldable pub sort_by : SortOrder → Bool → Text → List Fields → Result (List Fields)
sort_by direction is_string k os =
    with_keys is_string k os >>= λ keyed. sort direction keyed >>= λ sorted. ok (objects sorted)
