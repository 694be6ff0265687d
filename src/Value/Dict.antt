-- ===== src/Value/Dict.antt =====
-- Python's `dict`: `k in d` and `d[k]`, `d[k] = v` (in place, or at the end), `del d[k]`, `len(d)`.
use cortx_utils.Base.{
  ℕ, suc, Text, Option, none, some, ◌≡◌, ◌≢◌, refl, ◌==◌, eq_iff, if◌then◌else◌, arith, List, [],
  ◌∷◌,
}
use cortx_utils.Value.{Value, Fields, end, field}

unfoldable pub lookup : Text → Fields → Option Value
lookup k end = none
lookup k (field j v fs) = if j == k then some v else lookup k fs

unfoldable pub put : Text → Value → Fields → Fields
put k v end = field k v end
put k v (field j w fs) = if j == k then field j v fs else field j w (put k v fs)

-- A dict holds a key once; were it there twice, both would go.
unfoldable pub remove : Text → Fields → Fields
remove k end = end
remove k (field j v fs) = let rest = remove k fs in if j == k then rest else field j v rest

abbrev pub size : Fields → ℕ
size end = 0
size (field k v fs) = suc (size fs)

unfoldable pub names : Fields → List Text
names end = []
names (field k v fs) = k ∷ names fs

pub lookup-put :
    (k j : Text) (v : Value) (fs : Fields)
    → lookup j (put k v fs) ≡ (if k == j then some v else lookup j fs)
unfolding lookup put
lookup-put k j v end = refl
lookup-put k j v (field i w fs) =
    ground (arith, eq_iff k j, eq_iff i k, eq_iff i j, lookup-put k j v fs)

pub lookup-remove :
    (k j : Text) (fs : Fields) → lookup j (remove k fs) ≡ (if k == j then none else lookup j fs)
unfolding lookup remove
lookup-remove k j end = ground arith
lookup-remove k j (field i w fs) =
    ground (arith, eq_iff k j, eq_iff i k, eq_iff i j, lookup-remove k j fs)

-- Two writes of one key are the second.
pub put-put : (k : Text) (v w : Value) (fs : Fields) → put k w (put k v fs) ≡ put k w fs
unfolding put
put-put k v w end = ground (arith, eq_iff k k)
put-put k v w (field i u fs) = ground (arith, eq_iff i k, put-put k v w fs)

-- Writing back what is there changes nothing.
pub put_self : (k : Text) (v : Value) (fs : Fields) → lookup k fs ≡ some v → put k v fs ≡ fs
unfolding lookup put
put_self k v end h = cc
put_self k v (field i w fs) h = ground (arith, put_self k v fs)

pub lookup-put_ne :
    (k j : Text) (v : Value) (fs : Fields) → k ≢ j → lookup j (put k v fs) ≡ lookup j fs
lookup-put_ne k j v fs ne = ground (arith, lookup-put k j v fs, eq_iff k j)

pub lookup-put_self : (k : Text) (v : Value) (fs : Fields) → lookup k (put k v fs) ≡ some v
lookup-put_self k v fs = ground (arith, lookup-put k k v fs, eq_iff k k)
