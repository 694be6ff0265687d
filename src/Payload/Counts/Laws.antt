-- ===== src/Payload/Counts/Laws.antt =====
-- What `add_num_keys` adds, and what it leaves.
use mathlib.Core.Option.{map}
use mathlib.Core.Path.{ap₂}
use cortx_utils.Base.{Text, Option, none, some, ◌≡◌, ◌≢◌, refl, ap, ◌∙◌, arith, ◌==◌, eq_iff}
use cortx_utils.Value.{Value, null, int, list, dict, pos, Fields, end, field}
use cortx_utils.Value.Dict.{lookup, put, lookup-put}
use cortx_utils.Value.Seq.{length}
use cortx_utils.Payload.Counts.{num_key, num_entries, update, with_num_keys, num_fields}

-- Every name stands once.
abbrev pub AreDistinct : Fields → Type 0
AreDistinct end = Unit
AreDistinct (field k v fs) = (lookup k fs ≡ none) × AreDistinct fs

-- The value of an added entry goes before the one that is there.
abbrev pub or_else : Option Value → Option Value → Option Value
or_else none o = o
or_else (some v) o = some v

lookup-update :
    (j : Text) (fs gs : Fields)
    → AreDistinct gs
    → lookup j (update fs gs) ≡ or_else (lookup j gs) (lookup j fs)
unfolding update lookup
lookup-update j fs end h = refl
lookup-update j fs (field k v gs) (fresh, h) =
    ground (arith, lookup-update j (put k v fs) gs h, lookup-put k j v fs, eq_iff k j)

num_key-injective : (j k : Text) → num_key j ≡ num_key k → j ≡ k
num_key-injective j k e = cc

same_num_key : (j k : Text) → (num_key j == num_key k) ≡ (j == k)
same_num_key j k = ground (arith, eq_iff j k, eq_iff (num_key j) (num_key k))

-- The length of the list that a name has, if it has one.
abbrev pub count_of : Option Value → Option Value
count_of (some (list xs)) = some (int (pos (length xs)))
count_of _ = none

lookup-num_entries :
    (k : Text) (fs : Fields)
    → AreDistinct fs
    → lookup (num_key k) (num_entries fs) ≡ count_of (lookup k fs)
unfolding num_entries lookup
lookup-num_entries k end h = refl
lookup-num_entries k (field j (list xs) fs) (fresh, h) =
    ground (arith, same_num_key j k, lookup-num_entries k fs h)
lookup-num_entries k (field j null fs) (fresh, h) =
    ground (arith, eq_iff j k, lookup-num_entries k fs h)
lookup-num_entries k (field j _ fs) (fresh, h) =
    ground (arith, eq_iff j k, lookup-num_entries k fs h)

num_entries-AreDistinct : (fs : Fields) → AreDistinct fs → AreDistinct (num_entries fs)
unfolding num_entries
num_entries-AreDistinct end h = tt
num_entries-AreDistinct (field k (list xs) fs) (fresh, h) =
    (lookup-num_entries k fs h ∙ ap count_of fresh, num_entries-AreDistinct fs h)
num_entries-AreDistinct (field k null fs) (fresh, h) = num_entries-AreDistinct fs h
num_entries-AreDistinct (field k _ fs) (fresh, h) = num_entries-AreDistinct fs h

-- A name that does not begin with `num_` is not added.
lookup-num_entries_other :
    (j : Text) (fs : Fields) → ((k : Text) → num_key k ≢ j) → lookup j (num_entries fs) ≡ none
unfolding num_entries lookup
lookup-num_entries_other j end h = refl
lookup-num_entries_other j (field k (list xs) fs) h =
    ground (arith, eq_iff (num_key k) j, h k, lookup-num_entries_other j fs h)
lookup-num_entries_other j (field k null fs) h = lookup-num_entries_other j fs h
lookup-num_entries_other j (field k _ fs) h = lookup-num_entries_other j fs h

lookup-num_fields :
    (j : Text) (fs : Fields) → lookup j (num_fields fs) ≡ map with_num_keys (lookup j fs)
unfolding num_fields lookup
lookup-num_fields j end = refl
lookup-num_fields j (field k v fs) = ground (arith, lookup-num_fields j fs)

-- In a dict whose names are distinct, `add_num_keys` puts the length of each list under its name
-- with `num_` in front, in place of what was there. A name that is not `num_` and a name is there
-- if it was there before, and what it names has its own `num_` keys added.
pub with_num_keys-counts :
    (fs : Fields)
    → AreDistinct fs
    → (gs : Fields) × (with_num_keys (dict fs) ≡ dict gs)
      × ((k : Text)
          → lookup (num_key k) gs
            ≡ or_else (count_of (lookup k fs)) (map with_num_keys (lookup (num_key k) fs)))
      × ((j : Text) → ((k : Text) → num_key k ≢ j) → lookup j gs ≡ map with_num_keys (lookup j fs))
unfolding with_num_keys
with_num_keys-counts fs h =
    let added = λ (j : Text).
      lookup-update j (num_fields fs) (num_entries fs) (num_entries-AreDistinct fs h) in
    (
      update (num_fields fs) (num_entries fs),
      refl,
      λ k.
          added (num_key k)
          ∙ ap₂ or_else (lookup-num_entries k fs h) (lookup-num_fields (num_key k) fs),
      λ j other.
          added j ∙ ap₂ or_else (lookup-num_entries_other j fs other) (lookup-num_fields j fs),
    )
