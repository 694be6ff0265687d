-- ===== src/Data/Consul/Paging.antt =====
-- What `get` returns: the objects that satisfy the filter, in the order asked for, and no more than
-- the limit.
use cortx_utils.Base.{
  ℕ, zero, suc, ◌-◌, ◌≤◌, Text, List, [], ◌∷◌, Option, none, some, ok, err, attribute_error,
  contains, if◌then◌else◌, ◌≡◌, refl, ap, sym, ◌∙◌, arith, ◌>>=◌, Bool-cases, inl, inr,
}
use mathlib.Core.List.{Perm}
use mathlib.Core.List.Perm
use cortx_utils.Value.{ℤ, pos, negsuc, Value, Fields}
use cortx_utils.Activity.Checks.{Json}
use cortx_utils.Data.Filters.{Filter}
use cortx_utils.Data.Queries.{Query, OrderBy}
use cortx_utils.Data.Models.{Model, field_to_str}
use cortx_utils.Data.Converter.{Entry}
use cortx_utils.Data.Converter.Entries.{keep, AreDistinct}
use cortx_utils.Data.Converter.Visit.{>>=-ok}
use cortx_utils.Data.Converter.Laws.{satisfies, build-satisfies}
use cortx_utils.Data.Consul.{
  Client, ConsulDb, get_all_raw, suitable, read_objects, ordering_of, ordered, page, get_from, get,
}
use cortx_utils.Data.Consul.Sorting.{length, take, drop, slice, sort_by}
use cortx_utils.Data.Consul.Sorting.Ordered.{InOrder, InOrder-slice}
use cortx_utils.Data.Consul.Sorting.Laws.{sort_by_lem}

length-take : (n : ℕ) (os : List Fields) → length (take n os) ≤ n
length-take zero os = omega arith
length-take (suc n) [] = omega arith
length-take (suc n) (o ∷ os) = omega (arith, length-take n os)

-- A limit as a number of objects.
abbrev pub at_most : ℤ → ℕ
at_most (pos l) = l
at_most (negsuc l) = 0

page-le :
    (offset : Option ℤ) (l : ℤ) (size : ℕ) (range : ℕ × ℕ)
    → page offset (some l) size ≡ ok range
    → range.1 - range.0 ≤ at_most l
unfolding page
page-le none (pos l) size range h = ground arith
page-le none (negsuc l) size range h = absurd cc
page-le (some (pos n)) (pos l) size range h = ground arith
page-le (some (pos n)) (negsuc l) size range h = ground arith
page-le (some (negsuc n)) l size range h = absurd cc

module _ (C : Client) (M : Model) (J : Json) (shown : Value → Text) where
  -- The stages of a query on entries that there are.
  pub get_from-stages :
      (q : Query) (e : Entry) (es : List Entry) (os : List Fields)
      → get_from C M J shown q (e ∷ es) ≡ ok os
      → (kept : List Entry) × (read : List Fields) × (sorted : List Fields) × (range : ℕ × ℕ)
        × (suitable C M J shown q.filter_by (e ∷ es) ≡ ok kept)
        × (read_objects C M J shown kept ≡ ok read)
        × (ordered C M J shown q read ≡ ok sorted)
        × (page q.offset q.limit (length sorted) ≡ ok range)
        × (os ≡ slice range.0 range.1 sorted)
  unfolding get_from
  get_from-stages q e es os h =
      let (kept, filtered, h1) = >>=-ok (suitable C M J shown q.filter_by (e ∷ es)) _ h in
      let (read, opened, h2) = >>=-ok (read_objects C M J shown kept) _ h1 in
      let (sorted, placed, h3) = >>=-ok (ordered C M J shown q read) _ h2 in
      let (range, paged, h4) = >>=-ok (page q.offset q.limit (length sorted)) _ h3 in
      (kept, read, sorted, range, filtered, opened, placed, paged, cc)

  get_from-le :
      (q : Query) (l : ℤ) (raw : List Entry) (os : List Fields)
      → q.limit ≡ some l
      → get_from C M J shown q raw ≡ ok os
      → length os ≤ at_most l
  unfolding get_from
  get_from-le q l [] os limited h = let same : os ≡ [] = cc in rw same (omega arith)
  get_from-le q l (e ∷ es) os limited h =
      let (kept, read, sorted, range, _, _, _, paged, same) = get_from-stages q e es os h in
      rw same (
        omega (
          arith,
          length-take (range.1 - range.0) (drop range.0 sorted),
          page-le q.offset l (length sorted) range (rw limited at paged),
        ))

  -- `get` with a limit returns no more objects than it says, and none where it is negative.
  pub get_le_limit :
      (db : ConsulDb) (q : Query) (l : ℤ) (w : C.World) (os : List Fields)
      → q.limit ≡ some l
      → get C M J shown db q w ≡ ok os
      → length os ≤ at_most l
  unfolding get
  get_le_limit db q l w os limited h =
      let (raw, read, h1) = >>=-ok (get_all_raw C M J shown db w) _ h in
      get_from-le q l raw os limited h1

  ordered_run :
      (q : Query) (by : OrderBy) (k : Text) (read : List Fields)
      → q.order_by ≡ some by
      → field_to_str by.by_field ≡ ok k
      → ordered C M J shown q read ≡ (
          if contains k M.fields
          then sort_by by.by_order (M.is_string k) k read
          else err attribute_error)
  unfolding ordered ordering_of
  ordered_run q by k read asked named = rw (asked, ◌>>=◌) (rw (named, ◌>>=◌) refl)

  ordered_lem :
      (q : Query) (by : OrderBy) (k : Text) (read sorted : List Fields)
      → q.order_by ≡ some by
      → field_to_str by.by_field ≡ ok k
      → ordered C M J shown q read ≡ ok sorted
      → InOrder by.by_order (M.is_string k) k sorted × Perm sorted read
  ordered_lem q by k read sorted asked named h =
      let run = sym (ordered_run q by k read asked named) ∙ h in
      elim (Bool-cases (contains k M.fields)) [
        | inl known ↦
            sort_by_lem by.by_order (M.is_string k) k read sorted (rw (known, if◌then◌else◌) at run)
        | inr unknown ↦ absurd (let bad = rw (unknown, if◌then◌else◌) at run in cc)
      ]

  get_from-InOrder :
      (q : Query) (by : OrderBy) (k : Text) (raw : List Entry) (os : List Fields)
      → q.order_by ≡ some by
      → field_to_str by.by_field ≡ ok k
      → get_from C M J shown q raw ≡ ok os
      → InOrder by.by_order (M.is_string k) k os
  unfolding get_from
  get_from-InOrder q by k [] os asked named h = let same : os ≡ [] = cc in rw same tt
  get_from-InOrder q by k (e ∷ es) os asked named h =
      let (kept, read, sorted, range, _, _, placed, _, same) = get_from-stages q e es os h in
      rw same (
        InOrder-slice by.by_order (M.is_string k) k range.0 range.1 sorted
          (ordered_lem q by k read sorted asked named placed).0)

  -- `get` with an order returns objects in which the field asked for never falls from one to the next,
  -- or never rises if the order is descending: numbers go by size, texts by their code points, those of
  -- a string field in lower case, and lists as Python compares them.
  pub get-InOrder :
      (db : ConsulDb) (q : Query) (by : OrderBy) (k : Text) (w : C.World) (os : List Fields)
      → q.order_by ≡ some by
      → field_to_str by.by_field ≡ ok k
      → get C M J shown db q w ≡ ok os
      → InOrder by.by_order (M.is_string k) k os
  unfolding get
  get-InOrder db q by k w os asked named h =
      let (raw, read, h1) = >>=-ok (get_all_raw C M J shown db w) _ h in
      get_from-InOrder q by k raw os asked named h1

  take_all : (os : List Fields) → take (length os) os ≡ os
  take_all [] = refl
  take_all (o ∷ os) = ap (λ ps. o ∷ ps) (take_all os)

  -- With no limit and no offset the slice is the whole list.
  pub slice_all :
      (q : Query) (os : List Fields) (range : ℕ × ℕ)
      → q.limit ≡ none
      → q.offset ≡ none
      → page q.offset q.limit (length os) ≡ ok range
      → slice range.0 range.1 os ≡ os
  unfolding page
  slice_all q os range all whole h =
      let run = rw (all, whole) at h in
      let same : range ≡ (0, length os) = cc in
      rw same (ap (λ n. take n os) (sub_zero (length os)) ∙ take_all os)
    where
      sub_zero : (n : ℕ) → n - 0 ≡ n
      sub_zero n = omega arith

  pub suitable-satisfies :
      (f : Filter) (raw kept : List Entry)
      → AreDistinct raw
      → suitable C M J shown (some f) raw ≡ ok kept
      → kept ≡ keep (satisfies J M f) raw
  unfolding suitable
  suitable-satisfies f raw kept d h = build-satisfies J M f raw kept d h

  -- `get` with a filter and an order, but neither limit nor offset, returns the objects of the entries
  -- that satisfy the filter, each as often as it is stored; the keys of the entries are distinct.
  pub get-perm :
      (db : ConsulDb) (q : Query) (f : Filter) (by : OrderBy) (k : Text) (w : C.World)
      (raw : List Entry) (os : List Fields)
      → q.filter_by ≡ some f
      → q.order_by ≡ some by
      → q.limit ≡ none
      → q.offset ≡ none
      → field_to_str by.by_field ≡ ok k
      → get_all_raw C M J shown db w ≡ ok raw
      → AreDistinct raw
      → get C M J shown db q w ≡ ok os
      → (read : List Fields) × (read_objects C M J shown (keep (satisfies J M f) raw) ≡ ok read)
        × Perm os read
  unfolding get get_from read_objects
  get-perm db q f by k w raw os filtered asked all whole named there d h =
      get_from-perm raw d (rw (get, there, ◌>>=◌) at h)
    where
      get_from-perm :
          (raw : List Entry)
          → AreDistinct raw
          → get_from C M J shown q raw ≡ ok os
          → (read : List Fields) × (read_objects C M J shown (keep (satisfies J M f) raw) ≡ ok read)
            × Perm os read
      get_from-perm [] d h = ([], refl, let same : os ≡ [] = cc in rw same (Perm.refl _))
      get_from-perm (e ∷ es) d h =
          let (kept, read, sorted, range, suits, opened, placed, paged, same) =
            get_from-stages q e es os h in
          let those = suitable-satisfies f (e ∷ es) kept d (rw filtered at suits) in
          let order = (ordered_lem q by k read sorted asked named placed).1 in
          (read, rw those at opened, rw same (rw (slice_all q sorted range all whole paged) order))
