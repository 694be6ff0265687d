-- ===== src/Data/Consul/Sorting/Laws.antt =====
-- `sorted` returns the same objects, in the order of their keys.
use cortx_utils.Base.{
  if◌then◌else◌, Text, List, [], ◌∷◌, Bool, true, false, ok, ◌≡◌, ◌⊎◌, inl, inr, refl, ap, ◌>>=◌,
}
use mathlib.Core.List.{Perm}
use mathlib.Core.List.Perm
use cortx_utils.Value.{Value, Fields}
use cortx_utils.Data.Queries.{SortOrder}
use cortx_utils.Data.Converter.Visit.{>>=-ok}
use cortx_utils.Data.Consul.Sorting.{sort_key, with_keys, precedes, insert, sort, objects, sort_by}
use cortx_utils.Data.Consul.Sorting.Ordered.{
  Precedes, InOrder, precedes-Precedes, not-precedes-Precedes, sort_key-IsKeyOf,
}

-- The key may stand before the first of some objects.
abbrev MayStart : SortOrder → Value → List (Value × Fields) → Type 0
MayStart direction v [] = Unit
MayStart direction v ((w, p) ∷ xs) = Precedes direction v w

abbrev AreSorted : SortOrder → List (Value × Fields) → Type 0
AreSorted direction [] = Unit
AreSorted direction ((v, o) ∷ xs) = MayStart direction v xs × AreSorted direction xs

abbrev AreKeys : Bool → Text → List (Value × Fields) → Type 0
AreKeys is_string k [] = Unit
AreKeys is_string k ((v, o) ∷ xs) = (sort_key is_string k o ≡ ok v) × AreKeys is_string k xs

module _ (direction : SortOrder) where
  insert-cases :
      (v w : Value) (o p : Fields) (xs ys : List (Value × Fields))
      → insert direction (v, o) ((w, p) ∷ xs) ≡ ok ys
      → ((precedes direction v w ≡ ok false) × (ys ≡ (v, o) ∷ (w, p) ∷ xs))
        ⊎ ((placed : List (Value × Fields)) × (precedes direction v w ≡ ok true)
            × (insert direction (v, o) xs ≡ ok placed)
            × (ys ≡ (w, p) ∷ placed))
  unfolding insert
  insert-cases v w o p xs ys h =
      let (before, compared, h1) = >>=-ok (precedes direction v w) _ h in
      insert_case v w o p xs ys before compared h1
    where
      insert_case :
          (v w : Value) (o p : Fields) (xs ys : List (Value × Fields)) (before : Bool)
          → precedes direction v w ≡ ok before
          → (if before
              then insert direction (v, o) xs >>= (λ placed. ok ((w, p) ∷ placed))
              else ok ((v, o) ∷ (w, p) ∷ xs))
            ≡ ok ys
          → ((precedes direction v w ≡ ok false) × (ys ≡ (v, o) ∷ (w, p) ∷ xs))
            ⊎ ((placed : List (Value × Fields)) × (precedes direction v w ≡ ok true)
                × (insert direction (v, o) xs ≡ ok placed)
                × (ys ≡ (w, p) ∷ placed))
      insert_case v w o p xs ys false c h = inl (c, cc)
      insert_case v w o p xs ys true c h =
          let (placed, later, h1) = >>=-ok (insert direction (v, o) xs) _ h in
          inr (placed, c, later, cc)

  MayStart-insert :
      (u v : Value) (o : Fields) (xs ys : List (Value × Fields))
      → Precedes direction u v
      → MayStart direction u xs
      → insert direction (v, o) xs ≡ ok ys
      → MayStart direction u ys
  unfolding insert
  MayStart-insert u v o [] ys h s e = let same : ys ≡ (v, o) ∷ [] = cc in rw same h
  MayStart-insert u v o ((w, p) ∷ xs) ys h s e = elim (insert-cases v w o p xs ys e) [
    | inl (c, same) ↦ rw same h
    | inr (placed, c, later, same) ↦ rw same s
  ]

  AreSorted-insert :
      (v : Value) (o : Fields) (xs ys : List (Value × Fields))
      → AreSorted direction xs
      → insert direction (v, o) xs ≡ ok ys
      → AreSorted direction ys
  unfolding insert
  AreSorted-insert v o [] ys s e = let same : ys ≡ (v, o) ∷ [] = cc in rw same (tt, tt)
  AreSorted-insert v o ((w, p) ∷ xs) ys (h, s) e = elim (insert-cases v w o p xs ys e) [
    | inl (c, same) ↦ rw same (not-precedes-Precedes direction v w c, (h, s))
    | inr (placed, c, later, same) ↦ rw same (
      MayStart-insert w v o xs placed (precedes-Precedes direction v w c) h later,
      AreSorted-insert v o xs placed s later,
    )
  ]

  AreKeys-insert :
      (is_string : Bool) (k : Text) (v : Value) (o : Fields) (xs ys : List (Value × Fields))
      → sort_key is_string k o ≡ ok v
      → AreKeys is_string k xs
      → insert direction (v, o) xs ≡ ok ys
      → AreKeys is_string k ys
  unfolding insert
  AreKeys-insert is_string k v o [] ys h ks e = let same : ys ≡ (v, o) ∷ [] = cc in rw same (h, tt)
  AreKeys-insert is_string k v o ((w, p) ∷ xs) ys h (g, ks) e =
      elim (insert-cases v w o p xs ys e) [
        | inl (c, same) ↦ rw same (h, (g, ks))
        | inr (placed, c, later, same) ↦
            rw same (g, AreKeys-insert is_string k v o xs placed h ks later)
      ]

  insert-perm :
      (v : Value) (o : Fields) (xs ys : List (Value × Fields))
      → insert direction (v, o) xs ≡ ok ys
      → Perm (objects ys) (o ∷ objects xs)
  unfolding insert objects
  insert-perm v o [] ys e = let same : ys ≡ (v, o) ∷ [] = cc in rw same (Perm.refl _)
  insert-perm v o ((w, p) ∷ xs) ys e = elim (insert-cases v w o p xs ys e) [
    | inl (c, same) ↦ rw same (Perm.refl _)
    | inr (placed, c, later, same) ↦
        rw same (Perm.trans (Perm.cons p (insert-perm v o xs placed later)) (Perm.swap o p _))
  ]

  -- What the insertions keep, for the whole list.
  sort_lem :
      (is_string : Bool) (k : Text) (xs ys : List (Value × Fields))
      → AreKeys is_string k xs
      → sort direction xs ≡ ok ys
      → AreSorted direction ys × AreKeys is_string k ys × Perm (objects ys) (objects xs)
  unfolding sort objects
  sort_lem is_string k [] ys ks e = let same : ys ≡ [] = cc in rw same (tt, tt, Perm.refl _)
  sort_lem is_string k ((v, o) ∷ xs) ys (h, ks) e =
      let (zs, sorted, e1) = >>=-ok (sort direction xs) _ e in
      let (s, kept, same) = sort_lem is_string k xs zs ks sorted in
      (
        AreSorted-insert v o zs ys s e1,
        AreKeys-insert is_string k v o zs ys h kept e1,
        Perm.trans (insert-perm v o zs ys e1) (Perm.cons o same),
      )

  InOrder-objects :
      (is_string : Bool) (k : Text) (xs : List (Value × Fields))
      → AreKeys is_string k xs
      → AreSorted direction xs
      → InOrder direction is_string k (objects xs)
  unfolding objects
  InOrder-objects is_string k [] ks s = tt
  InOrder-objects is_string k ((v, o) ∷ []) ks s = (tt, tt)
  InOrder-objects is_string k ((v, o) ∷ (w, p) ∷ xs) (e, (f, ks)) (h, s) = (
    (v, w, sort_key-IsKeyOf is_string k o v e, sort_key-IsKeyOf is_string k p w f, h),
    InOrder-objects is_string k ((w, p) ∷ xs) (f, ks) s,
  )

  with_keys_lem :
      (is_string : Bool) (k : Text) (os : List Fields) (xs : List (Value × Fields))
      → with_keys is_string k os ≡ ok xs
      → AreKeys is_string k xs × (objects xs ≡ os)
  unfolding with_keys objects
  with_keys_lem is_string k [] xs e = let same : xs ≡ [] = cc in rw same (tt, refl)
  with_keys_lem is_string k (o ∷ os) xs e =
      let (v, h, e1) = >>=-ok (sort_key is_string k o) _ e in
      let (ys, rest, e2) = >>=-ok (with_keys is_string k os) _ e1 in
      let same : xs ≡ (v, o) ∷ ys = cc in
      let (ks, back) = with_keys_lem is_string k os ys rest in
      rw same ((h, ks), ap (λ ps. o ∷ ps) back)

  -- `sorted` gives the same objects, each of which may stand before the next one.
  pub sort_by_lem :
      (is_string : Bool) (k : Text) (os ps : List Fields)
      → sort_by direction is_string k os ≡ ok ps
      → InOrder direction is_string k ps × Perm ps os
  unfolding sort_by
  sort_by_lem is_string k os ps e =
      let (xs, keyed, e1) = >>=-ok (with_keys is_string k os) _ e in
      let (ys, sorted, e2) = >>=-ok (sort direction xs) _ e1 in
      let same : ps ≡ objects ys = cc in
      let (ks, back) = with_keys_lem is_string k os xs keyed in
      let (s, kept, perm) = sort_lem is_string k xs ys ks sorted in
      rw same (InOrder-objects is_string k ys kept s, rw back at perm)
