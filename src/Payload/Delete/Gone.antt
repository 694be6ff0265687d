-- ===== src/Payload/Delete/Gone.antt =====
-- What `_get` reads after `_delete` returned `True`.
use cortx_utils.Base.{
  ℕ, suc, Text, Bool, true, false, Option, none, some, List, [], ◌∷◌, ◌≡◌, refl, ◌⊎◌, leb, ◌=ℕ◌,
  eq_refl, arith, Result, ok, Bool-cases, Option-cases, inl, inr,
}
use cortx_utils.Key.{key_index_split, is_empty}
use cortx_utils.Value.{Value, null, str, list, dict, Items, Fields}
use cortx_utils.Value.Dict.{lookup, lookup-put_self, lookup-remove}
use cortx_utils.Value.Seq.{
  length, get_elem?, get_elem?-set_self, get_elem?-drop_last, lt_of_get_elem?,
}
use cortx_utils.Payload.Read.{get_path, get_leaf, get_down, enter, enter_index, index_leaf}
use cortx_utils.Payload.Write.Step.{IsReadablePart}
use cortx_utils.Payload.Write.SetGet.{IsReadable, not_blank}
use cortx_utils.Payload.Delete.{delete_elem, delete_leaf, delete_down, delete_path}

-- The index of the last segment.
abbrev pub last_index : Text → List Text → Option (ℕ × Text)
last_index k [] = (key_index_split k).index
last_index k (k' ∷ ks) = last_index k' ks

-- Nothing is read any more; an element before the end of its list reads as the empty string.
abbrev pub IsGone : Option (ℕ × Text) → Result Value → Type 0
IsGone none r = r ≡ ok null
IsGone (some _) r = (r ≡ ok null) ⊎ (r ≡ ok (str []))

delete_elem-IsGone :
    (n : ℕ) (xs : Items)
    → leb (length xs) n ≡ false
    → IsGone (some (n, [])) (index_leaf n (list (delete_elem xs n)))
unfolding index_leaf
delete_elem-IsGone n xs h = elim (Bool-cases (suc n =ℕ length xs)) [
  | inl last ↦ inl (rw last (rw (get_elem?-drop_last xs n (ground arith))))
  | inr more ↦ inr (rw more (rw (get_elem?-set_self xs n (str []) (ground arith))))
]

module _ (name : Text) (force : Bool) (fs : Fields) where
  delete_item-IsGone :
      (n : ℕ) (mid : Text) (v : Value)
      → IsReadablePart name (some (n, mid))
      → lookup name fs ≡ some v
      → (delete_leaf name (some (n, mid)) force fs).0 ≡ ok true
      → IsGone
          (some (n, mid))
          (get_leaf name (some (n, mid)) (dict (delete_leaf name (some (n, mid)) force fs).1))
  unfolding delete_leaf get_leaf
  delete_item-IsGone n mid (list xs) (_, e) found h = elim (Bool-cases (leb (length xs) n)) [
    | inl out ↦ absurd (ground arith)
    | inr inside ↦
        rw (found, delete_leaf)
          (rw (e, inside)
            (rw (lookup-put_self name _ fs, get_leaf) (delete_elem-IsGone n xs inside)))
  ]
  delete_item-IsGone n mid null r found h = absurd (ground arith)
  delete_item-IsGone n mid _ r found h = absurd (ground arith)

  delete_leaf-IsGone :
      (index : Option (ℕ × Text))
      → IsReadablePart name index
      → (delete_leaf name index force fs).0 ≡ ok true
      → IsGone index (get_leaf name index (dict (delete_leaf name index force fs).1))
  unfolding delete_leaf get_leaf
  delete_leaf-IsGone none r h = ground (arith, lookup-remove name name fs, eq_refl name)
  delete_leaf-IsGone (some (n, mid)) r h = elim (Option-cases (lookup name fs)) [
    | inl missing ↦ absurd (ground arith)
    | inr (v, found) ↦ delete_item-IsGone n mid v r found h
  ]

-- A deletion that succeeds is in a dict and leaves one.
enter-delete_path :
    (k : Text) (ks : List Text) (force : Bool) (v : Value) (g : Value → Result Value)
    → (delete_path k ks force v).0 ≡ ok true
    → enter g (delete_path k ks force v).1 ≡ g (delete_path k ks force v).1
unfolding delete_path enter
enter-delete_path k [] force (dict fs) g h = refl
enter-delete_path k (k' ∷ ks) force (dict fs) g h = refl
enter-delete_path k [] force null g h = cc
enter-delete_path k [] force _ g h = cc
enter-delete_path k (k' ∷ ks) force _ g h = cc

module _ (name : Text) (fs : Fields) (f : Value → Result Bool × Value)
    (g : Value → Result Value) where
  -- What a reader finds below a segment after `_delete` went through it.
  abbrev GoneBelow : Option (ℕ × Text) → Type 0
  GoneBelow last = (v : Value) → (f v).0 ≡ ok true → IsGone last (enter g (f v).1)

  delete_item_below :
      (n : ℕ) (mid : Text) (last : Option (ℕ × Text)) (v : Value)
      → GoneBelow last
      → is_empty mid ≡ true
      → lookup name fs ≡ some v
      → (delete_down name (some (n, mid)) f fs).0 ≡ ok true
      → IsGone last
          (get_down name (some (n, mid)) g (dict (delete_down name (some (n, mid)) f fs).1))
  unfolding delete_down get_down
  delete_item_below n mid last (list xs) below e found h = elim (Option-cases (get_elem? xs n)) [
    | inl out ↦ absurd (ground arith)
    | inr (x, inside) ↦
        let done = rw (inside, delete_down) at (rw (found, delete_down) at h) in
        rw (found, delete_down)
          (rw (inside, delete_down)
            (rw e (
              rw (lookup-put_self name _ fs, get_down)
                (rw (get_elem?-set_self xs n _ (lt_of_get_elem? xs n inside), enter_index)
                  (below x done)))))
  ]
  delete_item_below n mid last null below e found h = absurd (ground arith)
  delete_item_below n mid last _ below e found h = absurd (ground arith)

  delete_down_below :
      (index last : Option (ℕ × Text))
      → GoneBelow last
      → IsReadablePart name index
      → (delete_down name index f fs).0 ≡ ok true
      → IsGone last (get_down name index g (dict (delete_down name index f fs).1))
  unfolding delete_down get_down
  delete_down_below none last below r h = elim (Option-cases (lookup name fs)) [
    | inl missing ↦ absurd (ground arith)
    | inr (v, found) ↦
        rw (found, delete_down)
          (rw (lookup-put_self name _ fs, get_down) (below v (rw (found, delete_down) at h)))
  ]
  delete_down_below (some (n, mid)) last below (_, e) h = elim (Option-cases (lookup name fs)) [
    | inl missing ↦ absurd (ground arith)
    | inr (v, found) ↦ delete_item_below n mid last v below e found h
  ]

pub get_path-delete_path :
    (k : Text) (ks : List Text) (force : Bool) (v : Value)
    → IsReadable k ks
    → (delete_path k ks force v).0 ≡ ok true
    → IsGone (last_index k ks) (get_path k ks (delete_path k ks force v).1)
unfolding delete_path get_path
get_path-delete_path k [] force (dict fs) r h =
    let p = key_index_split k in
    rw (not_blank p.name p.index r) (delete_leaf-IsGone p.name force fs p.index r h)
get_path-delete_path k (k' ∷ ks) force (dict fs) (r, rs) h =
    let p = key_index_split k in
    let below : GoneBelow p.name fs (delete_path k' ks force) (get_path k' ks) (last_index k' ks) =
      λ v done.
        rw (enter-delete_path k' ks force v (get_path k' ks) done)
          (get_path-delete_path k' ks force v rs done) in
    rw (not_blank p.name p.index r) (
      delete_down_below p.name fs (delete_path k' ks force) (get_path k' ks) p.index
        (last_index k' ks) below r h)
get_path-delete_path k [] force null r h = cc
get_path-delete_path k [] force _ r h = cc
get_path-delete_path k (k' ∷ ks) force _ r h = cc
