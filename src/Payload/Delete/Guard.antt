-- ===== src/Payload/Delete/Guard.antt =====
-- A list or dict that holds something is deleted only by force.
use cortx_utils.Base.{
  ℕ, Text, Bool, true, false, ◌||◌, ◌=ℕ◌, Option, none, some, List, [], ◌∷◌, ◌≡◌, ◌≢◌, refl, arith,
  Result, ok, err, if◌then◌else◌, kv_error, einval, Bool-cases, Option-cases, inl, inr,
}
use cortx_utils.Key.{key_index_split, is_blank}
use cortx_utils.Value.{Value, is_dict, null, list, dict, nil, cons, Fields, end, field}
use cortx_utils.Value.Dict.{lookup, size}
use cortx_utils.Value.Seq.{get_elem?, length}
use cortx_utils.Payload.Read.{get_path, get_leaf, get_down, enter, enter_index}
use cortx_utils.Payload.Delete.{is_removable, delete_leaf, delete_down, delete_path}
use cortx_utils.Payload.Delete.Gone.{last_index}

-- How many entries stand below a value.
abbrev pub entries_below : Value → ℕ
entries_below (list xs) = length xs
entries_below (dict fs) = size fs
entries_below _ = 0

abbrev pub verdict : Value → Bool → Result Bool
verdict w true = ok true
verdict w false = if entries_below w =ℕ 0 then ok true else err (kv_error einval)

-- What may be removed has nothing below it.
removable-verdict :
    (w : Value) (force : Bool)
    → (if is_removable w || force then ok true else err (kv_error einval)) ≡ verdict w force
removable-verdict (list (cons x xs)) true = refl
removable-verdict (list (cons x xs)) false = ground arith
removable-verdict (dict (field k v fs)) true = refl
removable-verdict (dict (field k v fs)) false = ground arith
removable-verdict (list nil) true = refl
removable-verdict (list nil) false = refl
removable-verdict (dict end) true = refl
removable-verdict (dict end) false = refl
removable-verdict _ true = refl
removable-verdict _ false = refl

delete_leaf-verdict :
    (name : Text) (force : Bool) (fs : Fields) (w : Value)
    → get_leaf name none (dict fs) ≡ ok w
    → w ≢ null
    → (delete_leaf name none force fs).0 ≡ verdict w force
unfolding delete_leaf get_leaf
delete_leaf-verdict name force fs w h ne = ground (arith, removable-verdict w force)

module _ (f : Value → Result Bool × Value) (g : Value → Result Value) (w : Value) (r : Result Bool)
    (some_value : w ≢ null) (follows : (v : Value) → g v ≡ ok w → (f v).0 ≡ r) where
  follows-enter : (v : Value) → enter g v ≡ ok w → (f v).0 ≡ r
  unfolding enter
  follows-enter (dict fs) h = follows (dict fs) h
  follows-enter null h = absurd (ground arith)
  follows-enter _ h = absurd (ground arith)

  module _ (name : Text) (fs : Fields) where
    delete_item_verdict :
        (n : ℕ) (mid : Text) (v : Value)
        → lookup name fs ≡ some v
        → enter_index n g v ≡ ok w
        → (delete_down name (some (n, mid)) f fs).0 ≡ r
    unfolding delete_down enter_index
    delete_item_verdict n mid (list xs) found h = elim (Option-cases (get_elem? xs n)) [
      | inl out ↦ absurd (some_value (ground arith))
      | inr (x, inside) ↦
          rw (found, delete_down)
            (rw (inside, delete_down) (follows-enter x (rw (inside, enter_index) at h)))
    ]
    delete_item_verdict n mid null found h = absurd (some_value (ground arith))
    delete_item_verdict n mid _ found h = absurd (some_value (ground arith))

    delete_down_verdict :
        (index : Option (ℕ × Text))
        → get_down name index g (dict fs) ≡ ok w
        → (delete_down name index f fs).0 ≡ r
    unfolding delete_down get_down
    delete_down_verdict none h = elim (Option-cases (lookup name fs)) [
      | inl missing ↦ absurd (some_value (ground arith))
      | inr (v, found) ↦ rw (found, delete_down) (follows-enter v (rw (found, get_down) at h))
    ]
    delete_down_verdict (some (n, mid)) h = elim (Option-cases (lookup name fs)) [
      | inl missing ↦ absurd (ground arith)
      | inr (v, found) ↦ delete_item_verdict n mid v found (ground arith)
    ]

-- Nothing is read from data that are no dict.
leaf_not_dict :
    (name : Text) (index : Option (ℕ × Text)) (v w : Value)
    → is_dict v ≡ false
    → get_leaf name index v ≢ ok w
unfolding get_leaf
leaf_not_dict name none v w no_dict h = ground arith
leaf_not_dict name (some (n, mid)) v w no_dict h = ground arith

down_not_dict :
    (name : Text) (index : Option (ℕ × Text)) (g : Value → Result Value) (v w : Value)
    → is_dict v ≡ false
    → get_down name index g v ≢ ok w
unfolding get_down
down_not_dict name none g v w no_dict h = ground arith
down_not_dict name (some (n, mid)) g v w no_dict h = ground arith

not-ok_of_not_dict :
    (k : Text) (ks : List Text) (v w : Value) → is_dict v ≡ false → get_path k ks v ≢ ok w
unfolding get_path
not-ok_of_not_dict k [] v w no_dict h =
    let p = key_index_split k in ground (arith, leaf_not_dict p.name p.index v w)
not-ok_of_not_dict k (k' ∷ ks) v w no_dict h =
    let p = key_index_split k in ground (arith, down_not_dict p.name p.index (get_path k' ks) v w)

pub delete_path-verdict :
    (k : Text) (ks : List Text) (force : Bool) (v w : Value)
    → last_index k ks ≡ none
    → get_path k ks v ≡ ok w
    → w ≢ null
    → (delete_path k ks force v).0 ≡ verdict w force
unfolding delete_path get_path
delete_path-verdict k [] force (dict fs) w bare h ne =
    let name = (key_index_split k).name in
    elim (Bool-cases (is_blank name)) [
      | inl blank ↦ absurd (ground arith)
      | inr named ↦ rw bare (delete_leaf-verdict name force fs w (rw bare at (rw named at h)) ne)
    ]
delete_path-verdict k (k' ∷ ks) force (dict fs) w bare h ne =
    let p = key_index_split k in
    elim (Bool-cases (is_blank p.name)) [
      | inl blank ↦ absurd (ground arith)
      | inr named ↦
          delete_down_verdict (delete_path k' ks force) (get_path k' ks) w (verdict w force) ne
            (λ v below. delete_path-verdict k' ks force v w bare below ne) p.name fs p.index
            (rw named at h)
    ]
delete_path-verdict k [] force null w bare h ne = absurd (not-ok_of_not_dict k [] null w refl h)
delete_path-verdict k [] force v w bare h ne = absurd (not-ok_of_not_dict k [] v w refl h)
delete_path-verdict k (k' ∷ ks) force v w bare h ne =
    absurd (not-ok_of_not_dict k (k' ∷ ks) v w refl h)
