-- ===== src/Payload/Delete/Keeps.antt =====
-- A call of `_delete` that does not return `True` changes nothing.
use cortx_utils.Base.{
  ℕ, Text, Bool, true, Option, none, some, List, [], ◌∷◌, ◌≡◌, ◌≢◌, refl, ap, arith, Result, ok,
  Option-cases, inl, inr,
}
use cortx_utils.Key.{key_index_split}
use cortx_utils.Value.{Value, null, list, dict, Fields}
use cortx_utils.Value.Dict.{lookup, put_self}
use cortx_utils.Value.Seq.{get_elem?, set_self}
use cortx_utils.Payload.Delete.{delete_leaf, delete_down, delete_path}

delete_leaf_keeps :
    (name : Text) (index : Option (ℕ × Text)) (force : Bool) (fs : Fields)
    → (delete_leaf name index force fs).0 ≢ ok true
    → (delete_leaf name index force fs).1 ≡ fs
unfolding delete_leaf
delete_leaf_keeps name none force fs h = ground arith
delete_leaf_keeps name (some (n, mid)) force fs h = ground arith

module _ (name : Text) (f : Value → Result Bool × Value) (fs : Fields)
    (keep : (v : Value) → (f v).0 ≢ ok true → (f v).1 ≡ v) where
  delete_item_keeps :
      (n : ℕ) (mid : Text) (v : Value)
      → lookup name fs ≡ some v
      → (delete_down name (some (n, mid)) f fs).0 ≢ ok true
      → (delete_down name (some (n, mid)) f fs).1 ≡ fs
  unfolding delete_down
  delete_item_keeps n mid (list xs) found h = elim (Option-cases (get_elem? xs n)) [
    | inl out ↦ rw (found, delete_down) (rw (out, delete_down))
    | inr (x, inside) ↦
        let kept = keep x (rw (inside, delete_down) at (rw (found, delete_down) at h)) in
        rw (found, delete_down)
          (rw (inside, delete_down)
            (rw kept (rw (set_self xs n x inside) (put_self name (list xs) fs found))))
  ]
  delete_item_keeps n mid null found h = rw (found, delete_down)
  delete_item_keeps n mid _ found h = rw (found, delete_down)

  delete_down_keeps :
      (index : Option (ℕ × Text))
      → (delete_down name index f fs).0 ≢ ok true
      → (delete_down name index f fs).1 ≡ fs
  unfolding delete_down
  delete_down_keeps none h = elim (Option-cases (lookup name fs)) [
    | inl missing ↦ rw (missing, delete_down)
    | inr (v, found) ↦
        rw (found, delete_down)
          (rw (keep v (rw (found, delete_down) at h)) (put_self name v fs found))
  ]
  delete_down_keeps (some (n, mid)) h = elim (Option-cases (lookup name fs)) [
    | inl missing ↦ rw (missing, delete_down)
    | inr (v, found) ↦ delete_item_keeps n mid v found h
  ]

pub delete_path_keeps :
    (k : Text) (ks : List Text) (force : Bool) (v : Value)
    → (delete_path k ks force v).0 ≢ ok true
    → (delete_path k ks force v).1 ≡ v
unfolding delete_path
delete_path_keeps k [] force (dict fs) h =
    ap dict (delete_leaf_keeps _ (key_index_split k).index force fs h)
delete_path_keeps k (k' ∷ ks) force (dict fs) h = ap dict (
    delete_down_keeps _ (delete_path k' ks force) fs (delete_path_keeps k' ks force)
      (key_index_split k).index h)
delete_path_keeps k [] force null h = refl
delete_path_keeps k [] force _ h = refl
delete_path_keeps k (k' ∷ ks) force _ h = refl
