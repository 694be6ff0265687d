-- ===== src/Payload/Delete/Frame.antt =====
-- `_delete` leaves the keys that lie apart from its own as they read before.
use cortx_utils.Base.{
  ℕ, Text, Bool, ◌||◌, Option, none, some, List, [], ◌∷◌, ◌≡◌, ◌≢◌, refl, eq_iff, arith, leb,
  Result, Bool-cases, Option-cases, inl, inr,
}
use cortx_utils.Key.{key_index_split, is_blank}
use cortx_utils.Value.{Value, null, list, dict, Fields}
use cortx_utils.Value.Dict.{lookup, lookup-put_ne, lookup-remove, lookup-put_self, remove}
use cortx_utils.Value.Seq.{get_elem?, length}
use cortx_utils.Payload.Read.{get_path, get_down, enter}
use cortx_utils.Payload.Write.Frame.{Apart, here, below, get_path_by_lookup}
use cortx_utils.Payload.Delete.{is_removable, delete_leaf, delete_down, delete_path}

module _ (name j : Text) (fs : Fields) (ne : name ≢ j) where
  lookup-remove_ne : lookup j (remove name fs) ≡ lookup j fs
  lookup-remove_ne = ground (arith, lookup-remove name j fs, eq_iff name j)

  lookup-delete_leaf :
      (index : Option (ℕ × Text)) (force : Bool)
      → lookup j (delete_leaf name index force fs).1 ≡ lookup j fs
  unfolding delete_leaf
  lookup-delete_leaf none force = elim (Option-cases (lookup name fs)) [
    | inl missing ↦ rw (missing, delete_leaf)
    | inr (v, found) ↦ elim (Bool-cases (is_removable v || force)) [
      | inl gone ↦ rw (found, delete_leaf) (rw gone lookup-remove_ne)
      | inr kept ↦ rw (found, delete_leaf) (rw kept)
    ]
  ]
  lookup-delete_leaf (some (n, mid)) force = elim (Option-cases (lookup name fs)) [
    | inl missing ↦ rw (missing, delete_leaf)
    | inr (list xs, found) ↦ elim (Bool-cases (leb (length xs) n)) [
      | inl out ↦ rw (found, delete_leaf) (rw out)
      | inr inside ↦ rw (found, delete_leaf) (rw inside (lookup-put_ne name j _ fs ne))
    ]
    | inr (v, found) ↦ rw (found, delete_leaf)
  ]

  lookup-delete_down :
      (index : Option (ℕ × Text)) (f : Value → Result Bool × Value)
      → lookup j (delete_down name index f fs).1 ≡ lookup j fs
  unfolding delete_down
  lookup-delete_down none f = elim (Option-cases (lookup name fs)) [
    | inl missing ↦ rw (missing, delete_down)
    | inr (v, found) ↦ rw (found, delete_down) (lookup-put_ne name j _ fs ne)
  ]
  lookup-delete_down (some (n, mid)) f = elim (Option-cases (lookup name fs)) [
    | inl missing ↦ rw (missing, delete_down)
    | inr (list xs, found) ↦ elim (Option-cases (get_elem? xs n)) [
      | inl out ↦ rw (found, delete_down) (rw (out, delete_down))
      | inr (x, inside) ↦
          rw (found, delete_down) (rw (inside, delete_down) (lookup-put_ne name j _ fs ne))
    ]
    | inr (v, found) ↦ rw (found, delete_down)
  ]

-- A deletion keeps a dict a dict, and what is no dict as it is.
enter-delete_path_same :
    (k : Text) (ks : List Text) (force : Bool) (v : Value) (g : Value → Result Value)
    → g (delete_path k ks force v).1 ≡ g v
    → enter g (delete_path k ks force v).1 ≡ enter g v
unfolding delete_path enter
enter-delete_path_same k [] force (dict fs) g h = h
enter-delete_path_same k (k' ∷ ks) force (dict fs) g h = h
enter-delete_path_same k [] force null g h = refl
enter-delete_path_same k [] force _ g h = refl
enter-delete_path_same k (k' ∷ ks) force _ g h = refl

get_down-delete_down :
    (name : Text) (f : Value → Result Bool × Value) (g : Value → Result Value) (fs : Fields)
    → ((v : Value) → enter g (f v).1 ≡ enter g v)
    → get_down name none g (dict (delete_down name none f fs).1) ≡ get_down name none g (dict fs)
unfolding delete_down get_down
get_down-delete_down name f g fs same = elim (Option-cases (lookup name fs)) [
  | inl missing ↦ rw (missing, delete_down)
  | inr (v, found) ↦
      rw (found, delete_down, get_down) (rw (lookup-put_self name _ fs, get_down) (same v))
]

below_step_delete :
    (k k' : Text) (ks : List Text) (j' : Text) (js : List Text) (force : Bool) (fs : Fields)
    → (key_index_split k).index ≡ none
    → ((v : Value) → get_path j' js (delete_path k' ks force v).1 ≡ get_path j' js v)
    → get_path k (j' ∷ js) (delete_path k (k' ∷ ks) force (dict fs)).1
      ≡ get_path k (j' ∷ js) (dict fs)
unfolding delete_path get_path
below_step_delete k k' ks j' js force fs bare same =
    let name = (key_index_split k).name in
    elim (Bool-cases (is_blank name)) [
      | inl blank ↦ rw blank
      | inr named ↦
          rw (named, bare)
            (get_down-delete_down name (delete_path k' ks force) (get_path j' js) fs
              (λ v. enter-delete_path_same k' ks force v (get_path j' js) (same v)))
    ]

pub get_path-delete_path-Apart :
    (k : Text) (ks : List Text) (j : Text) (js : List Text) (force : Bool) (v : Value)
    → Apart k ks j js
    → get_path j js (delete_path k ks force v).1 ≡ get_path j js v
unfolding delete_path
get_path-delete_path-Apart k [] j js force (dict fs) (here ne) =
    get_path_by_lookup j js _ fs (lookup-delete_leaf _ _ fs ne (key_index_split k).index force)
get_path-delete_path-Apart k (k' ∷ ks) j js force (dict fs) (here ne) =
    get_path_by_lookup j js _ fs (lookup-delete_down _ _ fs ne (key_index_split k).index _)
get_path-delete_path-Apart k (k' ∷ ks) j (j' ∷ js) force (dict fs) (below same bare apart) =
    rw (← same) (
      below_step_delete k k' ks j' js force fs bare
        (λ v. get_path-delete_path-Apart k' ks j' js force v apart))
get_path-delete_path-Apart k [] j js force null apart = refl
get_path-delete_path-Apart k [] j js force _ apart = refl
get_path-delete_path-Apart k (k' ∷ ks) j js force _ apart = refl
