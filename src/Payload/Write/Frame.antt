-- ===== src/Payload/Write/Frame.antt =====
-- A write to one key leaves the keys that lie apart from it as they read before.
use cortx_utils.Base.{
  ℕ, Text, false, Option, none, some, List, [], ◌∷◌, ◌≡◌, ◌≢◌, refl, sym, ◌∙◌, Result, ok,
  Bool-cases, Option-cases, inl, inr,
}
use cortx_utils.Key.{key_index_split, is_blank}
use cortx_utils.Value.{Value, null, str, list, dict, Fields, end}
use cortx_utils.Value.Dict.{lookup, lookup-put_ne}
use cortx_utils.Payload.Read.{get_path, get_leaf, get_down, enter}
use cortx_utils.Payload.Write.{Update, child, as_dict, set_step, set_path}
use cortx_utils.Payload.Write.Step.{IsReadablePart, result-set_step, get_down-set_step}
use cortx_utils.Payload.Write.SetGet.{enter-set_path, not_blank}

-- Two keys part where their names first differ; until then their segments are the same and have
-- no index.
pub data Apart : Text → List Text → Text → List Text → Type 0 where
  here :
      {k j : Text} {ks js : List Text}
      → (key_index_split k).name ≢ (key_index_split j).name
      → Apart k ks j js
  below :
      {k j k' j' : Text} {ks js : List Text}
      → k ≡ j
      → (key_index_split k).index ≡ none
      → Apart k' ks j' js
      → Apart k (k' ∷ ks) j (j' ∷ js)

-- A key that `get` accepts, with an index at most on its last segment.
abbrev pub IsPlain : Text → List Text → Type 0
IsPlain k [] = IsReadablePart (key_index_split k).name (key_index_split k).index
IsPlain k (k' ∷ ks) =
    (is_blank (key_index_split k).name ≡ false) × ((key_index_split k).index ≡ none) × IsPlain k' ks

lookup-set_step :
    (name j : Text) (index : Option (ℕ × Text)) (update : Update) (fs : Fields)
    → name ≢ j
    → lookup j (set_step name index update fs).1 ≡ lookup j fs
unfolding set_step
lookup-set_step name j none update fs ne = lookup-put_ne name j _ fs ne
lookup-set_step name j (some (n, mid)) update fs ne = elim (Bool-cases (is_blank name)) [
  | inl blank ↦ rw blank
  | inr named ↦ rw named (lookup-put_ne name j _ fs ne)
]

-- A segment reads its own name in the dict and nothing else.
get_leaf_by_lookup :
    (name : Text) (index : Option (ℕ × Text)) (fs gs : Fields)
    → lookup name fs ≡ lookup name gs
    → get_leaf name index (dict fs) ≡ get_leaf name index (dict gs)
unfolding get_leaf
get_leaf_by_lookup name none fs gs e = rw (e, get_leaf)
get_leaf_by_lookup name (some (n, mid)) fs gs e = rw (e, get_leaf)

get_down_by_lookup :
    (name : Text) (index : Option (ℕ × Text)) (g : Value → Result Value) (fs gs : Fields)
    → lookup name fs ≡ lookup name gs
    → get_down name index g (dict fs) ≡ get_down name index g (dict gs)
unfolding get_down
get_down_by_lookup name none g fs gs e = rw (e, get_down)
get_down_by_lookup name (some (n, mid)) g fs gs e = rw (e, get_down)

pub get_path_by_lookup :
    (k : Text) (ks : List Text) (fs gs : Fields)
    → lookup (key_index_split k).name fs ≡ lookup (key_index_split k).name gs
    → get_path k ks (dict fs) ≡ get_path k ks (dict gs)
unfolding get_path
get_path_by_lookup k [] fs gs e = rw (get_leaf_by_lookup _ _ fs gs e)
get_path_by_lookup k (k' ∷ ks) fs gs e = rw (get_down_by_lookup _ _ _ fs gs e)

get_leaf_empty :
    (name : Text) (index : Option (ℕ × Text))
    → IsReadablePart name index
    → get_leaf name index (dict end) ≡ ok null
unfolding get_leaf lookup
get_leaf_empty name none h = refl
get_leaf_empty name (some (n, mid)) (h, e) = rw e

-- A plain key reads nothing in an empty dict.
get_path_empty : (k : Text) (ks : List Text) → IsPlain k ks → get_path k ks (dict end) ≡ ok null
unfolding get_path get_down lookup
get_path_empty k [] h =
    rw (not_blank _ (key_index_split k).index h) (get_leaf_empty _ (key_index_split k).index h)
get_path_empty k (k' ∷ ks) (named, plain, _) = rw (named, plain)

-- Through a value that is no dict nothing is read, and a write that succeeds has made it a dict.
enter-as_dict :
    (k j : Text) (ks js : List Text) (val v : Value)
    → IsPlain j js
    → (set_path k ks val (as_dict v)).0 ≡ ok tt
    → enter (get_path j js) v ≡ get_path j js (as_dict v)
unfolding enter set_path
enter-as_dict k j ks js val (dict fs) plain h = refl
enter-as_dict k j ks js val (str s) plain h = sym (get_path_empty j js plain)
enter-as_dict k j ks js val (list xs) plain h = sym (get_path_empty j js plain)
enter-as_dict k j [] js val _ plain h = cc
enter-as_dict k j (k' ∷ ks) js val _ plain h = cc

-- What a plain segment with no index reads, by the child that a write would find or make.
get_down-child :
    (name j : Text) (js : List Text) (fs : Fields)
    → IsPlain j js
    → get_down name none (get_path j js) (dict fs) ≡ enter (get_path j js) (child (lookup name fs))
unfolding get_down
get_down-child name j js fs plain = elim (Option-cases (lookup name fs)) [
  | inl missing ↦ rw (missing, get_down) (unfold enter in sym (get_path_empty j js plain))
  | inr (v, found) ↦ rw (found, get_down)
]

below_step :
    (k k' : Text) (ks : List Text) (j' : Text) (js : List Text) (val : Value) (fs : Fields)
    → is_blank (key_index_split k).name ≡ false
    → (key_index_split k).index ≡ none
    → IsPlain j' js
    → (set_path k (k' ∷ ks) val (dict fs)).0 ≡ ok tt
    → ((v : Value)
        → (set_path k' ks val v).0 ≡ ok tt
        → get_path j' js (set_path k' ks val v).1 ≡ get_path j' js v)
    → get_path k (j' ∷ js) (set_path k (k' ∷ ks) val (dict fs)).1 ≡ get_path k (j' ∷ js) (dict fs)
unfolding set_path get_path
below_step k k' ks j' js val fs named bare plain h ih =
    let name = (key_index_split k).name in
    let g = get_path j' js in
    let update : Update = λ v. set_path k' ks val (as_dict v) in
    let old = child (lookup name fs) in
    let inner : (update old).0 ≡ ok tt =
      sym (result-set_step name update fs none named) ∙ (rw bare at h) in
    rw (named, bare)
      (get_down-set_step name update fs none g named
        ∙ enter-set_path k' ks val (as_dict old) g inner
        ∙ ih (as_dict old) inner
        ∙ sym (enter-as_dict k' j' ks js val old plain inner)
        ∙ sym (get_down-child name j' js fs plain))

pub get_path-set_path-Apart :
    (k : Text) (ks : List Text) (j : Text) (js : List Text) (val v : Value)
    → Apart k ks j js
    → IsPlain j js
    → (set_path k ks val v).0 ≡ ok tt
    → get_path j js (set_path k ks val v).1 ≡ get_path j js v
unfolding set_path
get_path-set_path-Apart k [] j js val (dict fs) (here ne) plain h =
    get_path_by_lookup j js _ fs (lookup-set_step _ _ (key_index_split k).index _ fs ne)
get_path-set_path-Apart k (k' ∷ ks) j js val (dict fs) (here ne) plain h =
    get_path_by_lookup j js _ fs (lookup-set_step _ _ (key_index_split k).index _ fs ne)
get_path-set_path-Apart k (k' ∷ ks) j (j' ∷ js) val (dict fs) (below same bare apart)
      (named, _, rest) h =
    rw (← same) (
      below_step k k' ks j' js val fs (rw same named) bare rest h
        (λ v inner. get_path-set_path-Apart k' ks j' js val v apart rest inner))
get_path-set_path-Apart k [] j js val null apart plain h = cc
get_path-set_path-Apart k [] j js val _ apart plain h = cc
get_path-set_path-Apart k (k' ∷ ks) j js val _ apart plain h = cc
