-- ===== src/Payload/Write/SetGet.antt =====
-- What `_get` reads after `_set`, and two writes of one key.
use cortx_utils.Base.{
  ℕ, Text, false, Option, none, some, List, [], ◌∷◌, ◌≡◌, refl, sym, ap, ◌∙◌, arith, Result, ok,
}
use mathlib.Core.Path.{fun_ext}
use cortx_utils.Key.{key_index_split, is_blank}
use cortx_utils.Value.{Value, null, dict, Fields}
use cortx_utils.Payload.Read.{get_path, enter}
use cortx_utils.Payload.Write.{Update, as_dict, set_step, set_path}
use cortx_utils.Payload.Write.Step.{
  IsReadablePart, before, result-set_step, get_leaf-set_step, get_down-set_step, set_step-set_step,
}

-- Every segment of the key is one that `get` accepts.
abbrev pub IsReadable : Text → List Text → Type 0
IsReadable k [] = IsReadablePart (key_index_split k).name (key_index_split k).index
IsReadable k (k' ∷ ks) =
    IsReadablePart (key_index_split k).name (key_index_split k).index × IsReadable k' ks

pub not_blank :
    (name : Text) (index : Option (ℕ × Text)) → IsReadablePart name index → is_blank name ≡ false
not_blank name none h = h
not_blank name (some (n, mid)) (h, _) = h

-- A write that succeeds is at a dict and leaves one.
pub enter-set_path :
    (k : Text) (ks : List Text) (val v : Value) (g : Value → Result Value)
    → (set_path k ks val v).0 ≡ ok tt
    → enter g (set_path k ks val v).1 ≡ g (set_path k ks val v).1
unfolding set_path enter
enter-set_path k [] val (dict fs) g h = refl
enter-set_path k (k' ∷ ks) val (dict fs) g h = refl
enter-set_path k [] val null g h = cc
enter-set_path k [] val _ g h = cc
enter-set_path k (k' ∷ ks) val _ g h = cc

pub get_path-set_path :
    (k : Text) (ks : List Text) (val v : Value)
    → IsReadable k ks
    → (set_path k ks val v).0 ≡ ok tt
    → get_path k ks (set_path k ks val v).1 ≡ ok val
unfolding set_path get_path
get_path-set_path k [] val (dict fs) r h =
    let p = key_index_split k in
    rw (not_blank p.name p.index r) (get_leaf-set_step p.name (λ _. (ok tt, val)) fs p.index r)
get_path-set_path k (k' ∷ ks) val (dict fs) (r, rs) h =
    let p = key_index_split k in
    let update : Update = λ v. set_path k' ks val (as_dict v) in
    let old = as_dict (before p.name p.index fs) in
    let inner = sym (result-set_step p.name update fs p.index r) ∙ h in
    rw (not_blank p.name p.index r) (
      get_down-set_step p.name update fs p.index (get_path k' ks) r
      ∙ enter-set_path k' ks val old (get_path k' ks) inner
      ∙ get_path-set_path k' ks val old rs inner)
get_path-set_path k [] val null r h = cc
get_path-set_path k ks val _ r h = cc

-- Such a write leaves a dict.
pub set_path-dict :
    (k : Text) (ks : List Text) (val v : Value)
    → (set_path k ks val v).0 ≡ ok tt
    → (fs : Fields) × ((set_path k ks val v).1 ≡ dict fs)
unfolding set_path
set_path-dict k [] val (dict fs) h = (_, refl)
set_path-dict k (k' ∷ ks) val (dict fs) h = (_, refl)
set_path-dict k [] val null h = absurd (ground arith)
set_path-dict k [] val _ h = absurd (ground arith)
set_path-dict k (k' ∷ ks) val _ h = absurd (ground arith)

-- The data that a write leaves are read by the next one as they are.
as_dict-set_path :
    (k : Text) (ks : List Text) (val v : Value)
    → as_dict (set_path k ks val (as_dict v)).1 ≡ (set_path k ks val (as_dict v)).1
unfolding set_path
as_dict-set_path k [] val null = refl
as_dict-set_path k [] val _ = refl
as_dict-set_path k (k' ∷ ks) val null = refl
as_dict-set_path k (k' ∷ ks) val _ = refl

pub set_path-set_path :
    (k : Text) (ks : List Text) (a b v : Value)
    → set_path k ks b (set_path k ks a v).1 ≡ set_path k ks b v
unfolding set_path
set_path-set_path k [] a b (dict fs) =
    let p = key_index_split k in
    ap (λ (s : Result (Unit {0}) × Fields). (s.0, dict s.1))
      (set_step-set_step p.name (λ _. (ok tt, a)) (λ _. (ok tt, b)) fs p.index)
set_path-set_path k (k' ∷ ks) a b (dict fs) =
    let p = key_index_split k in
    let first : Update = λ v. set_path k' ks a (as_dict v) in
    let second : Update = λ v. set_path k' ks b (as_dict v) in
    let merged : (v : Value) → second (first v).1 ≡ second v = λ v.
      ap (set_path k' ks b) (as_dict-set_path k' ks a v)
      ∙ set_path-set_path k' ks a b (as_dict v) in
    ap (λ (s : Result (Unit {0}) × Fields). (s.0, dict s.1))
      (set_step-set_step p.name first second fs p.index
        ∙ ap (λ (u : Update). set_step p.name p.index u fs) (fun_ext merged))
set_path-set_path k [] a b null = refl
set_path-set_path k [] a b _ = refl
set_path-set_path k (k' ∷ ks) a b _ = refl
