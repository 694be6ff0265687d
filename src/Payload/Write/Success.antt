-- ===== src/Payload/Write/Success.antt =====
-- Where `_set` never raises: strings, lists and dicts alone.
use cortx_utils.Base.{
  ℕ, zero, suc, Text, Option, none, some, List, [], ◌∷◌, ◌≡◌, refl, ◌∙◌, ok, Option-cases,
  Bool-cases, ◌==◌, inl, inr,
}
use cortx_utils.Key.{key_index_split}
use cortx_utils.Value.{Value, null, str, list, dict, Items, nil, cons, Fields, end, field}
use cortx_utils.Value.Dict.{lookup}
use cortx_utils.Value.Seq.{get_elem?, extend_to}
use cortx_utils.Payload.Write.{Update, child, child_items, or_empty, as_dict, set_path}
use cortx_utils.Payload.Write.Step.{before, result-set_step}
use cortx_utils.Payload.Write.SetGet.{IsReadable}

-- No number, boolean or `None` at any depth, as in the files that hold only texts.
unfoldable mutual
  pub IsTextual : Value → Type 0
  IsTextual (str s) = Unit
  IsTextual (list xs) = AllTextual xs
  IsTextual (dict fs) = AreTextual fs
  IsTextual _ = ⊥

  pub AllTextual : Items → Type 0
  AllTextual nil = Unit
  AllTextual (cons x xs) = IsTextual x × AllTextual xs

  pub AreTextual : Fields → Type 0
  AreTextual end = Unit
  AreTextual (field k v fs) = IsTextual v × AreTextual fs

child-IsTextual : (name : Text) (fs : Fields) → AreTextual fs → IsTextual (child (lookup name fs))
unfolding IsTextual lookup
child-IsTextual name end h = tt
child-IsTextual name (field k v fs) (hv, hfs) = elim (Bool-cases (k == name)) [
  | inl same ↦ rw (same, lookup) hv
  | inr other ↦ rw (other, lookup) (child-IsTextual name fs hfs)
]

items-AllTextual : (v : Value) → IsTextual v → AllTextual (child_items (some v))
unfolding IsTextual
items-AllTextual (list xs) h = h
items-AllTextual null h = tt
items-AllTextual _ h = tt

or_empty-IsTextual :
    (xs : Items) (n i : ℕ)
    → AllTextual xs
    → IsTextual (or_empty (get_elem? (extend_to xs n (str [])) i))
unfolding IsTextual
or_empty-IsTextual nil zero i h = tt
or_empty-IsTextual nil (suc n) zero h = tt
or_empty-IsTextual nil (suc n) (suc i) h = or_empty-IsTextual nil n i h
or_empty-IsTextual (cons x xs) zero zero h = h.0
or_empty-IsTextual (cons x xs) zero (suc i) h = or_empty-IsTextual xs zero i (h.1)
or_empty-IsTextual (cons x xs) (suc n) zero h = h.0
or_empty-IsTextual (cons x xs) (suc n) (suc i) h = or_empty-IsTextual xs n i (h.1)

before-IsTextual :
    (name : Text) (index : Option (ℕ × Text)) (fs : Fields)
    → AreTextual fs
    → IsTextual (before name index fs)
unfolding IsTextual
before-IsTextual name none fs h = child-IsTextual name fs h
before-IsTextual name (some (n, mid)) fs h = elim (Option-cases (lookup name fs)) [
  | inl missing ↦ rw missing (or_empty-IsTextual nil (suc n) n tt)
  | inr (v, found) ↦ rw found (
      or_empty-IsTextual (child_items (some v)) (suc n) n
        (items-AllTextual v (rw found at (child-IsTextual name fs h))))
]

as_dict-IsTextual :
    (v : Value) → IsTextual v → (gs : Fields) × (as_dict v ≡ dict gs) × AreTextual gs
unfolding IsTextual
as_dict-IsTextual (str s) h = (end, refl, tt)
as_dict-IsTextual (list xs) h = (end, refl, tt)
as_dict-IsTextual (dict fs) h = (fs, refl, h)
as_dict-IsTextual null h = absurd h
as_dict-IsTextual _ h = absurd h

pub set_path_succeeds :
    (k : Text) (ks : List Text) (val : Value) (fs : Fields)
    → IsReadable k ks
    → AreTextual fs
    → (set_path k ks val (dict fs)).0 ≡ ok tt
unfolding set_path
set_path_succeeds k [] val fs r h =
    let p = key_index_split k in result-set_step p.name (λ _. (ok tt, val)) fs p.index r
set_path_succeeds k (k' ∷ ks) val fs (r, rs) h =
    let p = key_index_split k in
    let update : Update = λ v. set_path k' ks val (as_dict v) in
    let (gs, is_gs, textual) =
      as_dict-IsTextual (before p.name p.index fs) (before-IsTextual p.name p.index fs h) in
    result-set_step p.name update fs p.index r
    ∙ rw is_gs (set_path_succeeds k' ks val gs rs textual)
