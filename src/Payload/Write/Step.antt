-- ===== src/Payload/Write/Step.antt =====
-- One segment of `_set`, as a reader of the same segment sees it.
use cortx_utils.Base.{
  ℕ, suc, ◌<◌, Text, true, false, Option, none, some, [], ◌≡◌, refl, arith, Result, ok, eq_refl,
  Bool-cases, inl, inr,
}
use cortx_utils.Key.{is_blank, is_empty}
use cortx_utils.Value.{Value, str, dict, Fields}
use cortx_utils.Value.Dict.{lookup, put, lookup-put, put-put}
use cortx_utils.Value.Seq.{
  length, get_elem?, set, extend_to, length-extend_to, extend_to_id, length-set, get_elem?-set_self,
  set-set,
}
use cortx_utils.Payload.Read.{get_leaf, get_down, enter, enter_index}
use cortx_utils.Payload.Write.{Update, child, child_items, or_empty, set_at_index, set_step}

-- A segment that `get` accepts: the name is not blank, and nothing stands behind the index.
abbrev pub IsReadablePart : Text → Option (ℕ × Text) → Type 0
IsReadablePart name none = is_blank name ≡ false
IsReadablePart name (some (n, mid)) = (is_blank name ≡ false) × (is_empty mid ≡ true)

-- The value that the segment names before the write, as `_set` finds or makes it.
abbrev pub before : Text → Option (ℕ × Text) → Fields → Value
before name none fs = child (lookup name fs)
before name (some (n, mid)) fs =
    or_empty (get_elem? (extend_to (child_items (lookup name fs)) (suc n) (str [])) n)

module _ (name : Text) (fs : Fields) where
  lookup-put_self : (v : Value) → lookup name (put name v fs) ≡ some v
  lookup-put_self v = ground (arith, lookup-put name name v fs, eq_refl name)

  extended : (n : ℕ) → n < length (extend_to (child_items (lookup name fs)) (suc n) (str []))
  extended n = length-extend_to (child_items (lookup name fs)) (suc n) (str [])

  written :
      (n : ℕ) (v : Value)
      → get_elem? (set (extend_to (child_items (lookup name fs)) (suc n) (str [])) n v) n ≡ some v
  written n v = get_elem?-set_self _ n v (extended n)

module _ (name : Text) (update : Update) (fs : Fields) where
  pub result-set_step :
      (index : Option (ℕ × Text))
      → IsReadablePart name index
      → (set_step name index update fs).0 ≡ (update (before name index fs)).0
  unfolding set_step
  result-set_step none h = refl
  result-set_step (some (n, mid)) (h, e) = rw h

  pub get_leaf-set_step :
      (index : Option (ℕ × Text))
      → IsReadablePart name index
      → get_leaf name index (dict (set_step name index update fs).1)
        ≡ ok (update (before name index fs)).1
  unfolding set_step get_leaf
  get_leaf-set_step none h = rw (lookup-put_self name fs _)
  get_leaf-set_step (some (n, mid)) (h, e) =
      rw (h, e, lookup-put_self name fs _, written name fs n _)

  pub get_down-set_step :
      (index : Option (ℕ × Text)) (descend : Value → Result Value)
      → IsReadablePart name index
      → get_down name index descend (dict (set_step name index update fs).1)
        ≡ enter descend (update (before name index fs)).1
  unfolding set_step get_down
  get_down-set_step none descend h = rw (lookup-put_self name fs _, get_down)
  get_down-set_step (some (n, mid)) descend (h, e) =
      rw (h, e, lookup-put_self name fs _, get_down) (rw (written name fs n _, enter_index))

module _ (name : Text) (first second : Update) (fs : Fields) where
  extended_again :
      (n : ℕ) (v : Value)
      → let xs = extend_to (child_items (lookup name fs)) (suc n) (str []) in
        extend_to (set xs n v) (suc n) (str []) ≡ set xs n v
  extended_again n v =
      extend_to_id _ (suc n) (str []) (omega (arith, length-set _ n v, extended name fs n))

  set_at_index-set_at_index :
      (n : ℕ)
      → set_at_index name n second (set_at_index name n first fs).1
        ≡ set_at_index name n (λ v. second (first v).1) fs
  unfolding set_at_index
  set_at_index-set_at_index n = rw (lookup-put_self name fs _) (
      rw (extended_again n _)
        (rw (written name fs n _) (rw (set-set _ n _ _) (rw (put-put name _ _ fs)))))

  -- Two writes of a segment are one, by the two updates in turn.
  pub set_step-set_step :
      (index : Option (ℕ × Text))
      → set_step name index second (set_step name index first fs).1
        ≡ set_step name index (λ v. second (first v).1) fs
  unfolding set_step
  set_step-set_step none = rw (lookup-put_self name fs _) (rw (put-put name _ _ fs))
  set_step-set_step (some (n, mid)) = elim (Bool-cases (is_blank name)) [
    | inl blank ↦ rw blank
    | inr named ↦ rw named (set_at_index-set_at_index n)
  ]
