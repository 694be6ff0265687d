-- ===== src/Payload/Enumerate/Listed.antt =====
-- Every key that `_get_keys` lists is one that `_get` reads, at a string or number.
use cortx_utils.Base.{
  ℕ, zero, suc, ◌+◌, Text, true, false, Option, none, some, List, [], ◌∷◌, ◌++◌, ◌≡◌, ◌≢◌, refl,
  sym, ap, ◌∙◌, arith, ok, append_assoc, contains, eq_iff, Bool-cases, inl, inr,
}
use cortx_utils.Key.{is_blank, index_suffix, child_key, show_prefix}
use cortx_utils.Key.Shape.{IsDelim}
use cortx_utils.Value.{Value, null, list, dict, Items, nil, cons, Fields, end, field, is_scalar}
use cortx_utils.Value.Dict.{lookup}
use cortx_utils.Value.Seq.{get_elem?}
use cortx_utils.Payload.Read.{enter, enter_index, index_leaf}
use cortx_utils.Payload.Enumerate.{
  add_new, suffix, elem_prefix, keys_items, keys_elem, keys_fields, keys_entry, keys_of,
}
use cortx_utils.Payload.Enumerate.Readable.{
  IsName, IsNamed, AllNamed, AreNamed, read, read_here, read_below, read_elem, read_elem_below,
}

-- The key is read, and at a string or number.
abbrev pub IsLeafKey : ℕ → Value → Text → Type 0
IsLeafKey d root key = (v : Value) × (read d key root ≡ ok v) × (is_scalar v ≡ true)

abbrev pub AllLeafKeys : ℕ → Value → List Text → Type 0
AllLeafKeys d root [] = Unit
AllLeafKeys d root (k ∷ ks) = IsLeafKey d root k × AllLeafKeys d root ks

module _ (d : ℕ) (delim : IsDelim d) (root : Value) where
  snoc-AllLeafKeys :
      (k : Text) (ks : List Text)
      → IsLeafKey d root k
      → AllLeafKeys d root ks
      → AllLeafKeys d root (ks ++ (k ∷ []))
  snoc-AllLeafKeys k [] h hs = (h, tt)
  snoc-AllLeafKeys k (j ∷ js) h (hj, hs) = (hj, snoc-AllLeafKeys k js h hs)

  add_new-AllLeafKeys :
      (k : Text) (ks : List Text)
      → IsLeafKey d root k
      → AllLeafKeys d root ks
      → AllLeafKeys d root (add_new k ks)
  unfolding add_new
  add_new-AllLeafKeys k ks h hs = elim (Bool-cases (contains k ks)) [
    | inl old ↦ rw old hs
    | inr new ↦ rw new (snoc-AllLeafKeys k ks h hs)
  ]

  -- What a key says of the value `v` that it names: how the key and the longer ones read.
  record Reaches (key : Text) (v : Value) : Type 0 where
    not_empty : key ≢ []
    here : read d key root ≡ ok v
    below : (rest : Text) → read d (key ++ (d ∷ rest)) root ≡ enter (read d rest) v
    elem : (n : ℕ) → read d (key ++ index_suffix n) root ≡ index_leaf n v
    elem_below :
        (n : ℕ) (rest : Text)
        → read d (key ++ (index_suffix n ++ (d ∷ rest))) root ≡ enter_index n (read d rest) v

  -- The dict stands under the prefix: what is read below the prefix is read in the dict.
  abbrev Located : Option Text → Fields → Type 0
  Located pkey fs = (rest : Text) → read d (child_key d pkey rest) root ≡ read d rest (dict fs)

  -- A prefix in front of a key that goes on.
  child_key-append :
      (pkey : Option Text) (k t : Text) → child_key d pkey (k ++ t) ≡ child_key d pkey k ++ t
  unfolding child_key
  child_key-append none k t = refl
  child_key-append (some p) k t = sym (append_assoc p (d ∷ k) t)

  child_key-not_empty :
      (pkey : Option Text) (k : Text) → is_blank k ≡ false → child_key d pkey k ≢ []
  unfolding child_key is_blank
  child_key-not_empty none [] h e = cc
  child_key-not_empty none (c ∷ k) h e = cc
  child_key-not_empty (some []) k h e = cc
  child_key-not_empty (some (c ∷ p)) k h e = cc

  Reaches-of_Located :
      (pkey : Option Text) (all : Fields) (k : Text) (v : Value)
      → Located pkey all
      → IsName d k
      → lookup k all ≡ some v
      → Reaches (child_key d pkey k) v
  Reaches-of_Located pkey all k v at named found = record {
    not_empty = child_key-not_empty pkey k (named.0);
    here = at k ∙ read_here d delim k named all v found;
    below = λ rest.
        rw (← child_key-append pkey k (d ∷ rest))
          (at (k ++ (d ∷ rest)) ∙ read_below d delim k named all v found rest);
    elem = λ n.
        rw (← child_key-append pkey k (index_suffix n))
          (at (k ++ index_suffix n) ∙ read_elem d delim k named all v found n);
    elem_below = λ n rest. rw (← child_key-append pkey k (index_suffix n ++ (d ∷ rest))) (
        at (k ++ (index_suffix n ++ (d ∷ rest)))
        ∙ read_elem_below d delim k named all v found n rest);
  }

  -- The items are those of the list `all` from `i` on, and the fields are among those of `all`.
  abbrev IsTail : Items → Items → ℕ → Type 0
  IsTail xs all i = (j : ℕ) → get_elem? all (i + j) ≡ get_elem? xs j

  abbrev IsAmong : Fields → Fields → Type 0
  IsAmong fs all = (k : Text) (v : Value) → lookup k fs ≡ some v → lookup k all ≡ some v

  IsTail-cons :
      (x : Value) (xs all : Items) (i : ℕ) → IsTail (cons x xs) all i → IsTail xs all (i + 1)
  IsTail-cons x xs all i tail j = ap (get_elem? all) (omega arith) ∙ tail (suc j)

  IsTail-head :
      (x : Value) (xs all : Items) (i : ℕ) → IsTail (cons x xs) all i → get_elem? all i ≡ some x
  IsTail-head x xs all i tail = ap (get_elem? all) (omega arith) ∙ tail zero

  IsAmong-field :
      (k : Text) (v : Value) (fs all : Fields)
      → lookup k fs ≡ none
      → IsAmong (field k v fs) all
      → IsAmong fs all
  unfolding lookup
  IsAmong-field k v fs all fresh among j w found = among j w (ground (arith, eq_iff k j))

  IsAmong-head :
      (k : Text) (v : Value) (fs all : Fields) → IsAmong (field k v fs) all → lookup k all ≡ some v
  unfolding lookup
  IsAmong-head k v fs all among = among k v (ground (arith, eq_iff k k))

  Located-elem :
      (key : Text) (all : Items) (i : ℕ) (fs : Fields)
      → Reaches key (list all)
      → get_elem? all i ≡ some (dict fs)
      → Located (some (key ++ index_suffix i)) fs
  unfolding child_key enter_index
  Located-elem key all i fs at found rest =
      rw (append_assoc key (index_suffix i) (d ∷ rest))
        (at.elem_below i rest ∙ rw (found, enter_index))

  leaf_elem :
      (key : Text) (all : Items) (i : ℕ) (v : Value)
      → Reaches key (list all)
      → get_elem? all i ≡ some v
      → is_scalar v ≡ true
      → IsLeafKey d root (key ++ index_suffix i)
  unfolding index_leaf
  leaf_elem key all i v at found leaf = (v, at.elem i ∙ rw (found, index_leaf), leaf)

  elem_prefix-some :
      (key : Text) (i : ℕ)
      → key ≢ []
      → elem_prefix (some key) (suffix true i) ≡ some (key ++ index_suffix i)
  unfolding elem_prefix suffix
  elem_prefix-some [] i h = absurd (h refl)
  elem_prefix-some (c ∷ key) i h = refl

  Located-child : (key : Text) (fs : Fields) → Reaches key (dict fs) → Located (some key) fs
  unfolding child_key enter
  Located-child key fs at rest = at.below rest

  added_elem :
      (key : Text) (all : Items) (i : ℕ) (v : Value) (keys : List Text)
      → Reaches key (list all)
      → get_elem? all i ≡ some v
      → is_scalar v ≡ true
      → AllLeafKeys d root keys
      → AllLeafKeys d root (add_new (show_prefix (some key) ++ suffix true i) keys)
  unfolding show_prefix suffix
  added_elem key all i v keys at found leaf h =
      add_new-AllLeafKeys _ keys (leaf_elem key all i v at found leaf) h

  mutual
    unfolding keys_items IsNamed

    listed_items :
        (keys : List Text) (xs all : Items) (i : ℕ) (key : Text)
        → Reaches key (list all)
        → IsTail xs all i
        → AllNamed d xs
        → AllLeafKeys d root keys
        → AllLeafKeys d root (keys_items d true keys xs i (some key))
    listed_items keys nil all i key at tail named h = h
    listed_items keys (cons x xs) all i key at tail (nx, nxs) h =
        listed_items (keys_elem d true keys x i (some key)) xs all (i + 1) key at
          (IsTail-cons x xs all i tail) nxs
          (listed_elem keys x all i key at (IsTail-head x xs all i tail) nx h)

    listed_elem :
        (keys : List Text) (v : Value) (all : Items) (i : ℕ) (key : Text)
        → Reaches key (list all)
        → get_elem? all i ≡ some v
        → IsNamed d v
        → AllLeafKeys d root keys
        → AllLeafKeys d root (keys_elem d true keys v i (some key))
    listed_elem keys (dict fs) all i key at found named h =
        rw (elem_prefix-some key i (at.not_empty)) (
          listed_fields keys fs fs (some (key ++ index_suffix i))
            (Located-elem key all i fs at found) (λ k v e. e) named h)
    listed_elem keys (list xs) all i key at found named h = h
    listed_elem keys null all i key at found named h = h
    listed_elem keys v all i key at found named h = added_elem key all i v keys at found refl h

    listed_fields :
        (keys : List Text) (fs all : Fields) (pkey : Option Text)
        → Located pkey all
        → IsAmong fs all
        → AreNamed d fs
        → AllLeafKeys d root keys
        → AllLeafKeys d root (keys_fields d true keys fs pkey)
    listed_fields keys end all pkey at among named h = h
    listed_fields keys (field k v fs) all pkey at among (name, fresh, nv, nfs) h =
        listed_fields (keys_entry d true keys v (child_key d pkey k)) fs all pkey at
          (IsAmong-field k v fs all fresh among) nfs
          (listed_entry keys v (child_key d pkey k)
            (Reaches-of_Located pkey all k v at name (IsAmong-head k v fs all among)) nv h)

    listed_entry :
        (keys : List Text) (v : Value) (key : Text)
        → Reaches key v
        → IsNamed d v
        → AllLeafKeys d root keys
        → AllLeafKeys d root (keys_entry d true keys v key)
    listed_entry keys (list xs) key at named h =
        listed_items keys xs xs 0 key at (λ j. ap (get_elem? xs) (omega arith)) named h
    listed_entry keys (dict fs) key at named h =
        listed_fields keys fs fs (some key) (Located-child key fs at) (λ k v e. e) named h
    listed_entry keys null key at named h = h
    listed_entry keys v key at named h = add_new-AllLeafKeys key keys (v, at.here, refl) h

-- `get_keys()` of a dict at the top.
pub keys_of-AreRead :
    (d : ℕ) (fs : Fields)
    → IsDelim d
    → AreNamed d fs
    → AllLeafKeys d (dict fs) (keys_of d true [] (dict fs) none)
unfolding keys_of child_key
keys_of-AreRead d fs delim named =
    listed_fields d delim (dict fs) [] fs fs none (λ rest. refl) (λ k v e. e) named tt
