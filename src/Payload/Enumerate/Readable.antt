-- ===== src/Payload/Enumerate/Readable.antt =====
-- Names that can stand in a key, and how `_get` reads a key whose first segment is such a name.
use cortx_utils.Base.{ℕ, Text, false, none, some, ◌∷◌, ◌++◌, ◌≡◌, Result, ok, append_assoc}
use cortx_utils.Key.{split, is_blank, is_empty, index_suffix}
use cortx_utils.Key.Shape.{
  IsFree, IsDelim, IsFree-append, index_suffix-IsFree, split_free, split-append,
  key_index_split_free, key_index_split-suffix,
}
use cortx_utils.Value.{Value, list, dict, Items, nil, cons, Fields, end, field}
use cortx_utils.Value.Dict.{lookup}
use cortx_utils.Payload.Read.{get_path, get_leaf, get_down, enter, enter_index, index_leaf}

-- A name that can be written in a key: not blank, with no delimiter and no bracket.
abbrev pub IsName : ℕ → Text → Type 0
IsName d k = (is_blank k ≡ false) × IsFree d k × IsFree b'[' k

-- Every name in the data is such a name, and stands once in its dict.
unfoldable mutual
  pub IsNamed : ℕ → Value → Type 0
  IsNamed d (dict fs) = AreNamed d fs
  IsNamed d (list xs) = AllNamed d xs
  IsNamed d _ = Unit

  pub AllNamed : ℕ → Items → Type 0
  AllNamed d nil = Unit
  AllNamed d (cons x xs) = IsNamed d x × AllNamed d xs

  pub AreNamed : ℕ → Fields → Type 0
  AreNamed d end = Unit
  AreNamed d (field k v fs) = IsName d k × (lookup k fs ≡ none) × IsNamed d v × AreNamed d fs

-- `get(key)` on the data.
abbrev pub read : ℕ → Text → Value → Result Value
read d key node = let (k, ks) = split d key in get_path k ks node

-- One segment at a dict that holds its name.
module _ (d : ℕ) (delim : IsDelim d) (k : Text) (named : IsName d k) (all : Fields) (v : Value)
    (found : lookup k all ≡ some v) where
  suffixed-IsFree : (n : ℕ) → IsFree d (k ++ index_suffix n)
  suffixed-IsFree n = IsFree-append d k (index_suffix n) (named.1) (index_suffix-IsFree d n delim)

  pub read_here : read d k (dict all) ≡ ok v
  unfolding get_path get_leaf
  read_here =
      rw (split_free d k (named.1))
        (rw (key_index_split_free k (named.2)) (rw (named.0) (rw (found, get_leaf))))

  pub read_below : (rest : Text) → read d (k ++ (d ∷ rest)) (dict all) ≡ enter (read d rest) v
  unfolding get_path get_down
  read_below rest =
      rw (split-append d k rest (named.1))
        (rw (key_index_split_free k (named.2)) (rw (named.0) (rw (found, get_down))))

  pub read_elem : (n : ℕ) → read d (k ++ index_suffix n) (dict all) ≡ index_leaf n v
  unfolding get_path get_leaf is_empty
  read_elem n =
      rw (split_free d _ (suffixed-IsFree n))
        (rw (key_index_split-suffix k n (named.2)) (rw (named.0) (rw (found, get_leaf))))

  pub read_elem_below :
      (n : ℕ) (rest : Text)
      → read d (k ++ (index_suffix n ++ (d ∷ rest))) (dict all) ≡ enter_index n (read d rest) v
  unfolding get_path get_down is_empty
  read_elem_below n rest = rw (← append_assoc k (index_suffix n) (d ∷ rest)) (
      rw (split-append d _ rest (suffixed-IsFree n))
        (rw (key_index_split-suffix k n (named.2)) (rw (named.0) (rw (found, get_down)))))
