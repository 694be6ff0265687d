-- ===== src/Payload/Enumerate/Distinct.antt =====
-- `_get_keys` lists no key twice.
use mathlib.Core.Logic.Or
use mathlib.Core.List.{Mem, Nodup, Nodup-concat, concat-eq-append, mem-cons, not-mem-nil}
use mathlib.Core.Bool.{Bool-discrete}
use mathlib.Core.HLevel.{hedberg}
use cortx_utils.Base.{
  ℕ, ◌+◌, Text, Bool, true, Option, some, List, [], ◌∷◌, ◌≡◌, arith, contains, eq_iff, Bool-cases,
  inl, inr,
}
use cortx_utils.Key.{child_key}
use cortx_utils.Value.{Value, null, list, dict, Items, nil, cons, Fields, end, field}
use cortx_utils.Payload.Enumerate.{
  add_new, suffix, elem_prefix, keys_items, keys_elem, keys_fields, keys_entry, keys_of,
}

contains_of_mem : (k : Text) (keys : List Text) → Mem k keys → contains k keys ≡ true
unfolding contains
contains_of_mem k [] m = absurd (not-mem-nil m)
contains_of_mem k (j ∷ js) m =
    Or.elim (hedberg Bool-discrete _ _) (mem-cons.0 m) (λ e. ground (arith, eq_iff k j))
      (λ rest. ground (arith, contains_of_mem k js rest))

add_new-Nodup : (k : Text) (keys : List Text) → Nodup keys → Nodup (add_new k keys)
unfolding add_new
add_new-Nodup k keys h = elim (Bool-cases (contains k keys)) [
  | inl old ↦ rw old h
  | inr new ↦ rw new (
      rw (← concat-eq-append keys k)
        ((Nodup-concat keys k).1 (λ m. absurd (ground (arith, contains_of_mem k keys m)), h)))
]

module _ (d : ℕ) (key_index : Bool) where
  mutual
    unfolding keys_items

    keys_items-Nodup :
        (keys : List Text) (xs : Items) (i : ℕ) (pkey : Option Text)
        → Nodup keys
        → Nodup (keys_items d key_index keys xs i pkey)
    keys_items-Nodup keys nil i pkey h = h
    keys_items-Nodup keys (cons x xs) i pkey h =
        keys_items-Nodup (keys_elem d key_index keys x i pkey) xs (i + 1) pkey
          (keys_elem-Nodup keys x i pkey h)

    keys_elem-Nodup :
        (keys : List Text) (v : Value) (i : ℕ) (pkey : Option Text)
        → Nodup keys
        → Nodup (keys_elem d key_index keys v i pkey)
    keys_elem-Nodup keys (dict fs) i pkey h =
        keys_fields-Nodup keys fs (elem_prefix pkey (suffix key_index i)) h
    keys_elem-Nodup keys (list xs) i pkey h = h
    keys_elem-Nodup keys null i pkey h = h
    keys_elem-Nodup keys _ i pkey h = add_new-Nodup _ keys h

    keys_fields-Nodup :
        (keys : List Text) (fs : Fields) (pkey : Option Text)
        → Nodup keys
        → Nodup (keys_fields d key_index keys fs pkey)
    keys_fields-Nodup keys end pkey h = h
    keys_fields-Nodup keys (field k v fs) pkey h =
        keys_fields-Nodup (keys_entry d key_index keys v (child_key d pkey k)) fs pkey
          (keys_entry-Nodup keys v (child_key d pkey k) h)

    keys_entry-Nodup :
        (keys : List Text) (v : Value) (newkey : Text)
        → Nodup keys
        → Nodup (keys_entry d key_index keys v newkey)
    keys_entry-Nodup keys (list xs) newkey h = keys_items-Nodup keys xs 0 (some newkey) h
    keys_entry-Nodup keys (dict fs) newkey h = keys_fields-Nodup keys fs (some newkey) h
    keys_entry-Nodup keys null newkey h = h
    keys_entry-Nodup keys _ newkey h = add_new-Nodup newkey keys h

  pub keys_of-Nodup :
      (keys : List Text) (v : Value) (pkey : Option Text)
      → Nodup keys
      → Nodup (keys_of d key_index keys v pkey)
  unfolding keys_of
  keys_of-Nodup keys (list xs) pkey h = keys_items-Nodup keys xs 0 pkey h
  keys_of-Nodup keys (dict fs) pkey h = keys_fields-Nodup keys fs pkey h
  keys_of-Nodup keys null pkey h = h
  keys_of-Nodup keys _ pkey h = h
