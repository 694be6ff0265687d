-- ===== src/Payload/Listing.antt =====
-- `get_keys` of `KvPayload`: what it lists can be read, and is listed once.
use mathlib.Core.Logic.Or
use mathlib.Core.List.{Mem, Nodup, Nodup-nil, Nodup-cons, mem-cons, Mem-prop}
use cortx_utils.Base.{
  ℕ, Text, Bool, true, none, List, [], ◌∷◌, ◌≡◌, starts_with, Bool-cases, inl, inr,
}
use cortx_utils.Key.{is_empty}
use cortx_utils.Key.Shape.{IsDelim}
use cortx_utils.Value.{Value, dict, Fields}
use cortx_utils.Payload.{KvPayload, get_keys, filter_prefix}
use cortx_utils.Payload.Enumerate.Distinct.{keys_of-Nodup}
use cortx_utils.Payload.Enumerate.Readable.{AreNamed}
use cortx_utils.Payload.Enumerate.Listed.{AllLeafKeys, keys_of-AreRead}

mem_of_mem-filter_prefix :
    (prefix k : Text) (ks : List Text) → Mem k (filter_prefix prefix ks) → Mem k ks
unfolding filter_prefix
mem_of_mem-filter_prefix prefix k [] m = m
mem_of_mem-filter_prefix prefix k (j ∷ js) m = elim (Bool-cases (starts_with j prefix)) [
  | inl kept ↦
      Or.elim Mem-prop (mem-cons.0 (rw kept at m)) (λ e. mem-cons.1 (Or.inl e))
        (λ rest. mem-cons.1 (Or.inr (mem_of_mem-filter_prefix prefix k js rest)))
  | inr dropped ↦ mem-cons.1 (Or.inr (mem_of_mem-filter_prefix prefix k js (rw dropped at m)))
]

filter_prefix-Nodup : (prefix : Text) (ks : List Text) → Nodup ks → Nodup (filter_prefix prefix ks)
unfolding filter_prefix
filter_prefix-Nodup prefix [] h = h
filter_prefix-Nodup prefix (j ∷ js) h = elim (Bool-cases (starts_with j prefix)) [
  | inl kept ↦ rw kept (
      Nodup-cons.1 (
        λ m. (Nodup-cons.0 h).0 (mem_of_mem-filter_prefix prefix j js m),
        filter_prefix-Nodup prefix js (Nodup-cons.0 h).1,
      ))
  | inr dropped ↦ rw dropped (filter_prefix-Nodup prefix js (Nodup-cons.0 h).1)
]

-- `get_keys` lists no key twice, whatever the data, the prefix and the flag for indices.
pub get_keys-Nodup :
    (prefix : Text) (key_index : Bool) (p : KvPayload) → Nodup (get_keys prefix key_index p)
unfolding get_keys
get_keys-Nodup prefix key_index p =
    let distinct = keys_of-Nodup p.delim key_index [] p.node none Nodup-nil in
    elim (Bool-cases (is_empty prefix)) [
      | inl whole ↦ rw whole distinct
      | inr part ↦ rw part (filter_prefix-Nodup prefix _ distinct)
    ]

filter_prefix-AllLeafKeys :
    (d : ℕ) (root : Value) (prefix : Text) (ks : List Text)
    → AllLeafKeys d root ks
    → AllLeafKeys d root (filter_prefix prefix ks)
unfolding filter_prefix
filter_prefix-AllLeafKeys d root prefix [] h = h
filter_prefix-AllLeafKeys d root prefix (k ∷ ks) (hk, hs) =
    elim (Bool-cases (starts_with k prefix)) [
      | inl kept ↦ rw kept (hk, filter_prefix-AllLeafKeys d root prefix ks hs)
      | inr dropped ↦ rw dropped (filter_prefix-AllLeafKeys d root prefix ks hs)
    ]

-- The data are a dict in which every name is not blank, holds neither the delimiter nor `[`, and
-- stands once in its dict, and the delimiter is no bracket and no digit. Then `get` returns a
-- string or a number, booleans counted, for every key that `get_keys` lists with its indices.
pub get_keys-AreRead :
    (prefix : Text) (p : KvPayload) (fs : Fields)
    → IsDelim p.delim
    → p.node ≡ dict fs
    → AreNamed p.delim fs
    → AllLeafKeys p.delim p.node (get_keys prefix true p)
unfolding get_keys
get_keys-AreRead prefix p fs delim is_fs named =
    let read_all = keys_of-AreRead p.delim fs delim named in
    elim (Bool-cases (is_empty prefix)) [
      | inl whole ↦ rw whole (rw is_fs read_all)
      | inr part ↦ rw part (rw is_fs (filter_prefix-AllLeafKeys p.delim _ prefix _ read_all))
    ]
