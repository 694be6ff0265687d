-- ===== src/Payload/Enumerate.antt =====
-- `_get_keys` and `_shallow_get_keys` of `KvPayload`: the keys of the data, in order.
pub mod Distinct
pub mod Readable
pub mod Listed
use cortx_utils.Base.{
  ℕ, zero, suc, ◌+◌, Text, Bool, Option, none, some, List, [], ◌∷◌, ◌++◌, contains, if◌then◌else◌,
  Result, ok, err, kv_error, enosys,
}
use cortx_utils.Key.{index_suffix, child_key, show_prefix}
use cortx_utils.Value.{Value, null, list, dict, Items, nil, cons, Fields, end, field}
use cortx_utils.Value.Seq.{length}

-- `if key not in keys: keys.append(key)`
unfoldable pub add_new : Text → List Text → List Text
add_new k keys = if contains k keys then keys else keys ++ (k ∷ [])

-- `f"[{index}]" if key_index else ""`
unfoldable pub suffix : Bool → ℕ → Text
suffix key_index i = if key_index then index_suffix i else []

-- `None if not pkey else pkey + suffix`
unfoldable pub elem_prefix : Option Text → Text → Option Text
elem_prefix none sfx = none
elem_prefix (some []) sfx = none
elem_prefix (some (c ∷ p)) sfx = some ((c ∷ p) ++ sfx)

module _ (d : ℕ) (key_index : Bool) where
  unfoldable mutual
    -- A list inside a list is passed over, and so is a value that is no string and no number.
    pub keys_items : List Text → Items → ℕ → Option Text → List Text
    keys_items keys nil i pkey = keys
    keys_items keys (cons x xs) i pkey = keys_items (keys_elem keys x i pkey) xs (i + 1) pkey

    pub keys_elem : List Text → Value → ℕ → Option Text → List Text
    keys_elem keys (dict fs) i pkey = keys_fields keys fs (elem_prefix pkey (suffix key_index i))
    keys_elem keys (list xs) i pkey = keys
    keys_elem keys null i pkey = keys
    keys_elem keys _ i pkey = add_new (show_prefix pkey ++ suffix key_index i) keys

    pub keys_fields : List Text → Fields → Option Text → List Text
    keys_fields keys end pkey = keys
    keys_fields keys (field k v fs) pkey =
        keys_fields (keys_entry keys v (child_key d pkey k)) fs pkey

    pub keys_entry : List Text → Value → Text → List Text
    keys_entry keys (list xs) newkey = keys_items keys xs 0 (some newkey)
    keys_entry keys (dict fs) newkey = keys_fields keys fs (some newkey)
    keys_entry keys null newkey = keys
    keys_entry keys _ newkey = add_new newkey keys

  -- `_get_keys`
  unfoldable pub keys_of : List Text → Value → Option Text → List Text
  unfolding keys_items
  keys_of keys (list xs) pkey = keys_items keys xs 0 pkey
  keys_of keys (dict fs) pkey = keys_fields keys fs pkey
  keys_of keys _ pkey = keys

  -- The list may hold `None`, which a list at the top gives when the indices are left out.
  shallow_indices : ℕ → ℕ → Option Text → List (Option Text)
  shallow_indices i zero pkey = []
  shallow_indices i (suc n) pkey =
      some (show_prefix pkey ++ index_suffix i) ∷ shallow_indices (i + 1) n pkey

  unfoldable pub shallow_list : Items → Option Text → List (Option Text)
  unfolding shallow_indices
  shallow_list xs pkey = if key_index then shallow_indices 0 (length xs) pkey else pkey ∷ []

  unfoldable mutual
    pub shallow_fields : Fields → Option Text → List (Option Text)
    shallow_fields end pkey = []
    shallow_fields (field k v fs) pkey =
        shallow_entry v (child_key d pkey k) ++ shallow_fields fs pkey

    pub shallow_entry : Value → Text → List (Option Text)
    shallow_entry (dict fs) nkey = shallow_fields fs (some nkey)
    shallow_entry (list xs) nkey = shallow_list xs (some nkey)
    shallow_entry _ nkey = some nkey ∷ []

  -- `_shallow_get_keys`, onto no keys.
  unfoldable pub shallow_keys_of : Value → Option Text → Result (List (Option Text))
  unfolding shallow_fields shallow_list
  shallow_keys_of (list xs) pkey = ok (shallow_list xs pkey)
  shallow_keys_of (dict fs) pkey = ok (shallow_fields fs pkey)
  shallow_keys_of _ pkey = err (kv_error enosys)
