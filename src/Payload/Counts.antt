-- ===== src/Payload/Counts.antt =====
-- `_add_num_keys` of `KvPayload`: beside each list of a dict, its length under `num_<name>`.
pub mod Laws
use cortx_utils.Base.{Text, codes, ◌++◌}
use cortx_utils.Value.{Value, int, list, dict, Items, nil, cons, Fields, end, field, pos}
use cortx_utils.Value.Dict.{put}
use cortx_utils.Value.Seq.{length}

abbrev pub num_key : Text → Text
num_key k = codes "num_" ++ k

-- `num_keys`, the entries to be added.
unfoldable pub num_entries : Fields → Fields
num_entries end = end
num_entries (field k (list xs) fs) = field (num_key k) (int (pos (length xs))) (num_entries fs)
num_entries (field k _ fs) = num_entries fs

-- `data.update(other)`
unfoldable pub update : Fields → Fields → Fields
update fs end = fs
update fs (field k v gs) = update (put k v fs) gs

unfoldable mutual
  pub with_num_keys : Value → Value
  with_num_keys (dict fs) = dict (update (num_fields fs) (num_entries fs))
  with_num_keys (list xs) = list (num_items xs)
  with_num_keys v = v

  pub num_fields : Fields → Fields
  num_fields end = end
  num_fields (field k v fs) = field k (with_num_keys v) (num_fields fs)

  pub num_items : Items → Items
  num_items nil = nil
  num_items (cons x xs) = cons (with_num_keys x) (num_items xs)
