-- ===== src/Conf/Mapped.antt =====
-- `MappedConf` (py-utils/src/utils/conf_store/conf_store.py): the configurations seen through the
-- fixed index `cortx_conf`, over the store of the singleton `Conf`, once that exists.
pub mod Laws
use cortx_utils.Base.{
  Text, Bool, true, false, Option, none, some, List, [], ◌∷◌, Result, Error, ok, err, conf_error,
  einval, codes,
}
use cortx_utils.Base.Exec.{Exec, pure, raise, lift, continue, ◌>>=◌, ◌>>◌}
use cortx_utils.Value.{Value}
use cortx_utils.KvStore.{Backend}
use cortx_utils.Conf
use cortx_utils.Conf.{ConfStore, State, LoadArg, recurse, skip_reload}
use cortx_utils.Conf.Copying

abbrev pub conf_idx : Text
conf_idx = codes "cortx_conf"

-- `except (AssertionError, ConfError)`: a `KvError` and Python's other errors pass through.
unfoldable pub caught : Error → Error
caught (conf_error e) = conf_error einval
caught e = e

unfoldable pub wrapped : {A S : Type 0} → Exec S A → Exec S A
unfolding caught
wrapped f s = let (r, s') = f s in (elim r [ ok a ↦ ok a | err e ↦ err (caught e) ], s')

module _ (B : Backend) where
  -- A method of the configuration store, which leaves the backend.
  abbrev pub on_conf : {A : Type 0} → Exec ConfStore A → Exec (State B) A
  on_conf f (s, w) = let (r, s') = f s in (r, (s', w))

  -- `__init__`
  unfoldable pub init : Text → Exec (State B) (Unit {0})
  init conf_url = Conf.load B conf_idx conf_url (recurse (some true) ∷ skip_reload true ∷ [])

  unfoldable pub set_all : List (Text × Value) → Exec (State B) (Unit {0})
  set_all [] s = (ok tt, s)
  set_all ((key, val) ∷ kvs) s =
      let (r, s') = wrapped (on_conf (Conf.set conf_idx key val)) s in
      let rest = set_all kvs s' in elim r [ ok _ ↦ rest | err e ↦ (err e, s') ]

  -- `set_kvs`: what was set before an exception stays in memory and is not saved.
  unfoldable pub set_kvs : List (Text × Value) → Exec (State B) (Unit {0})
  set_kvs kvs = do set_all kvs; Conf.save B conf_idx

  unfoldable pub set : Text → Value → Exec (State B) (Unit {0})
  set key val = wrapped (do on_conf (Conf.set conf_idx key val); Conf.save B conf_idx)

  unfoldable pub copy : Text → Option (List Text) → Exec (State B) (Unit {0})
  copy src_index key_list = wrapped (on_conf (Copying.copy src_index conf_idx key_list true))

  unfoldable pub search : Text → Text → Option Text → Exec (State B) (List Text)
  search parent_key search_key value (s, w) =
      (Conf.search conf_idx parent_key search_key value s, (s, w))

  unfoldable pub add_num_keys : Exec (State B) (Unit {0})
  add_num_keys = on_conf (Conf.add_num_keys conf_idx)

  unfoldable pub get : Text → Value → Exec (State B) Value
  get key default (s, w) = (Conf.get conf_idx (some key) default true s, (s, w))

  unfoldable pub delete : Text → Bool → Exec (State B) Bool
  delete key force = on_conf (Conf.delete conf_idx key force)
