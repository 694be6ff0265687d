-- ===== src/Conf/Singleton.antt =====
-- The singleton `Conf` (py-utils/src/utils/conf_store/conf_store.py): one `ConfStore` for the process,
-- made by `init`, or by the first `load`. A call of another method before that meets `None`.
use cortx_utils.Base.{
  ℕ, Text, codes, Bool, Option, none, some, List, ◌∷◌, Assoc, Result, ok, err, attribute_error,
  if◌then◌else◌,
}
use cortx_utils.Base.Exec.{Exec, ◌>>◌}
use cortx_utils.Value.{Value, null, str}
use cortx_utils.KvStore.{Backend}
use cortx_utils.Conf
use cortx_utils.Conf.{ConfStore, State, LoadArg, recurse}
use cortx_utils.Conf.Copying
use cortx_utils.Conf.Copying.{Difference}
use cortx_utils.Conf.Lock
use cortx_utils.Conf.Lock.{Formats}
use cortx_utils.Key.Words.{strip}
use cortx_utils.Value.Compare.{is_truthy}

-- `Conf._conf` and `Conf._delim`. `Conf._machine_id` is that of the store.
pub record Singleton : Type 0 where
  pub conf : Option ConfStore
  pub delim : Text

abbrev pub unset : Singleton
unset = record { conf = none; delim = codes ">" }

abbrev pub delim_or : Text → Option Text → Text
delim_or d none = d
delim_or d (some e) = e

-- `machine_id.strip()`
abbrev pub stripped : Value → Value
stripped (str s) = str (strip s)
stripped v = v

module _ (machine_id : Value) where
  -- `init`, with the delimiter if one is given: it is kept even where the store refuses it. A
  -- second call does nothing.
  unfoldable pub init : Option Text → Exec Singleton (Unit {0})
  init delim g = elim g.conf [
    | some s ↦ (ok tt, g)
    | none ↦
        let d = delim_or g.delim delim in
        elim (Conf.init d machine_id) [
          | ok s ↦ (ok tt, record { conf = some s; delim = d })
          | err e ↦ (err e, record { conf = none; delim = d })
        ]
  ]

  -- `machine_id`: the store is made if it is not there.
  unfoldable pub get_machine_id : Exec Singleton Value
  get_machine_id g =
      let (r, g') = init none g in
      elim r [
        | err e ↦ (err e, g')
        | ok _ ↦ (ok (if is_truthy machine_id then stripped machine_id else null), g')
      ]

  module _ (B : Backend) where
    abbrev pub Process : Type 0
    Process = Singleton × B.World

    -- A method of the store, with what lies behind it.
    unfoldable pub on_state : {A : Type 0} → Exec (State B) A → Exec Process A
    on_state f (g, w) = elim g.conf [
      | none ↦ (err attribute_error, (g, w))
      | some s ↦ let (r, t) = f (s, w) in (r, (record g { conf = some t.0 }, t.1))
    ]

    -- A method that leaves the backend.
    unfoldable pub on_store : {A : Type 0} → Exec ConfStore A → Exec Process A
    on_store f = on_state λ t. (let (r, s') = f t.0 in (r, (s', t.1)))

    -- A method that only reads.
    unfoldable pub on_read : {A : Type 0} → (ConfStore → Result A) → Exec Process A
    on_read f = on_store λ s. (f s, s)

    unfoldable pub init_process : Exec Process (Unit {0})
    init_process (g, w) = let (r, g') = init none g in (r, (g', w))

    unfoldable pub load : Text → Text → Option Bool → List LoadArg → Exec Process (Unit {0})
    load index url deep args = do
      init_process
      on_state (Conf.load B index url (recurse deep ∷ args))

    unfoldable pub save : Text → Exec Process (Unit {0})
    save index = on_state (Conf.save B index)

    unfoldable pub set : Text → Text → Value → Exec Process (Unit {0})
    set index key val = on_store (Conf.set index key val)

    unfoldable pub get : Text → Option Text → Value → Bool → Exec Process Value
    get index key default deep = on_read (Conf.get index key default deep)

    unfoldable pub delete : Text → Text → Bool → Exec Process Bool
    delete index key force = on_store (Conf.delete index key force)

    unfoldable pub copy : Text → Text → Option (List Text) → Bool → Exec Process (Unit {0})
    copy src_index dst_index key_list deep =
        on_store (Copying.copy src_index dst_index key_list deep)

    unfoldable pub merge : Text → Text → Option (List Text) → Exec Process (Unit {0})
    merge dest_index src_index keys = on_store (Copying.merge dest_index src_index keys)

    unfoldable pub compare : Text → Text → Exec Process Difference
    compare index1 index2 = on_read (Copying.compare index1 index2)

    unfoldable pub get_keys : Text → Bool → Exec Process (List Text)
    get_keys index key_index = on_read (Conf.get_keys index key_index)

    unfoldable pub search : Text → Text → Text → Option Text → Exec Process (List Text)
    search index parent_key search_key search_val =
        on_read (Conf.search index parent_key search_key search_val)

    unfoldable pub add_num_keys : Text → Exec Process (Unit {0})
    add_num_keys index = on_store (Conf.add_num_keys index)

    module _ (F : Formats) where
      unfoldable pub lock : Text → Assoc Value → ℕ → ℕ → (ConfStore → ConfStore) → Exec Process Bool
      lock index args tested now pause = on_store (Lock.lock F index args tested now pause)

      unfoldable pub unlock : Text → Assoc Value → Exec Process Bool
      unlock index args = on_store (Lock.unlock F index args)

      unfoldable pub test_lock : Text → Assoc Value → ℕ → Exec Process Bool
      test_lock index args now = on_read (Lock.test_lock F index args now)
