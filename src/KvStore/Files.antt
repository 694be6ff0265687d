-- ===== src/KvStore/Files.antt =====
-- `JsonKvStore`, `YamlKvStore` and `TomlKvStore`
-- (py-utils/src/utils/kv_store/kv_store_collection.py), which differ by the library that reads and
-- writes the format, behind the table of stores of `KvStoreFactory`
-- (py-utils/src/utils/kv_store/kv_store.py).
pub mod Faithful
pub mod Properties
use cortx_utils.Base.{
  ℕ, Text, Bool, true, false, Option, none, some, [], ◌∷◌, Result, ok, err, kv_error, os_error,
  key_error, einval, Assoc, find, store,
}
use cortx_utils.Base.Exec.{Exec}
use cortx_utils.Value.{Value, null}
use cortx_utils.Payload
use cortx_utils.Payload.{KvPayload}
use cortx_utils.KvStore.{Backend}

-- The library of a format: what a text reads as, if it is well formed, and what is written, perhaps
-- with an exception after it. A new file starts with `initial`.
pub record Format : Type 0 where
  pub parse : Text → Option Value
  pub write : Value → Result (Unit {0}) × Text
  pub initial : Text

-- What a store object keeps.
pub record FileStore : Type 0 where
  pub path : Text
  pub delim : ℕ

-- The files by their paths, and `KvStoreFactory._stores`.
pub record Files : Type 0 where
  pub contents : Assoc Text
  pub stores : Assoc FileStore

-- `None` stands for no data.
unfoldable pub given : Value → Option Value
given null = none
given v = some v

module _ (F : Format) where
  -- `__init__`: a file that does not exist is made.
  unfoldable pub create : Text → Assoc Text → Assoc Text
  create path files = elim (find path files) [ none ↦ store path F.initial files | some t ↦ files ]

  -- `load` of a store object.
  unfoldable pub read_file : FileStore → Bool → Assoc Text → Result KvPayload
  unfolding given
  read_file st recurse files = elim (find st.path files) [
    | none ↦ err os_error
    | some t ↦ elim (F.parse t) [
      | none ↦ err (kv_error einval)
      | some v ↦ Payload.init (given v) (st.delim ∷ []) recurse
    ]
  ]

  -- `dump` of a store object: the file is emptied before the library writes.
  unfoldable pub write_file : FileStore → KvPayload → Exec (Assoc Text) (Unit {0})
  write_file st p files = let (r, t) = F.write p.node in (r, store st.path t files)

  module _ (path_of : Text → Text) where
    -- `get_instance`: a URL that was opened before gives the same object, with its first delimiter.
    unfoldable pub connect : Text → ℕ → Exec Files (Unit {0})
    connect url delim w = elim (find url w.stores) [
      | some st ↦ (ok tt, w)
      | none ↦ (
        ok tt,
        record {
          contents = create (path_of url) w.contents;
          stores = store url (record { path = path_of url; delim = delim }) w.stores;
        },
      )
    ]

    -- A URL that was not opened has no object to call.
    unfoldable pub load : Text → Bool → Exec Files KvPayload
    load url recurse w = elim (find url w.stores) [
      | none ↦ (err key_error, w)
      | some st ↦ (read_file st recurse w.contents, w)
    ]

    unfoldable pub dump : Text → KvPayload → Exec Files (Unit {0})
    dump url p w = elim (find url w.stores) [
      | none ↦ (err key_error, w)
      | some st ↦ let (r, files) = write_file st p w.contents in (r, record w { contents = files })
    ]

    abbrev pub file_backend : Backend
    file_backend = record { World = Files; connect = connect; load = load; dump = dump }
