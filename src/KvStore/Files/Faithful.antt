-- ===== src/KvStore/Files/Faithful.antt =====
-- A store in a file keeps what is dumped, so its callers read back what they set.
use cortx_utils.Base.{
  ℕ, Text, Bool, true, false, Option, some, [], ◌∷◌, ◌≡◌, refl, sym, ◌∙◌, arith, ok, Assoc, find,
  store, find-store_self, Option-cases, Result-cases, inl, inr,
}
use cortx_utils.Value.{Value, dict, Fields}
use cortx_utils.Payload
use cortx_utils.Payload.{KvPayload}
use cortx_utils.Payload.Enumerate.{shallow_keys_of}
use cortx_utils.Key.{split}
use cortx_utils.Payload.Write.SetGet.{set_path-dict}
use cortx_utils.Payload.Laws.{IsReadableKey}
use cortx_utils.KvStore
use cortx_utils.KvStore.{Backend, IsFaithful}
use cortx_utils.KvStore.Laws.{get-set_one, set_one_raises}
use cortx_utils.KvStore.Files.{
  Format, FileStore, Files, given, read_file, write_file, connect, load, dump, file_backend,
}

-- What the library of a format promises: a dict that was written without an exception is read back.
pub record IsExactFormat (F : Format) : Type 0 where
  pub parse-write :
      (fs : Fields) → (F.write (dict fs)).0 ≡ ok tt → F.parse (F.write (dict fs)).1 ≡ some (dict fs)

-- A new payload has the data and the delimiter that it is given.
pub init_dict :
    (fs : Fields) (d : ℕ) (recurse : Bool)
    → (q : KvPayload) × (Payload.init (some (dict fs)) (d ∷ []) recurse ≡ ok q)
      × (q.node ≡ dict fs)
      × (q.delim ≡ d)
unfolding Payload.init shallow_keys_of
init_dict fs d true = (_, refl, refl, refl)
init_dict fs d false = (_, refl, refl, refl)

set-dict :
    (key : Text) (v : Value) (p : KvPayload)
    → (Payload.set key v p).0 ≡ ok tt
    → (fs : Fields) × ((Payload.set key v p).1.node ≡ dict fs)
unfolding Payload.set
set-dict key v p written =
    set_path-dict (split p.delim key).0 (split p.delim key).1 v p.node written

init-delim :
    (o : Option Value) (d : ℕ) (p : KvPayload) → Payload.init o (d ∷ []) true ≡ ok p → p.delim ≡ d
unfolding Payload.init
init-delim o d p made = cc

read_file-delim :
    (F : Format) (st : FileStore) (files : Assoc Text) (p : KvPayload)
    → read_file F st true files ≡ ok p
    → p.delim ≡ st.delim
unfolding read_file
read_file-delim F st files p made = elim (Option-cases (find st.path files)) [
  | inl missing ↦ absurd (ground arith)
  | inr (t, found) ↦ elim (Option-cases (F.parse t)) [
    | inl bad ↦ absurd (ground arith)
    | inr (v, parsed) ↦
        init-delim (given v) st.delim p (rw (parsed, read_file) at (rw (found, read_file) at made))
  ]
]

module _ (F : Format) (E : IsExactFormat F) (path_of : Text → Text) where
  -- The URL was opened, and the payload is a dict with the delimiter of its store.
  pub record IsOpen (url : Text) (p : KvPayload) (w : Files) : Type 0 where
    pub object : FileStore
    pub opened : find url w.stores ≡ some object
    pub same_delim : p.delim ≡ object.delim
    pub fields : Fields
    pub is_fields : p.node ≡ dict fields

  -- A store object reads back the dict that was written to its file.
  read_file-write :
      (st : FileStore) (fs : Fields) (recurse : Bool) (files : Assoc Text)
      → (F.write (dict fs)).0 ≡ ok tt
      → read_file F st recurse (store st.path (F.write (dict fs)).1 files)
        ≡ Payload.init (some (dict fs)) (st.delim ∷ []) recurse
  unfolding read_file
  read_file-write st fs recurse files written =
      rw (find-store_self st.path (F.write (dict fs)).1 files, read_file)
        (rw (E.parse-write fs written, read_file))

  dump_opened :
      (url : Text) (p : KvPayload) (w : Files) (st : FileStore) (fs : Fields)
      → find url w.stores ≡ some st
      → p.node ≡ dict fs
      → dump F path_of url p w ≡ (
        (F.write (dict fs)).0,
        record w { contents = store st.path (F.write (dict fs)).1 w.contents },
      )
  unfolding dump write_file
  dump_opened url p w st fs opened is_fields = rw (opened, dump) (rw is_fields)

  load_opened :
      (url : Text) (recurse : Bool) (w : Files) (st : FileStore)
      → find url w.stores ≡ some st
      → load F path_of url recurse w ≡ (read_file F st recurse w.contents, w)
  unfolding load
  load_opened url recurse w st opened = rw (opened, load)

  pub file_load-dump :
      (url : Text) (recurse : Bool) (p : KvPayload) (w : Files)
      → IsOpen url p w
      → (dump F path_of url p w).0 ≡ ok tt
      → (q : KvPayload) × ((load F path_of url recurse (dump F path_of url p w).1).0 ≡ ok q)
        × (q.node ≡ p.node)
        × (q.delim ≡ p.delim)
  file_load-dump url recurse p w o done =
      let fs = o.fields in
      let st = o.object in
      let step = dump_opened url p w st fs o.opened o.is_fields in
      let (q, made, same_node, same_delim) = init_dict fs st.delim recurse in
      (
        q,
        rw step (
            rw
              (load_opened url recurse
                (record w { contents = store st.path (F.write (dict fs)).1 w.contents }) st
                o.opened)
              (read_file-write st fs recurse w.contents (rw step at done) ∙ made)),
        same_node ∙ sym o.is_fields,
        same_delim ∙ sym o.same_delim,
      )

  pub file_load-connect :
      (url : Text) (delim : ℕ) (recurse : Bool) (q : KvPayload) (w : Files)
      → (load F path_of url recurse w).0 ≡ ok q
      → (connect F path_of url delim w).0 ≡ ok tt
      → (load F path_of url recurse (connect F path_of url delim w).1).0 ≡ ok q
  unfolding connect load
  file_load-connect url delim recurse q w loads done = elim (Option-cases (find url w.stores)) [
    | inl closed ↦ absurd (ground arith)
    | inr (st, opened) ↦ rw (opened, connect) loads
  ]

  -- A file of a format that reads back the dicts that it wrote is a faithful store.
  abbrev pub file_backend-IsFaithful : IsFaithful (file_backend F path_of)
  file_backend-IsFaithful = record {
    Keeps = IsOpen;
    load-dump = file_load-dump;
    load-connect = file_load-connect;
  }

  -- What was loaded has the delimiter of an open store.
  loaded-IsOpen :
      (url key : Text) (v : Value) (w : Files) (p : KvPayload)
      → (load F path_of url true w).0 ≡ ok p
      → (Payload.set key v p).0 ≡ ok tt
      → IsOpen url (Payload.set key v p).1 (load F path_of url true w).1
  unfolding load Payload.set
  loaded-IsOpen url key v w p loads written = elim (Option-cases (find url w.stores)) [
    | inl closed ↦ absurd (ground arith)
    | inr (st, opened) ↦
        let (fs, is_fields) = set-dict key v p written in
        let read = rw (opened, load) at loads in
        rw (opened, load)
          (record {
            object = st;
            opened = opened;
            same_delim = read_file-delim F st w.contents p read;
            fields = fs;
            is_fields = is_fields;
          })
  ]

  -- `set` of one key on a JSON, YAML or TOML store that returns, then `get` of it, returns the
  -- value, if the key is one that `get` accepts and the format reads back the dicts that it wrote.
  pub file_get-set :
      (url key : Text) (v : Value) (w : Files) (p : KvPayload)
      → (load F path_of url true w).0 ≡ ok p
      → IsReadableKey p.delim key
      → (KvStore.set (file_backend F path_of) url (key ∷ []) (v ∷ []) w).0 ≡ ok tt
      → (KvStore.get
          (file_backend F path_of)
          url
          (key ∷ [])
          (KvStore.set (file_backend F path_of) url (key ∷ []) (v ∷ []) w).1).0
        ≡ ok (v ∷ [])
  file_get-set url key v w p loads readable done =
      let B = file_backend F path_of in
      elim (Result-cases (Payload.set key v p).0) [
        | inl (u, written) ↦
            get-set_one B file_backend-IsFaithful url w key v p loads readable
              (loaded-IsOpen url key v w p loads written) done
        | inr (e, raised) ↦
            absurd (
              ground (arith, set_one_raises B file_backend-IsFaithful url w key v p e loads raised))
      ]
