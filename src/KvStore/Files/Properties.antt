-- ===== src/KvStore/Files/Properties.antt =====
-- `PropertiesKvStore` (py-utils/src/utils/kv_store/kv_store_collection.py): a line `key = value` for
-- each entry.
pub mod Lines
pub mod Entries
pub mod Laws
use cortx_utils.Base.{
  ℕ, Text, codes, Bool, true, false, Option, none, some, List, [], ◌∷◌, ◌++◌, ◌=ℕ◌, ◌||◌,
  if◌then◌else◌, Result, ok, err, kv_error, enoent, os_error, attribute_error, value_error, ◌>>=◌,
  Assoc, find, store,
}
use cortx_utils.Base.Exec.{Exec}
use cortx_utils.Key.{split, split_once}
use cortx_utils.Key.Words.{strip}
use cortx_utils.Value.{Value, str, dict, Fields, end, field}
use cortx_utils.Value.Dict.{put}
use cortx_utils.Payload
use cortx_utils.Payload.{KvPayload}
use cortx_utils.KvStore.Files.{FileStore}

-- What reading makes of the ends of lines: a carriage return is one, with a newline behind it or not.
unfoldable pub universal : Text → Text
universal [] = []
universal (c ∷ []) = if c =ℕ 13 then 10 ∷ [] else c ∷ []
universal (c ∷ d ∷ s) =
    let rest = universal s in
    let later = universal (d ∷ s) in
    if c =ℕ 13 then (if d =ℕ 10 then 10 ∷ rest else 10 ∷ later) else c ∷ later

-- `f.readlines()`, without the newlines, and with an empty line at the end: the code strips each
-- line and passes over empty ones.
unfoldable pub lines : Text → List Text
lines t = let (line, rest) = split 10 (universal t) in line ∷ rest

-- `not line or line[0] == '#'`
unfoldable pub is_skipped : Text → Bool
is_skipped [] = true
is_skipped (c ∷ s) = c =ℕ b'#'

-- `key, val = line.split('=', 1)`
unfoldable pub read_entry : Text × Option Text → Fields → Result Fields
read_entry (key, none) fs = err value_error
read_entry (key, some val) fs = ok (put (strip key) (str (strip val)) fs)

-- A line that was stripped.
unfoldable pub read_line : Text → Fields → Result Fields
read_line line fs = if is_skipped line then ok fs else read_entry (split_once b'=' line) fs

unfoldable pub read_lines : List Text → Fields → Result Fields
read_lines [] fs = ok fs
read_lines (line ∷ rest) fs = read_line (strip line) fs >>= read_lines rest

-- `except Exception`
abbrev pub invalid_format : {A : Type 0} → Result A → Result A
invalid_format (ok a) = ok a
invalid_format (err e) = err (kv_error enoent)

unfoldable pub parse : Text → Result Fields
parse t = invalid_format (read_lines (lines t) end)

-- `load`
unfoldable pub load : FileStore → Assoc Text → Result KvPayload
load st files = elim (find st.path files) [
  | none ↦ err os_error
  | some t ↦ parse t >>= λ fs. Payload.init (some (dict fs)) (st.delim ∷ []) true
]

module _ (show : Value → Text) where
  -- `"%s = %s\n" % (key, val)`, entry by entry.
  unfoldable pub print : Fields → Text
  print end = []
  print (field k v fs) = (k ++ (codes " = " ++ show v)) ++ (10 ∷ print fs)

  -- `dump`: the file is emptied before a value that is no dict is met.
  unfoldable pub dump : FileStore → KvPayload → Exec (Assoc Text) (Unit {0})
  dump st p files = elim p.node [
    | dict fs ↦ (ok tt, store st.path (print fs) files)
    | _ ↦ (err attribute_error, store st.path [] files)
  ]
