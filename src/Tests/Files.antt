-- ===== src/Tests/Files.antt =====
-- A file store over a format for dicts with at most one entry, a string.
use cortx_utils.Base.{
  Text, zero, suc, true, codes, Option, some, [], ◌∷◌, ◌≡◌, refl, Result, ok, err, type_error, find,
  store, ◌==◌,
}
use cortx_utils.Key.{split, key_index_split, find_index, match_index, is_blank, is_empty}
use cortx_utils.Value.{Value, str, dict, Fields, end, field}
use cortx_utils.Value.Dict.{lookup, put}
use cortx_utils.Payload
use cortx_utils.Payload.{KvPayload}
use cortx_utils.Payload.Write.{set_path}
use cortx_utils.Payload.Laws.{IsReadableKey}
use cortx_utils.Payload.Enumerate
use cortx_utils.KvStore
use cortx_utils.KvStore.Files.{
  Format, Files, given, read_file, write_file, load, dump, file_backend,
}
use cortx_utils.KvStore.Files.Faithful.{IsExactFormat, file_get-set}

-- A 1 stands before each code of the text, and a 0 behind the last.
unfoldable quote_onto : Text → Text → Text
quote_onto [] rest = 0 ∷ rest
quote_onto (c ∷ s) rest = 1 ∷ c ∷ quote_onto s rest

unfoldable unquote : Text → Text × Text
unquote (suc z ∷ c ∷ t) = let (s, rest) = unquote t in (c ∷ s, rest)
unquote (zero ∷ rest) = ([], rest)
unquote t = ([], t)

unquote-quote_onto : (s rest : Text) → unquote (quote_onto s rest) ≡ (s, rest)
unfolding quote_onto unquote
unquote-quote_onto [] rest = refl
unquote-quote_onto (c ∷ s) rest = rw (unquote-quote_onto s rest) refl

unfoldable write_entry : Value → Result (Unit {0}) × Text
write_entry (dict end) = (ok tt, [])
write_entry (dict (field k (str s) end)) = (ok tt, quote_onto k s)
write_entry v = (err type_error, [])

unfoldable parse_entry : Text → Option Value
parse_entry [] = some (dict end)
parse_entry (c ∷ t) = let (k, s) = unquote (c ∷ t) in some (dict (field k (str s) end))

abbrev entries : Format
entries = record { parse = parse_entry; write = write_entry; initial = [] }

entries_read : (k s : Text) → parse_entry (quote_onto k s) ≡ some (dict (field k (str s) end))
unfolding parse_entry quote_onto unquote
entries_read [] s = refl
entries_read (c ∷ k) s = rw (unquote-quote_onto k s) refl

entries_exact :
    (fs : Fields)
    → (write_entry (dict fs)).0 ≡ ok tt
    → parse_entry (write_entry (dict fs)).1 ≡ some (dict fs)
unfolding write_entry parse_entry
entries_exact end done = refl
entries_exact (field k (str s) end) done = entries_read k s
entries_exact _ done = absurd cc

entries-IsExactFormat : IsExactFormat entries
entries-IsExactFormat = record { parse-write = entries_exact }

abbrev url : Text
url = codes "json:///a"

abbrev path_of : Text → Text
path_of u = codes "/a"

abbrev key : Text
key = codes "ip"

abbrev val : Value
val = str (codes "::1")

abbrev disk : Files
disk = record {
  contents = (codes "/a", []) ∷ [];
  stores = (url, record { path = codes "/a"; delim = b'>' }) ∷ [];
}

abbrev loaded : KvPayload
loaded = record { node = dict end; delim = b'>'; keys = [] }

disk_loads : (load entries path_of url true disk).0 ≡ ok loaded
unfolding load find read_file given parse_entry Payload.init Payload.Enumerate.shallow_keys_of
    Payload.Enumerate.keys_of ◌==◌
disk_loads = refl

key_readable : IsReadableKey b'>' key
unfolding split key_index_split find_index match_index is_blank is_empty
key_readable = refl

file_set_done :
    (KvStore.set (file_backend entries path_of) url (key ∷ []) (val ∷ []) disk).0 ≡ ok tt
unfolding KvStore.set KvStore.set_each Payload.set split set_path key_index_split find_index
    match_index is_blank lookup ◌==◌ load find store read_file given parse_entry Payload.init dump
    write_file write_entry quote_onto put
file_set_done = refl

file_get-set_example :
    (KvStore.get
      (file_backend entries path_of)
      url
      (key ∷ [])
      (KvStore.set (file_backend entries path_of) url (key ∷ []) (val ∷ []) disk).1).0
    ≡ ok (val ∷ [])
file_get-set_example =
    file_get-set entries entries-IsExactFormat path_of url key val disk loaded disk_loads
      key_readable file_set_done
