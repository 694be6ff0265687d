-- ===== src/Tests/Stores.antt =====
-- Stores and configurations over one payload in memory.
use cortx_utils.Base.{
  Text, true, false, codes, some, List, [], ◌∷◌, ◌≡◌, ◌≢◌, refl, arith, ok, find, store, ◌==◌,
}
use cortx_utils.Key.{split, key_index_split, find_index, match_index, is_blank, is_empty}
use cortx_utils.Value.{Value, null, str}
use cortx_utils.Value.Dict.{lookup}
use cortx_utils.Payload
use cortx_utils.Payload.{KvPayload}
use cortx_utils.Payload.Write.{set_path}
use cortx_utils.Payload.Laws.{IsReadableKey}
use cortx_utils.KvStore
use cortx_utils.KvStore.{Backend, IsFaithful}
use cortx_utils.KvStore.Laws.{set_data_lost}
use cortx_utils.Conf
use cortx_utils.Conf.{ConfStore, LoadArg, fail_reload, defaults, load, save, is_loaded, read_args}
use cortx_utils.Conf.Cache.{ConfCache}
use cortx_utils.Conf.Laws.{conf_get-set}
use cortx_utils.Conf.Durability.{get-load}
use cortx_utils.Payload.Read.{get_path}
use cortx_utils.Payload.Write.Frame.{here}
use cortx_utils.Conf.Copying.{copy, copy_keys, copy_key, value_at}
use cortx_utils.Conf.Copying.Loop.{ArePlainApart}
use cortx_utils.Conf.Copying.Laws.{GotAlike, copy-GotAlike}
use cortx_utils.Tests.Samples.{sample, blank}

-- A world with one payload, behind every URL.
abbrev pub memory : Backend
memory = record {
  World = KvPayload;
  connect = λ url delim p. (ok tt, p);
  load = λ url recurse p. (ok p, p);
  dump = λ url q p. (ok tt, q);
}

abbrev pub memory-IsFaithful : IsFaithful memory
memory-IsFaithful = record {
  Keeps = λ url p w. Unit;
  load-dump = λ url recurse p w keeps done. (p, refl, refl, refl);
  load-connect = λ url delim recurse q w loads done. loads;
}

abbrev pub key : Text
key = codes "net>ip"

abbrev pub val : Value
val = str (codes "fe80")

pub key_readable : IsReadableKey b'>' key
unfolding split key_index_split find_index match_index is_blank is_empty
key_readable = (refl, refl)

set_one_done : (KvStore.set memory [] (key ∷ []) (val ∷ []) sample).0 ≡ ok tt
unfolding KvStore.set KvStore.set_each Payload.set split set_path key_index_split find_index
    match_index is_blank lookup ◌==◌
set_one_done = refl

set_data_done : (KvStore.set_data memory [] blank sample).0 ≡ ok tt
unfolding KvStore.set_data
set_data_done = refl

set_data_lost_example :
    (r : KvPayload) × ((memory.load [] true (KvStore.set_data memory [] blank sample).1).0 ≡ ok r)
    × (r.node ≡ sample.node)
set_data_lost_example =
    set_data_lost memory memory-IsFaithful [] sample sample blank refl tt set_data_done

abbrev a_cache : ConfCache
a_cache = record { payload = sample; dirty = false; url = codes "json:///a"; recurse = true }

abbrev b_cache : ConfCache
b_cache = record { payload = blank; dirty = false; url = codes "json:///b"; recurse = true }

abbrev conf : ConfStore
conf = record {
  delim = b'>';
  cache = (codes "a", a_cache) ∷ (codes "b", b_cache) ∷ [];
  callbacks = [];
  lock_owner = str (codes "m1");
}

found_a : find (codes "a") conf.cache ≡ some a_cache
unfolding ◌==◌ find
found_a = refl

found_b : find (codes "b") conf.cache ≡ some b_cache
unfolding ◌==◌ find
found_b = refl

conf_written : (Conf.set (codes "a") key val conf).0 ≡ ok tt
unfolding Conf.set Conf.on_cache Conf.Cache.set Payload.set split set_path key_index_split
    find_index match_index is_blank lookup ◌==◌ find
conf_written = refl

conf_get-set_example :
    Conf.get (codes "a") (some key) null true (Conf.set (codes "a") key val conf).1
    ≡ ok (Conf.or_default null val)
conf_get-set_example =
    conf_get-set (codes "a") key val null conf a_cache found_a key_readable conf_written

a_not_b : codes "a" ≢ codes "b"
a_not_b e = ground arith

a_loaded : is_loaded (codes "a") conf ≡ true
unfolding is_loaded ◌==◌ find
a_loaded = refl

args_read : (read_args (codes "a") [] defaults conf.callbacks).0 ≡ ok defaults
unfolding read_args
args_read = refl

abbrev changed : ConfStore
changed = (Conf.set (codes "a") key val conf).1

saved : (save memory (codes "a") (changed, sample)).0 ≡ ok tt
unfolding save Conf.Cache.dump Conf.Cache.dirty_after Conf.set Conf.on_cache Conf.Cache.set
    Payload.set split set_path key_index_split find_index match_index is_blank lookup ◌==◌ find
    store
saved = refl

reloaded :
    (load memory
      (codes "a")
      (codes "json:///a")
      (fail_reload false ∷ [])
      (save memory (codes "a") (changed, sample)).1).0
    ≡ ok tt
unfolding load is_loaded read_args Conf.read_store Conf.Cache.init save Conf.Cache.dump
    Conf.Cache.dirty_after Conf.set Conf.on_cache Conf.Cache.set Payload.set split set_path
    key_index_split find_index match_index is_blank lookup ◌==◌ find store
reloaded = refl

get-load_example :
    Conf.get
      (codes "a")
      (some key)
      null
      true
      (load memory
        (codes "a")
        (codes "json:///a")
        (fail_reload false ∷ [])
        (save memory (codes "a") (changed, sample)).1).1.0
    ≡ ok (Conf.or_default null val)
get-load_example =
    get-load memory memory-IsFaithful (codes "a") key val null conf sample a_cache found_a
      key_readable tt conf_written saved reloaded

b_not_a : codes "b" ≢ codes "a"
b_not_a e = ground arith

name_not_net : (key_index_split (codes "name")).name ≢ (key_index_split (codes "net")).name
unfolding key_index_split find_index match_index
name_not_net e = ground arith

abbrev copied_keys : List Text
copied_keys = key ∷ codes "name" ∷ []

copied_apart : ArePlainApart b'>' copied_keys
unfolding split key_index_split find_index match_index is_blank is_empty
copied_apart = ((refl, refl, refl), (here name_not_net, tt), (refl, tt, tt))

copied_done : (copy (codes "a") (codes "b") (some copied_keys) true conf).0 ≡ ok tt
unfolding copy is_loaded copy_keys copy_key value_at Conf.cached find ◌==◌ Conf.Cache.get
    Payload.get get_path split is_blank key_index_split find_index match_index lookup Conf.set
    Conf.on_cache store Conf.Cache.set set_path Payload.set
copied_done = refl

copy-GotAlike_example :
    GotAlike
      (codes "a")
      conf
      (codes "b")
      (copy (codes "a") (codes "b") (some copied_keys) true conf).1
      copied_keys
copy-GotAlike_example =
    copy-GotAlike (codes "a") (codes "b") b_not_a b'>' (some copied_keys) true copied_keys conf
      b_cache found_b refl refl copied_apart copied_done
