-- ===== src/Tests/Mapped.antt =====
-- `MappedConf` over one payload in memory.
use cortx_utils.Base.{true, false, codes, some, [], ◌∷◌, ◌≡◌, refl, ok, find, store, ◌==◌}
use cortx_utils.Key.{split, key_index_split, find_index, match_index, is_blank}
use cortx_utils.Value.{null}
use cortx_utils.Value.Dict.{lookup}
use cortx_utils.Payload
use cortx_utils.Payload.Write.{set_path}
use cortx_utils.Conf
use cortx_utils.Conf.{ConfStore, is_loaded, save, or_default}
use cortx_utils.Conf.Cache.{ConfCache}
use cortx_utils.Conf.Mapped
use cortx_utils.Conf.Mapped.{conf_idx, wrapped}
use cortx_utils.Tests.Samples.{sample}
use cortx_utils.Tests.Stores.{memory, key, val}

abbrev cache : ConfCache
cache = record { payload = sample; dirty = false; url = codes "json:///c"; recurse = true }

abbrev conf : ConfStore
conf = record {
  delim = b'>';
  cache = (codes "cortx_conf", cache) ∷ [];
  callbacks = [];
  lock_owner = null;
}

opened : is_loaded conf_idx conf ≡ true
unfolding is_loaded find ◌==◌
opened = refl

found : find conf_idx conf.cache ≡ some cache
unfolding find ◌==◌
found = refl

mapped_written : (Mapped.set memory key val (conf, sample)).0 ≡ ok tt
unfolding Mapped.set wrapped save Conf.Cache.dump Conf.Cache.dirty_after Conf.set Conf.on_cache
    Conf.Cache.set Payload.set split set_path key_index_split find_index match_index is_blank lookup
    ◌==◌ find store
mapped_written = refl
