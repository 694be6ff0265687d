-- ===== src/Tests/Singletons.antt =====
-- A process that opens a configuration, and a properties file.
use cortx_utils.Base.{Text, codes, true, some, [], ◌≡◌, ◌≢◌, refl, arith, ok, err, attribute_error}
use cortx_utils.Value.{Value, null, str, dict, Fields, end, field}
use cortx_utils.Key.{is_space}
use cortx_utils.Payload.{KvPayload}
use cortx_utils.Conf.Singleton
use cortx_utils.Conf.Singleton.{unset}
use cortx_utils.KvStore.Files.{FileStore}
use cortx_utils.KvStore.Files.Properties
use cortx_utils.KvStore.Files.Properties.{is_skipped}
use cortx_utils.KvStore.Files.Properties.Laws.{IsWord, IsName, properties_load-dump}
use cortx_utils.KvStore.Files.Properties.Entries.{AreDistinct}
use cortx_utils.Tests.Samples.{sample}
use cortx_utils.Tests.Stores.{memory}

abbrev machine : Value
machine = str (codes "m1")

-- Before anything was loaded there is no store to ask.
too_early :
    (Singleton.get machine memory (codes "a") (some (codes "name")) null true (unset, sample)).0
    ≡ err attribute_error
unfolding Singleton.get Singleton.on_read Singleton.on_store Singleton.on_state
too_early = refl

abbrev show : Value → Text
show (str s) = s
show _ = []

abbrev entries : Fields
entries = field (codes "ip") (str (codes "::1")) (field (codes "url") (str (codes "a=b c")) end)

ip_IsName : IsName (codes "ip")
unfolding is_space is_skipped
ip_IsName = record {
  word = record {
    no_newline = (refl, (refl, tt));
    no_return = (refl, (refl, tt));
    starts = refl;
    ends = refl;
  };
  no_equals = (refl, (refl, tt));
  no_comment = refl;
}

url_IsName : IsName (codes "url")
unfolding is_space is_skipped
url_IsName = record {
  word = record {
    no_newline = (refl, (refl, (refl, tt)));
    no_return = (refl, (refl, (refl, tt)));
    starts = refl;
    ends = refl;
  };
  no_equals = (refl, (refl, (refl, tt)));
  no_comment = refl;
}

ip_IsWord : IsWord (codes "::1")
unfolding is_space
ip_IsWord = record {
  no_newline = (refl, (refl, (refl, tt)));
  no_return = (refl, (refl, (refl, tt)));
  starts = refl;
  ends = refl;
}

url_IsWord : IsWord (codes "a=b c")
unfolding is_space
url_IsWord = record {
  no_newline = (refl, (refl, (refl, (refl, (refl, tt)))));
  no_return = (refl, (refl, (refl, (refl, (refl, tt)))));
  starts = refl;
  ends = refl;
}

ip_not_url : codes "url" ≢ codes "ip"
ip_not_url e = ground arith

entries-AreDistinct : AreDistinct entries
entries-AreDistinct = ((ip_not_url, tt), (tt, tt))

abbrev a_file : FileStore
a_file = record { path = codes "/etc/p"; delim = b'>' }

abbrev payload : KvPayload
payload = record { node = dict entries; delim = b'>'; keys = [] }

properties_load-dump_example :
    (q : KvPayload) × ((Properties.dump show a_file payload []).0 ≡ ok tt)
    × (Properties.load a_file (Properties.dump show a_file payload []).1 ≡ ok q)
    × (q.node ≡ dict entries)
properties_load-dump_example =
    properties_load-dump show (λ s. refl) a_file payload entries [] refl
      (ip_IsName, ip_IsWord, (url_IsName, url_IsWord, tt)) entries-AreDistinct
