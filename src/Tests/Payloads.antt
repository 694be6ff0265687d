-- ===== src/Tests/Payloads.antt =====
-- `KvPayload` at concrete data.
use cortx_utils.Base.{
  Text, true, false, codes, none, some, [], ◌≡◌, ◌≢◌, refl, arith, ok, err, kv_error, einval, ◌==◌,
}
use cortx_utils.Key.{split, key_index_split, find_index, match_index, is_blank, is_empty}
use cortx_utils.Value.{null, str}
use cortx_utils.Value.Dict.{lookup}
use cortx_utils.Payload.{get, set, delete}
use cortx_utils.Payload.Laws.{
  IsReadableKey, IsPlainKey, AreApart, get-set, get-set_apart, get-delete, delete-verdict,
  set_succeeds,
}
use cortx_utils.Payload.Read.{get_path}
use cortx_utils.Payload.Write.{set_path}
use cortx_utils.Payload.Write.Frame.{here, below}
use cortx_utils.Payload.Delete.{delete_path}
use cortx_utils.Payload.Delete.Gone.{last_index, IsGone}
use cortx_utils.Payload.Delete.Guard.{verdict}
use cortx_utils.Payload.Write.Success.{AreTextual}
use cortx_utils.Tests.Samples.{ports, site, sample}

abbrev last_port : Text
last_port = codes "net>ports[2]"

abbrev ip : Text
ip = codes "net>ip"

last_port_readable : IsReadableKey b'>' last_port
unfolding split key_index_split find_index match_index is_blank is_empty
last_port_readable = (refl, (refl, refl))

last_port_written : (set last_port (str (codes "22")) sample).0 ≡ ok tt
unfolding set split set_path key_index_split find_index match_index is_blank lookup ◌==◌
last_port_written = refl

get-set_example :
    get last_port true (set last_port (str (codes "22")) sample).1 ≡ ok (str (codes "22"))
get-set_example = get-set sample last_port (str (codes "22")) last_port_readable last_port_written

ip_plain : IsPlainKey b'>' ip
unfolding split key_index_split find_index match_index is_blank is_empty
ip_plain = (refl, refl, refl)

ip_apart : AreApart b'>' last_port ip
unfolding split key_index_split find_index match_index
ip_apart = below refl refl (here (λ e. cc))

get-set_apart_example : get ip true (set last_port (str (codes "22")) sample).1 ≡ get ip true sample
get-set_apart_example =
    get-set_apart sample last_port ip (str (codes "22")) ip_apart ip_plain last_port_written

first_port_readable : IsReadableKey b'>' (codes "net>ports[1]")
unfolding split key_index_split find_index match_index is_blank is_empty
first_port_readable = (refl, (refl, refl))

first_port_deleted : (delete (codes "net>ports[1]") false sample).0 ≡ ok true
unfolding delete split delete_path key_index_split find_index match_index lookup ◌==◌
first_port_deleted = refl

index_of_first_port :
    last_index (split b'>' (codes "net>ports[1]")).0 (split b'>' (codes "net>ports[1]")).1
    ≡ some (1, [])
unfolding split key_index_split find_index match_index
index_of_first_port = refl

get-delete_example :
    IsGone
      (last_index (split b'>' (codes "net>ports[1]")).0 (split b'>' (codes "net>ports[1]")).1)
      (get (codes "net>ports[1]") true (delete (codes "net>ports[1]") false sample).1)
get-delete_example =
    get-delete sample (codes "net>ports[1]") false first_port_readable first_port_deleted

ports_kept : (delete (codes "net>ports") false sample).0 ≡ err (kv_error einval)
unfolding delete split delete_path key_index_split find_index match_index lookup ◌==◌
ports_kept = refl

ports_refused : (delete (codes "net>ports") false sample).0 ≢ ok true
ports_refused e = ground (arith, ports_kept)

ports_bare : last_index (split b'>' (codes "net>ports")).0 (split b'>' (codes "net>ports")).1 ≡ none
unfolding split key_index_split find_index match_index
ports_bare = refl

ports_found : get (codes "net>ports") true sample ≡ ok ports
unfolding get split get_path key_index_split find_index match_index is_blank lookup ◌==◌
ports_found = refl

ports_not_null : ports ≢ null
ports_not_null e = cc

delete-verdict_example :
    ((delete (codes "net>ports") false sample).0 ≡ verdict ports false)
    × ((delete (codes "net>ports") false sample).0 ≢ ok true
        → (delete (codes "net>ports") false sample).1 ≡ sample)
delete-verdict_example =
    delete-verdict sample (codes "net>ports") false ports ports_bare ports_found ports_not_null

site_textual : AreTextual site
unfolding AreTextual
site_textual = ((tt, ((tt, (tt, tt)), tt)), (tt, tt))

set_succeeds_example : (set last_port (str (codes "22")) sample).0 ≡ ok tt
set_succeeds_example =
    set_succeeds sample last_port (str (codes "22")) site last_port_readable refl site_textual
