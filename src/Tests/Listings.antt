-- ===== src/Tests/Listings.antt =====
-- Keys and counts of concrete data.
use cortx_utils.Base.{true, codes, refl, arith, ◌==◌}
use cortx_utils.Key.{is_blank, is_digit}
use cortx_utils.Key.Shape.{IsDelim}
use cortx_utils.Value.{dict}
use cortx_utils.Value.Dict.{lookup}
use cortx_utils.Payload.{get_keys}
use cortx_utils.Payload.Enumerate.Readable.{AreNamed}
use cortx_utils.Payload.Enumerate.Listed.{AllLeafKeys}
use cortx_utils.Payload.Listing.{get_keys-AreRead}
use cortx_utils.Payload.Counts.Laws.{AreDistinct}
use cortx_utils.Tests.Samples.{net, site, sample}

delim : IsDelim b'>'
unfolding is_digit
delim = (refl, refl, refl)

named : AreNamed b'>' site
unfolding AreNamed is_blank lookup ◌==◌
named = ground arith

get_keys-AreRead_example : AllLeafKeys b'>' (dict site) (get_keys (codes "net") true sample)
get_keys-AreRead_example = get_keys-AreRead (codes "net") sample site delim refl named

net_distinct : AreDistinct net
unfolding lookup ◌==◌
net_distinct = (refl, (refl, tt))
