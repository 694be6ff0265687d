-- ===== src/Tests/Samples.antt =====
-- The data of the tests.
use cortx_utils.Base.{codes, []}
use cortx_utils.Value.{Value, str, list, dict, nil, cons, Fields, end, field}
use cortx_utils.Payload.{KvPayload}

abbrev pub ports : Value
ports = list (cons (str (codes "80")) (cons (str (codes "443")) nil))

abbrev pub net : Fields
net = field (codes "ip") (str (codes "::1")) (field (codes "ports") ports end)

abbrev pub site : Fields
site = field (codes "net") (dict net) (field (codes "name") (str (codes "a")) end)

abbrev pub sample : KvPayload
sample = record { node = dict site; delim = b'>'; keys = [] }

abbrev pub blank : KvPayload
blank = record { node = dict end; delim = b'>'; keys = [] }
