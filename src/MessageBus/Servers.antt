-- ===== src/MessageBus/Servers.antt =====
-- `MessageBrokerFactory.get_server_list` and `MessageBroker`
-- (py-utils/src/utils/message_bus/message_broker.py): what a list of endpoints says.
pub mod Laws
use cortx_utils.Base.{
  ℕ, zero, suc, Text, codes, List, [], ◌∷◌, ◌++◌, Bool, ◌||◌, false, ◌=ℕ◌, if◌then◌else◌, Option,
  none, some, Result, ok, err, index_error, value_error, bus_error, einval,
}
use cortx_utils.Key.Words.{split_two}

-- `server_info`
pub record Server : Type 0 where
  pub server : Text
  pub port : Text

-- `c in s`
unfoldable pub has_char : ℕ → Text → Bool
has_char c [] = false
has_char c (d ∷ s) = c =ℕ d || has_char c s

-- `s.split(c)`: the first part and the others.
unfoldable pub split_char : ℕ → Text → Text × List Text
split_char c [] = ([], [])
split_char c (d ∷ s) =
    let (part, parts) = split_char c s in if c =ℕ d then ([], part ∷ parts) else (d ∷ part, parts)

-- `server_fqdn, port = ...`
unfoldable pub pair_of : Text × List Text → Result Server
pair_of (fqdn, port ∷ []) = ok (record { server = fqdn; port = port })
pair_of (fqdn, _) = err value_error

-- `server.split('//')[1]`
unfoldable pub endpoint_of : Text × List Text → Result Server
endpoint_of (first, []) = err index_error
endpoint_of (first, second ∷ rest) = pair_of (split_char b':' second)

-- What the body of the loop stores in `server_info`.
unfoldable pub read_server : Text → Result Server
read_server s =
    if has_char b':' s
    then endpoint_of (split_two b'/' b'/' s)
    else ok (record { server = s; port = codes "9092" })

-- A list that holds one dict so many times.
unfoldable pub references : ℕ → Option Server → List Server
references zero info = []
references (suc n) none = []
references (suc n) (some info) = info ∷ references n (some info)

-- The loop, with `server_info`, of which there is but one, and the length of the list so far: each
-- round writes into the dict that the list already holds.
unfoldable pub collect : List Text → Option Server → ℕ → Result (List Server)
collect [] info n = ok (references n info)
collect (s ∷ ss) info n = elim (read_server s) [
  | ok next ↦ collect ss (some next) (suc n)
  | err e ↦ err (bus_error einval)
]

unfoldable pub get_server_list : List Text → Result (List Server)
get_server_list ss = collect ss none 0

-- `MessageBroker.__init__`: the servers, joined by commas.
unfoldable pub servers_text : List Server → Text
servers_text [] = []
servers_text (s ∷ []) = s.server ++ b':' ∷ s.port
servers_text (s ∷ t ∷ rest) = (s.server ++ b':' ∷ s.port) ++ b',' ∷ servers_text (t ∷ rest)
