-- ===== src/MessageBus/Servers/Laws.antt =====
-- What becomes of several endpoints.
use cortx_utils.Base.{
  ℕ, zero, suc, ◌+◌, Text, List, [], ◌∷◌, ◌++◌, Option, none, some, Result, ok, err, bus_error,
  einval, ◌≡◌, refl, ap, sym, ◌∙◌, Result-cases, inl, inr, arith,
}
use cortx_utils.MessageBus.Servers.{Server, read_server, references, collect, get_server_list}

-- The number of the endpoints.
abbrev pub length : List Text → ℕ
length [] = 0
length (s ∷ ss) = suc (length ss)

-- So many copies of a server.
abbrev pub replicate : ℕ → Server → List Server
replicate zero info = []
replicate (suc n) info = info ∷ replicate n info

references-replicate : (n : ℕ) (info : Server) → references n (some info) ≡ replicate n info
unfolding references
references-replicate zero info = refl
references-replicate (suc n) info = ap (λ xs. info ∷ xs) (references-replicate n info)

collect-last :
    (ss : List Text) (s : Text) (before : Option Server) (n : ℕ) (info : Server)
    (servers : List Server)
    → read_server s ≡ ok info
    → collect (ss ++ s ∷ []) before n ≡ ok servers
    → servers ≡ replicate (length ss + suc n) info
unfolding collect
collect-last [] s before n info servers read h =
    let run : collect (s ∷ []) before n ≡ ok (references (suc n) (some info)) =
      rw (collect, read) refl in
    let same : Result.ok servers ≡ ok (references (suc n) (some info)) = sym h ∙ run in
    let whole : servers ≡ references (suc n) (some info) = cc in
    let count : suc n ≡ 0 + suc n = omega arith in
    whole ∙ references-replicate (suc n) info ∙ ap (λ k. replicate k info) count
collect-last (t ∷ ss) s before n info servers read h = elim (Result-cases (read_server t)) [
  | inl (next, found) ↦
      let run : collect (t ∷ ss ++ s ∷ []) before n ≡ collect (ss ++ s ∷ []) (some next) (suc n) =
        rw (collect, found) refl in
      let count : length ss + suc (suc n) ≡ suc (length ss) + suc n = omega arith in
      collect-last ss s (some next) (suc n) info servers read (sym run ∙ h)
      ∙ ap (λ k. replicate k info) count
  | inr (e, raised) ↦
      let run : collect (t ∷ ss ++ s ∷ []) before n ≡ err (bus_error einval) =
        rw (collect, raised) refl in
      let bad : Result.err (bus_error einval) ≡ ok servers = sym run ∙ h in absurd cc
]

-- A list of endpoints that is accepted gives the last of them over again, once for each: the dict
-- that the loop fills is the same one in every round.
pub get_server_list_repeats :
    (ss : List Text) (s : Text) (info : Server) (servers : List Server)
    → read_server s ≡ ok info
    → get_server_list (ss ++ s ∷ []) ≡ ok servers
    → servers ≡ replicate (length ss + 1) info
unfolding get_server_list
get_server_list_repeats ss s info servers read h = collect-last ss s none 0 info servers read h
