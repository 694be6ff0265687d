-- ===== src/Release/Installed.antt =====
-- `Release.get_installed_version` and `_get_node_list` (py-utils/src/utils/schema/release.py), which
-- read the cluster's configuration through `MappedConf`.
use cortx_utils.Base.{
  ℕ, zero, suc, Text, codes, true, false, List, [], ◌∷◌, ◌++◌, ◌+◌, ◌*◌, ◌-◌, ltb, ◌=ℕ◌,
  if◌then◌else◌, Result, ok, err, setup_error, einval, internal_error, type_error, value_error,
  ◌>>=◌, Option, none, some,
}
use cortx_utils.Base.Exec
use cortx_utils.Base.Exec.{Exec}
use cortx_utils.Key.{is_digit, show_nat}
use cortx_utils.Key.Words.{strip}
use cortx_utils.Value.{Value, null, bool, int, str, list, dict, ℤ, pos, negsuc}
use cortx_utils.Value.Compare.{value_eq}
use cortx_utils.KvStore.{Backend}
use cortx_utils.Conf.{State}
use cortx_utils.Conf.Mapped

-- A dict with any keys: a write of a key that is there keeps its place.
abbrev pub Versions : Type 0
Versions = List (Value × Value)

unfoldable pub store_version : Value → Value → Versions → Versions
store_version k v [] = (k, v) ∷ []
store_version k v ((j, w) ∷ m) = if value_eq j k then (j, v) ∷ m else (j, w) ∷ store_version k v m

-- Lists and dicts are no keys.
unfoldable pub set_version : Value → Value → Versions → Result Versions
set_version (list xs) v m = err type_error
set_version (dict fs) v m = err type_error
set_version k v m = ok (store_version k v m)

abbrev pub count : Versions → ℕ
count [] = 0
count (v ∷ vs) = suc (count vs)

-- The digits of a number, at least one, up to the end.
unfoldable pub read_digits : ℕ → Text → Option ℕ
read_digits n [] = some n
read_digits n (c ∷ s) =
    let rest = read_digits (n * 10 + (c - b'0')) s in if is_digit c then rest else none

unfoldable pub read_nat : Text → Option ℕ
read_nat [] = none
read_nat (c ∷ s) = read_digits 0 (c ∷ s)

abbrev pub minus : ℕ → ℤ
minus zero = pos 0
minus (suc n) = negsuc n

unfoldable pub read_int : Text → Option ℤ
read_int [] = none
read_int (c ∷ s) =
    if c =ℕ b'-'
    then elim (read_nat s) [ none ↦ none | some n ↦ some (minus n) ]
    else elim (read_nat (if c =ℕ b'+' then s else c ∷ s)) [ none ↦ none | some n ↦ some (pos n) ]

-- `int(v)`; digits are those of ASCII, without underscores.
unfoldable pub to_int : Value → Result ℤ
to_int (int n) = ok n
to_int (bool true) = ok (pos 1)
to_int (bool false) = ok (pos 0)
to_int (str s) = elim (read_int (strip s)) [ none ↦ err value_error | some n ↦ ok n ]
to_int _ = err type_error

-- How often `range(0, n)` runs.
abbrev pub turns : ℤ → ℕ
turns (pos n) = n
turns (negsuc n) = 0

abbrev pub node_id_key : ℕ → ℕ → Text
node_id_key i j =
    codes "cluster>storage_set[" ++ show_nat i ++ codes "]>nodes[" ++ show_nat j ++ codes "]"

abbrev pub num_nodes_key : ℕ → Text
num_nodes_key i = codes "cluster>storage_set[" ++ show_nat i ++ codes "]>num_nodes"

module _ (get : Text → Result Value) where
  -- The loop over the nodes of a storage set, from the node `j`.
  unfoldable pub nodes_of_set : ℕ → ℕ → ℕ → Result (List Value)
  nodes_of_set i j zero = ok []
  nodes_of_set i j (suc n) = do
    node ← get (node_id_key i j)
    rest ← nodes_of_set i (suc j) n
    ok (node ∷ rest)

  -- The loop over the storage sets, from the set `i`.
  unfoldable pub nodes_of_sets : ℕ → ℕ → Result (List Value)
  nodes_of_sets i zero = ok []
  nodes_of_sets i (suc n) = do
    num ← get (num_nodes_key i)
    num_nodes ← to_int num
    nodes ← nodes_of_set i 0 (turns num_nodes)
    rest ← nodes_of_sets (suc i) n
    ok (nodes ++ rest)

  -- `_get_node_list`
  unfoldable pub get_node_list : Result (List Value)
  get_node_list = do
    num ← get (codes "cluster>num_storage_set")
    num_storage_set ← to_int num
    nodes_of_sets 0 (turns num_storage_set)

  module _ (show : Value → Text) where
    abbrev pub node_name_key : Value → Text
    node_name_key node = codes "node>" ++ show node ++ codes ">name"

    abbrev pub num_components_key : Value → Text
    num_components_key node = codes "node>" ++ show node ++ codes ">num_components"

    abbrev pub component_key : Value → ℕ → Text → Text
    component_key node i name =
        codes "node>" ++ show node ++ codes ">components[" ++ show_nat i ++ codes "]>" ++ name

    -- The last node of the given name, or `None`.
    unfoldable pub node_named : Value → List Value → Value → Result Value
    node_named resource_id [] node_id = ok node_id
    node_named resource_id (node ∷ nodes) node_id = do
      name ← get (node_name_key node)
      node_named resource_id nodes (if value_eq resource_id name then node else node_id)

    -- The loop over the components, from the component `i`.
    unfoldable pub components_of : Value → ℕ → ℕ → Versions → Result Versions
    components_of node i zero m = ok m
    components_of node i (suc n) m = do
      name ← get (component_key node i (codes "name"))
      version ← get (component_key node i (codes "version"))
      m' ← elim version [ null ↦ err (setup_error internal_error) | v ↦ set_version name v m ]
      components_of node (suc i) n m'

    -- What is read of the node and of the cluster.
    unfoldable pub versions_of : Value → Result Versions
    versions_of node_id = do
      num ← get (num_components_key node_id)
      num_components ← to_int num
      m ← components_of node_id 0 (turns num_components) []
      release_name ← get (codes "cortx>common>release>name")
      release_version ← get (codes "cortx>common>release>version")
      set_version release_name release_version m

    -- `get_installed_version`, once the configuration is loaded; `0` is `none`.
    unfoldable pub installed : Value → Result (Option Versions)
    installed resource_id = do
      nodes ← get_node_list
      node_id ← node_named resource_id nodes null
      m ← elim node_id [ null ↦ err (setup_error einval) | node ↦ versions_of node ]
      ok (if ltb 1 (count m) then some m else none)

module _ (B : Backend) (show : Value → Text) where
  unfoldable pub get_installed_version : Value → Text → Exec (State B) (Option Versions)
  get_installed_version resource_id conf_url =
      Exec.◌>>=◌ (Mapped.init B conf_url)
        λ _ s. (installed (λ key. (Mapped.get B key null s).0) show resource_id, s)
