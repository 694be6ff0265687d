-- ===== src/Release/Compatible.antt =====
-- `Release.is_version_compatible` (py-utils/src/utils/schema/release.py) and the checks of its rules;
-- the reason that comes with the answer is left out.
pub mod Digits
pub mod Laws
use cortx_utils.Base.{
  ℕ, zero, suc, Text, codes, Bool, true, false, List, [], ◌∷◌, ◌==◌, ◌=ℕ◌, if◌then◌else◌, Result,
  ok, err, setup_error, einval, internal_error, key_error, attribute_error, index_error,
  not_implemented, ◌>>=◌, Option, none, some, Assoc, find,
}
use cortx_utils.Base.Exec
use cortx_utils.Base.Exec.{Exec}
use cortx_utils.Key.Words.{split_two, strip}
use cortx_utils.Value.{Value, str, ℤ, pos, negsuc, Items, nil, cons}
use cortx_utils.Value.Access.{elements}
use cortx_utils.Value.Compare.{value_eq}
use cortx_utils.KvStore.{Backend}
use cortx_utils.Conf.{State}
use cortx_utils.Release.Versions.{version_check, get_digits, compare_digits}
use cortx_utils.Release.Installed.{Versions, count, get_installed_version, read_nat}

abbrev pub component_name_map : Assoc Text
component_name_map =
    (codes "CORTX", codes "CORTX")
    ∷ (codes "cortx-motr", codes "motr")
    ∷ (codes "cortx-rgw", codes "rgw")
    ∷ (codes "cortx-hare", codes "hare")
    ∷ (codes "cortx-py-utils", codes "utils")
    ∷ (codes "cortx-csm_agent", codes "csm")
    ∷ (codes "cortx-ha", codes "ha")
    ∷ (codes "cortx-prvsnr", codes "prvsnr")
    ∷ []

-- `clause.split('>=')[0].strip()`
unfoldable pub clause_name : Text → Text
clause_name clause = strip (split_two b'>' b'=' clause).0

-- `_validate_clauses`: the test of the operator asks for at least one part, and there always is one.
unfoldable pub validate_clauses : List Text → Bool
validate_clauses [] = true
validate_clauses (clause ∷ clauses) = elim (find (clause_name clause) component_name_map) [
  | none ↦ false
  | some name ↦ validate_clauses clauses
]

-- `_parse_version` for an upgrade: what stands behind `>=`, and before `<=` if that follows.
unfoldable pub parse_version : Text → Result (Text × Text)
parse_version clause = elim (split_two b'>' b'=' clause).1 [
  | [] ↦ err index_error
  | r ∷ rest ↦ ok (clause_name clause, strip (split_two b'<' b'=' r).0)
]

-- `const.COMPONENT_NAME_MAP[name]`
unfoldable pub mapped_name : Text → Result Text
mapped_name name = elim (find name component_name_map) [ none ↦ err key_error | some n ↦ ok n ]

-- `_get_digits` of the elements of a version that is no text: `isdigit` and `int` of each, which is
-- to be a text.
unfoldable pub item_digits : Items → Result (List ℕ)
item_digits nil = ok []
item_digits (cons (str s) xs) =
    item_digits xs >>= λ rest. elim (read_nat s) [ none ↦ ok rest | some n ↦ ok (n ∷ rest) ]
item_digits (cons _ xs) = err attribute_error

-- `version_check` of an installed version; one that is no text is not equal to the other version.
unfoldable pub check_installed : Value → Text → Result ℤ
check_installed (str s) new_version = ok (version_check s new_version)
check_installed version new_version = elements version >>= item_digits >>= λ digits.
    ok (compare_digits digits (get_digits new_version))

abbrev pub is_older : ℤ → Bool
is_older (negsuc zero) = true
is_older _ = false

-- The loop over the rules for one component: whether the first rule on it is met, if there is one.
unfoldable pub check_component : List Text → Value → Value → Result (Option Bool)
check_component [] component version = ok none
check_component (clause ∷ clauses) component version = do
  let rest = check_component clauses component version
  (name, new_version) ← parse_version clause
  target ← mapped_name name
  if value_eq component (str target)
      then (check_installed version new_version >>= λ answer.
          ok (some (if is_older answer then false else true)))
      else rest

abbrev pub one_more : Option ℕ → Option ℕ
one_more none = none
one_more (some n) = some (suc n)

-- `validation_count += 1`, or the answer `False`.
unfoldable pub tally : Option Bool → Result (Option ℕ) → Result (Option ℕ)
tally none others = others
tally (some false) others = ok none
tally (some true) others = others >>= λ o. ok (one_more o)

-- The loop over the components: how many of them have a rule, or `none` at the first that is older
-- than its rule asks for.
unfoldable pub check_all : List Text → Versions → Result (Option ℕ)
check_all clauses [] = ok (some 0)
check_all clauses ((component, version) ∷ rest) = do
  let others = check_all clauses rest
  met ← check_component clauses component version
  tally met others

-- What follows once the installed versions are known.
unfoldable pub check_versions : List Text → Versions → Result Bool
check_versions clauses versions = check_all clauses versions >>= λ o. elim o [
  | none ↦ ok false
  | some n ↦ if n =ℕ count versions then ok true else err (setup_error einval)
]

abbrev pub check_some : List Text → Option Versions → Result Bool
check_some clauses none = err (setup_error internal_error)
check_some clauses (some versions) = check_versions clauses versions

module _ (B : Backend) (show : Value → Text) (conf_url : Text) where
  unfoldable pub is_version_compatible : Text → Value → List Text → Exec (State B) Bool
  is_version_compatible resource_type resource_id version_clauses =
      if resource_type == codes "cluster"
      then Exec.raise not_implemented
      else if validate_clauses version_clauses
      then Exec.◌>>=◌ (get_installed_version B show resource_id conf_url)
          (λ found. Exec.lift (check_some version_clauses found))
      else Exec.raise (setup_error einval)
