-- ===== src/Release/Compatible/Laws.antt =====
-- What the answer `True` of `is_version_compatible` says.
use cortx_utils.Base.{
  ℕ, zero, suc, Text, codes, Bool, true, false, List, [], ◌∷◌, ◌==◌, ◌=ℕ◌, =ℕ_iff, ◌≡◌, ◌≢◌, refl,
  sym, ap, ◌∙◌, ◌≤◌, ◌<◌, ◌-◌, ◌+◌, ltb, eq_iff, ◌>>=◌, find, ◌⊎◌, arith, if◌then◌else◌, Result, ok,
  err, Option, none, some, inl, inr, Result-cases, Option-cases, Bool-cases,
}
use cortx_utils.Base
use cortx_utils.Base.Exec.{continue}
use cortx_utils.Value.{Value, str, ℤ, pos, negsuc}
use cortx_utils.Value.Order.Laws.{LexLe}
use cortx_utils.Value.Compare.{value_eq}
use cortx_utils.Value.Compare.Laws.{value_eq-str}
use cortx_utils.KvStore.{Backend}
use cortx_utils.Conf.{State}
use cortx_utils.Release.Versions.{get_digits}
use cortx_utils.Release.Installed.{Versions, count, get_installed_version}
use cortx_utils.Release.Compatible.Digits.{
  DigitsOf, VersionDigits, get_digits-DigitsOf, installed_digits,
}
use cortx_utils.Release.Compatible.{
  component_name_map, parse_version, tally, mapped_name, check_installed, is_older, check_component,
  check_all, check_versions, validate_clauses, is_version_compatible,
}

-- One of the rules names the component, and in the order of dictionaries the digits of the version
-- that it asks for are at most those of the component's version.
pub data IsMet (component version : Value) : List Text → Type 0 where
  here :
      (clause name new_version target : Text) (clauses : List Text) (asked installed : List ℕ)
      → parse_version clause ≡ ok (name, new_version)
      → find name component_name_map ≡ some target
      → component ≡ str target
      → DigitsOf new_version asked
      → VersionDigits version installed
      → LexLe asked installed
      → IsMet component version (clause ∷ clauses)
  there :
      (clause : Text) (clauses : List Text)
      → IsMet component version clauses
      → IsMet component version (clause ∷ clauses)

abbrev pub AreMet : List Text → Versions → Type 0
AreMet clauses [] = Unit
AreMet clauses ((component, version) ∷ rest) = IsMet component version clauses × AreMet clauses rest

not_older :
    (answer : ℤ)
    → Base.ok (some (if is_older answer then false else true)) ≡ ok (some true)
    → answer ≢ negsuc 0
not_older (negsuc zero) h = absurd cc
not_older (negsuc (suc n)) h = λ older. absurd (ground arith)
not_older (pos n) h = λ older. absurd cc

mapped_name-find :
    (name target : Text) → mapped_name name ≡ ok target → find name component_name_map ≡ some target
unfolding mapped_name
mapped_name-find name target h = elim (Option-cases (find name component_name_map)) [
  | inl missing ↦ absurd (ground arith)
  | inr (t, found) ↦ let same : t ≡ target = ground arith in rw found (ap some same)
]

check_component-IsMet :
    (clauses : List Text) (component version : Value)
    → check_component clauses component version ≡ ok (some true)
    → IsMet component version clauses
unfolding check_component
check_component-IsMet [] component version found = absurd cc
check_component-IsMet (clause ∷ clauses) component version found =
    elim (Result-cases (parse_version clause)) [
      | inl ((name, new_version), parsed) ↦ elim (Result-cases (mapped_name name)) [
        | inl (target, mapped) ↦
            let at_rule = rw (mapped, check_component) at (rw (parsed, check_component) at found) in
            elim (Bool-cases (value_eq component (str target))) [
              | inl same ↦ elim (Result-cases (check_installed version new_version)) [
                | inl (answer, checked) ↦
                    let answered = rw (checked, check_component) at (rw same at at_rule) in
                    let (ds, digits, le) =
                      installed_digits version new_version answer checked
                        (not_older answer answered) in
                    here clause name new_version target clauses (get_digits new_version) ds parsed
                      (mapped_name-find name target mapped) (value_eq-str component target same)
                      (get_digits-DigitsOf new_version) digits le
                | inr (e, raised) ↦ absurd (ground arith)
              ]
              | inr other ↦
                  there clause clauses
                    (check_component-IsMet clauses component version (rw other at at_rule))
            ]
        | inr (e, raised) ↦ absurd (ground arith)
      ]
      | inr (e, raised) ↦ absurd (ground arith)
    ]

-- How a count comes about.
tally_counts :
    (o : Option Bool) (others : Result (Option ℕ)) (n : ℕ)
    → tally o others ≡ ok (some n)
    → ((o ≡ none) × (others ≡ ok (some n)))
      ⊎ ((m : ℕ) × (o ≡ some true) × (others ≡ ok (some m)) × (n ≡ suc m))
unfolding tally
tally_counts none others n found = inl (refl, found)
tally_counts (some false) others n found = absurd cc
tally_counts (some true) (ok (some m)) n found = inr (m, refl, refl, cc)
tally_counts (some true) _ n found = absurd cc

-- No component is counted twice, and if each one is counted, each one has its rule met.
check_all-AreMet :
    (clauses : List Text) (versions : Versions) (n : ℕ)
    → check_all clauses versions ≡ ok (some n)
    → (n ≤ count versions) × (n ≡ count versions → AreMet clauses versions)
unfolding check_all
check_all-AreMet clauses [] n found = (ground arith, λ e. tt)
check_all-AreMet clauses ((c, v) ∷ rest) n found =
    elim (Result-cases (check_component clauses c v)) [
      | inl (o, checked) ↦
          elim (tally_counts o (check_all clauses rest) n (rw (checked, check_all) at found)) [
            | inl (none_, others) ↦
                let (few, _) = check_all-AreMet clauses rest n others in
                (omega arith, λ e. absurd (omega arith))
            | inr (m, met, others, more) ↦
                let (few, all) = check_all-AreMet clauses rest m others in
                (
                  omega arith,
                  λ e. (check_component-IsMet clauses c v (rw met at checked), all (omega arith)),
                )
          ]
      | inr (e, raised) ↦ absurd (ground arith)
    ]

check_versions-AreMet :
    (clauses : List Text) (versions : Versions)
    → check_versions clauses versions ≡ ok true
    → AreMet clauses versions
unfolding check_versions
check_versions-AreMet clauses versions found = elim (Result-cases (check_all clauses versions)) [
  | inl (none, counted) ↦ absurd (ground arith)
  | inl (some n, counted) ↦ (check_all-AreMet clauses versions n counted).1 (ground arith)
  | inr (e, raised) ↦ absurd (ground arith)
]

-- If `is_version_compatible` answers that the versions are compatible, then the installed versions
-- were read, and for each component, and for the release, one of the rules names it and asks for
-- a version whose digits, in the order of dictionaries, are at most those of the installed one.
pub is_version_compatible-AreMet :
    (B : Backend) (show : Value → Text) (conf_url resource_type : Text) (resource_id : Value)
    (clauses : List Text) (s : State B)
    → (is_version_compatible B show conf_url resource_type resource_id clauses s).0 ≡ ok true
    → (versions : Versions) × ((get_installed_version B show resource_id conf_url s).0
        ≡ ok (some versions))
      × AreMet clauses versions
unfolding is_version_compatible
is_version_compatible-AreMet B show conf_url resource_type resource_id clauses s answer =
    elim (Bool-cases (resource_type == codes "cluster")) [
      | inl cluster ↦ absurd (ground (arith, rw cluster at answer))
      | inr node ↦ elim (Bool-cases (validate_clauses clauses)) [
        | inl valid ↦
            let read = rw valid at (rw node at answer) in
            elim (Result-cases (get_installed_version B show resource_id conf_url s).0) [
              | inl (some versions, found) ↦ (
                versions,
                found,
                check_versions-AreMet clauses versions (rw (found, continue) at read),
              )
              | inl (none, found) ↦ absurd (ground (arith, rw (found, continue) at read))
              | inr (e, raised) ↦ absurd (ground (arith, rw (raised, continue) at read))
            ]
        | inr invalid ↦ absurd (ground (arith, rw invalid at (rw node at answer)))
      ]
    ]
