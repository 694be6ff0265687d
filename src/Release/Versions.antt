-- ===== src/Release/Versions.antt =====
-- How `Release` (py-utils/src/utils/schema/release.py) compares versions, and reads them in the
-- names of packages. Digits are those of ASCII.
pub mod Laws
use cortx_utils.Base.{
  ℕ, Text, codes, Bool, true, false, List, [], ◌∷◌, ◌++◌, ◌-◌, ltb, ◌==◌, if◌then◌else◌, Result, ok,
  err, exception, index_error, type_error, ◌>>=◌, Option, none, some,
}
use cortx_utils.Key.{split, is_digit}
use cortx_utils.Key.Words.{before}
use cortx_utils.Value.{Value, str, ℤ, pos, negsuc, Items, nil, cons}
use cortx_utils.Value.Access.{elements, is_in, is_infix}

-- `_get_digits`
unfoldable pub get_digits : Text → List ℕ
get_digits [] = []
get_digits (c ∷ s) = if is_digit c then (c - b'0') ∷ get_digits s else get_digits s

-- The loop of `version_check` over `zip_longest`, where -1 stands in for what is missing.
unfoldable pub compare_digits : List ℕ → List ℕ → ℤ
compare_digits [] [] = pos 0
compare_digits [] (b ∷ bs) = negsuc 0
compare_digits (a ∷ ds) [] = pos 1
compare_digits (a ∷ ds) (b ∷ bs) =
    let rest = compare_digits ds bs in if ltb a b then negsuc 0 else if ltb b a then pos 1 else rest

unfoldable pub version_check : Text → Text → ℤ
version_check deploy_version release_version =
    if deploy_version == release_version
    then pos 0
    else compare_digits (get_digits deploy_version) (get_digits release_version)

-- The elements of a name that begin with a digit; an empty one is an `IndexError`.
unfoldable pub numbered : Text → List Text → Result (List Text)
numbered [] parts = err index_error
numbered (c ∷ s) [] = ok (if is_digit c then (c ∷ s) ∷ [] else [])
numbered (c ∷ s) (p ∷ ps) =
    numbered p ps >>= λ found. ok (if is_digit c then (c ∷ s) ∷ found else found)

-- The suffix of a package is cut off.
unfoldable pub cut_suffix : Text → Text
cut_suffix t =
    if is_infix (codes ".el7") t
    then before (codes ".el7") t
    else if is_infix (codes "_el7") t
    then before (codes "_el7") t
    else if is_infix (codes ".noarch") t
    then before (codes ".noarch") t
    else if is_infix (codes ".x86_64") t
    then before (codes ".x86_64") t
    else t

unfoldable pub first_two : List Text → Result Text
first_two (v ∷ build ∷ rest) = ok (v ++ (b'-' ∷ cut_suffix build))
first_two _ = err index_error

-- `except IndexError`
abbrev pub index_to_exception : {A : Type 0} → Result A → Result A
index_to_exception (err index_error) = err exception
index_to_exception r = r

-- `_get_rpm_version`
unfoldable pub get_rpm_version : Text → Result Text
get_rpm_version rpm_name =
    let (p, ps) = split b'-' rpm_name in index_to_exception (numbered p ps >>= first_two)

-- The first of some packages with the component in its name.
unfoldable pub first_with : Text → Items → Result (Option Value)
first_with component nil = ok none
first_with component (cons x xs) =
    let rest = first_with component xs in
    is_in (str component) x >>= λ found. if found then (rest >>= λ r. ok (some x)) else rest

-- `_get_rpm_from_list`: every element is looked at before the first match is taken.
unfoldable pub get_rpm_from_list : Text → Value → Result Value
get_rpm_from_list component search_list = elements search_list >>= first_with component >>= λ o.
    elim o [ none ↦ err exception | some x ↦ ok x ]

-- The loop that cuts the version at an underscore: one round is enough, since what stands before
-- the first one has none.
unfoldable pub without_hash : Text → Text
without_hash version = (split b'_' version).0
