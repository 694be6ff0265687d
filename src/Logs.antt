-- ===== src/Logs.antt =====
-- `FilterLog.limit_size` (py-utils/src/utils/support_framework/log_filters.py): the newest logs of a
-- directory, up to a size. A file is the list of its bytes; the size in bytes is an argument.
pub mod Laws
use cortx_utils.Base.{
  ℕ, zero, suc, Text, Bool, true, false, Option, none, some, List, [], ◌∷◌, ◌-◌, leb, ltb, ◌=ℕ◌,
  starts_with, if◌then◌else◌, Assoc, store, Result, ok, err, bundle_error, einval,
}
use cortx_utils.Base.Exec.{Exec}

-- An entry of the source directory, in the order of `os.listdir`.
pub record Entry : Type 0 where
  pub name : Text
  pub is_file : Bool
  pub mtime : ℕ
  pub bytes : Text

abbrev pub length : Text → ℕ
length [] = 0
length (c ∷ s) = suc (length s)

abbrev pub drop : ℕ → Text → Text
drop zero s = s
drop (suc n) [] = []
drop (suc n) (c ∷ s) = drop n s

-- The entries that are files.
unfoldable pub files_of : List Entry → List Entry
files_of [] = []
files_of (e ∷ es) = let rest = files_of es in if e.is_file then e ∷ rest else rest

-- `sorted` with `reverse=True` by the time of the last change: files of one time keep their order.
unfoldable pub insert : Entry → List Entry → List Entry
insert e [] = e ∷ []
insert e (f ∷ fs) = let rest = insert e fs in if ltb e.mtime f.mtime then f ∷ rest else e ∷ f ∷ fs

unfoldable pub sort : List Entry → List Entry
sort [] = []
sort (e ∷ es) = insert e (sort es)

-- `_truncate_file_size`: the end of the file, of the required size.
unfoldable pub truncate : Entry → ℕ → Assoc Text → Assoc Text
truncate f required dest = store f.name (drop (length f.bytes - required) f.bytes) dest

-- The loop, with the size that is left.
unfoldable pub keep : Text → List Entry → ℕ → Assoc Text → Assoc Text
keep prefix [] required dest = dest
keep prefix (f ∷ fs) required dest =
    let size = length f.bytes in
    let skipped = keep prefix fs required dest in
    let next = keep prefix fs (required - size) (store f.name f.bytes dest) in
    if starts_with f.name prefix
    then (if leb size required then next else truncate f required dest)
    else skipped

-- `file_name_reg_ex[:-1]` if it ends with a star.
unfoldable pub without_star : Text → Text
without_star [] = []
without_star (c ∷ []) = if c =ℕ b'*' then [] else c ∷ []
without_star (c ∷ d ∷ s) = c ∷ without_star (d ∷ s)

-- `limit_size`: the source directory may be missing; the destination is made if it is.
unfoldable pub limit_size : Option (List Entry) → Text → ℕ → Exec (Assoc Text) (Unit {0})
limit_size none reg_ex required dest = (err (bundle_error einval), dest)
limit_size (some src) reg_ex required dest =
    (ok tt, keep (without_star reg_ex) (sort (files_of src)) required dest)
