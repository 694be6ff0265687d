-- ===== src/Logs/Laws.antt =====
-- How much is copied, and what of it.
use cortx_utils.Base.{
  ℕ, zero, suc, Text, false, Option, none, some, List, [], ◌∷◌, ◌-◌, ◌+◌, ◌≤◌, leb, starts_with,
  Assoc, store, ◌==◌, ◌≡◌, arith, Bool-cases, inl, inr,
}
use cortx_utils.Logs.{Entry, length, drop, files_of, sort, truncate, keep, without_star, limit_size}

-- The size of all files of a directory.
abbrev pub total : Assoc Text → ℕ
total [] = 0
total ((k, t) ∷ m) = length t + total m

total-store : (k t : Text) (m : Assoc Text) → total (store k t m) ≤ length t + total m
unfolding store
total-store k t [] = omega arith
total-store k t ((j, u) ∷ m) = elim (Bool-cases (j == k)) [
  | inl same ↦ rw same (omega arith)
  | inr other ↦ rw other (ground (arith, total-store k t m))
]

length-drop : (n : ℕ) (s : Text) → n ≤ length s → length (drop n s) ≡ length s - n
length-drop zero s h = omega arith
length-drop (suc n) [] h = absurd (omega arith)
length-drop (suc n) (c ∷ s) h = ground (arith, length-drop n s)

truncate-total :
    (f : Entry) (required : ℕ) (dest : Assoc Text)
    → leb (length f.bytes) required ≡ false
    → total (truncate f required dest) ≤ required + total dest
unfolding truncate
truncate-total f required dest big = ground (
  arith,
  total-store f.name (drop (length f.bytes - required) f.bytes) dest,
  length-drop (length f.bytes - required) f.bytes,
)

keep-total :
    (prefix : Text) (fs : List Entry) (required : ℕ) (dest : Assoc Text)
    → total (keep prefix fs required dest) ≤ required + total dest
unfolding keep
keep-total prefix [] required dest = omega arith
keep-total prefix (f ∷ fs) required dest = elim (Bool-cases (starts_with f.name prefix)) [
  | inl named ↦ rw named (elim (Bool-cases (leb (length f.bytes) required)) [
    | inl fits ↦ rw fits (
        ground (
          arith,
          keep-total prefix fs (required - length f.bytes) (store f.name f.bytes dest),
          total-store f.name f.bytes dest,
        ))
    | inr big ↦ rw big (truncate-total f required dest big)
  ])
  | inr other ↦ rw other (keep-total prefix fs required dest)
]

-- `limit_size` adds to the destination no more bytes than the size that it is given, whatever the
-- source directory holds.
pub limit_size-total :
    (src : Option (List Entry)) (reg_ex : Text) (required : ℕ) (dest : Assoc Text)
    → total (limit_size src reg_ex required dest).1 ≤ required + total dest
unfolding limit_size
limit_size-total none reg_ex required dest = omega arith
limit_size-total (some src) reg_ex required dest =
    keep-total (without_star reg_ex) (sort (files_of src)) required dest
