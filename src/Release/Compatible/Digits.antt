-- ===== src/Release/Compatible/Digits.antt =====
-- What is compared of an installed version: its digits, in the order of dictionaries.
use cortx_utils.Base.{
  ℕ, Text, List, [], ◌∷◌, ◌==◌, ◌≡◌, ◌≢◌, refl, sym, ◌∙◌, ◌<◌, ◌-◌, ◌+◌, ltb, eq_iff, ◌>>=◌, ◌⊎◌,
  arith, ok, none, some, inl, inr, Result-cases, Option-cases, Bool-cases,
}
use cortx_utils.Value.{Value, str, list, dict, Fields, Items, nil, cons, ℤ, negsuc}
use cortx_utils.Value.Access.{elements, dict_keys}
use cortx_utils.Value.Order.Laws.{LexLe}
use cortx_utils.Key.{is_digit}
use cortx_utils.Release.Versions.{version_check, get_digits, compare_digits}
use cortx_utils.Release.Installed.{read_nat}
use cortx_utils.Release.Compatible.{item_digits, check_installed}

-- The digits of a text, in their order.
pub data DigitsOf : Text → List ℕ → Type 0 where
  end : DigitsOf [] []
  digit :
      (c d : ℕ) (s : Text) (ds : List ℕ)
      → c ≡ b'0' + d
      → d < 10
      → DigitsOf s ds
      → DigitsOf (c ∷ s) (d ∷ ds)
  passed :
      (c : ℕ) (s : Text) (ds : List ℕ)
      → (c < b'0') ⊎ (b'9' < c)
      → DigitsOf s ds
      → DigitsOf (c ∷ s) ds

-- The numbers among some texts.
pub data NumbersOf : Items → List ℕ → Type 0 where
  end : NumbersOf nil []
  number :
      (s : Text) (n : ℕ) (xs : Items) (ns : List ℕ)
      → read_nat s ≡ some n
      → NumbersOf xs ns
      → NumbersOf (cons (str s) xs) (n ∷ ns)
  skipped :
      (s : Text) (xs : Items) (ns : List ℕ)
      → read_nat s ≡ none
      → NumbersOf xs ns
      → NumbersOf (cons (str s) xs) ns

-- What is compared of a version: the digits of a text, or the numbers among the elements of a list
-- or the names of a dict.
pub data VersionDigits : Value → List ℕ → Type 0 where
  of_text : (s : Text) (ds : List ℕ) → DigitsOf s ds → VersionDigits (str s) ds
  of_list : (xs : Items) (ns : List ℕ) → NumbersOf xs ns → VersionDigits (list xs) ns
  of_dict : (fs : Fields) (ns : List ℕ) → NumbersOf (dict_keys fs) ns → VersionDigits (dict fs) ns

pub get_digits-DigitsOf : (s : Text) → DigitsOf s (get_digits s)
unfolding get_digits is_digit
get_digits-DigitsOf [] = DigitsOf.end
get_digits-DigitsOf (c ∷ s) = elim (Bool-cases (is_digit c)) [
  | inl is ↦ rw is (
      DigitsOf.digit c (c - b'0') s (get_digits s) (ground arith) (ground arith)
        (get_digits-DigitsOf s))
  | inr isnt ↦ rw isnt (DigitsOf.passed c s (get_digits s) (ground arith) (get_digits-DigitsOf s))
]

item_digits-NumbersOf : (xs : Items) (ns : List ℕ) → item_digits xs ≡ ok ns → NumbersOf xs ns
unfolding item_digits
item_digits-NumbersOf nil ns h = let same : ns ≡ [] = cc in rw same NumbersOf.end
item_digits-NumbersOf (cons (str s) xs) ns h = elim (Result-cases (item_digits xs)) [
  | inr (e, raised) ↦ absurd (ground arith)
  | inl (rest, read) ↦
      let later = item_digits-NumbersOf xs rest read in
      elim (Option-cases (read_nat s)) [
        | inl no_number ↦
            let same : ns ≡ rest = ground arith in
            rw same (NumbersOf.skipped s xs rest no_number later)
        | inr (n, is) ↦
            let same : ns ≡ n ∷ rest = ground arith in
            rw same (NumbersOf.number s n xs rest is later)
      ]
]
item_digits-NumbersOf (cons _ xs) ns h = absurd cc

LexLe-refl : (ds : List ℕ) → LexLe ds ds
LexLe-refl [] = LexLe.begins []
LexLe-refl (d ∷ ds) = LexLe.alike d ds ds (LexLe-refl ds)

compare_digits-LexLe : (ds ms : List ℕ) → compare_digits ds ms ≢ negsuc 0 → LexLe ms ds
unfolding compare_digits
compare_digits-LexLe ds [] h = LexLe.begins ds
compare_digits-LexLe [] (m ∷ ms) h = absurd (h refl)
compare_digits-LexLe (d ∷ ds) (m ∷ ms) h = elim (Bool-cases (ltb d m)) [
  | inl less ↦ absurd (h (rw less refl))
  | inr geq ↦ elim (Bool-cases (ltb m d)) [
    | inl more ↦ LexLe.below m d ms ds (ground arith)
    | inr leq ↦
        let same : d ≡ m = ground arith in
        rw same (LexLe.alike m ms ds (compare_digits-LexLe ds ms (rw leq at (rw geq at h))))
  ]
]

version_check-LexLe :
    (s t : Text) → version_check s t ≢ negsuc 0 → LexLe (get_digits t) (get_digits s)
unfolding version_check
version_check-LexLe s t h = elim (Bool-cases (s == t)) [
  | inl same ↦ rw ((eq_iff s t).0 same) (LexLe-refl (get_digits t))
  | inr apart ↦ compare_digits-LexLe (get_digits s) (get_digits t) (rw apart at h)
]

elements_checked :
    (xs : Items) (new_version : Text) (answer : ℤ)
    → (item_digits xs >>= λ digits. ok (compare_digits digits (get_digits new_version))) ≡ ok answer
    → answer ≢ negsuc 0
    → (ns : List ℕ) × NumbersOf xs ns × LexLe (get_digits new_version) ns
elements_checked xs new_version answer h not_older = elim (Result-cases (item_digits xs)) [
  | inl (ns, read) ↦
      let run : compare_digits ns (get_digits new_version) ≡ answer =
        let run' = rw (read, ◌>>=◌) at h in cc in
      (
        ns,
        item_digits-NumbersOf xs ns read,
        compare_digits-LexLe ns (get_digits new_version) (λ e. not_older (sym run ∙ e)),
      )
  | inr (e, raised) ↦ absurd (let run' = rw (raised, ◌>>=◌) at h in cc)
]

pub installed_digits :
    (version : Value) (new_version : Text) (answer : ℤ)
    → check_installed version new_version ≡ ok answer
    → answer ≢ negsuc 0
    → (ds : List ℕ) × VersionDigits version ds × LexLe (get_digits new_version) ds
unfolding check_installed elements
installed_digits (str s) new_version answer h not_older = (
  get_digits s,
  VersionDigits.of_text s _ (get_digits-DigitsOf s),
  version_check-LexLe s new_version (λ e. not_older cc),
)
installed_digits (list xs) new_version answer h not_older =
    let (ns, are, le) = elements_checked xs new_version answer h not_older in
    (ns, VersionDigits.of_list xs ns are, le)
installed_digits (dict fs) new_version answer h not_older =
    let (ns, are, le) = elements_checked (dict_keys fs) new_version answer h not_older in
    (ns, VersionDigits.of_dict fs ns are, le)
installed_digits _ new_version answer h not_older = absurd cc
