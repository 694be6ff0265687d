-- ===== src/Key/Shape.antt =====
-- How a key that was put together is taken apart: `split` at the delimiter, the index of a segment.
use cortx_utils.Base.{ℕ, Text, false, none, some, [], ◌∷◌, ◌++◌, ◌≡◌, refl, arith, ◌=ℕ◌, append-nil}
use cortx_utils.Key.{
  is_digit, match_index, find_index, before_index, key_index_split, split, index_suffix, show_nat,
}
use cortx_utils.Key.Decimal.{AreDigits, show_nat-AreDigits, match_index-suffix}

-- A text in which a character does not occur.
abbrev pub IsFree : ℕ → Text → Type 0
IsFree d [] = Unit
IsFree d (c ∷ s) = (c =ℕ d ≡ false) × IsFree d s

-- A character that cannot be taken for a part of an index.
abbrev pub IsDelim : ℕ → Type 0
IsDelim d = (is_digit d ≡ false) × (b'[' =ℕ d ≡ false) × (b']' =ℕ d ≡ false)

pub IsFree-append : (d : ℕ) (s t : Text) → IsFree d s → IsFree d t → IsFree d (s ++ t)
IsFree-append d [] t hs ht = ht
IsFree-append d (c ∷ s) t (h, hs) ht = (h, IsFree-append d s t hs ht)

digits-IsFree : (d : ℕ) (s : Text) → is_digit d ≡ false → AreDigits s → IsFree d s
unfolding is_digit
digits-IsFree d [] hd h = tt
digits-IsFree d (c ∷ s) hd (h, hs) = (ground arith, digits-IsFree d s hd hs)

pub index_suffix-IsFree : (d n : ℕ) → IsDelim d → IsFree d (index_suffix n)
unfolding index_suffix
index_suffix-IsFree d n (digit, left, right) = (
  left,
  IsFree-append d (show_nat n) _ (digits-IsFree d (show_nat n) digit (show_nat-AreDigits n))
      (right, tt),
)

pub split_free : (d : ℕ) (s : Text) → IsFree d s → split d s ≡ (s, [])
unfolding split
split_free d [] h = refl
split_free d (c ∷ s) (h, hs) = rw (split_free d s hs) (rw h)

pub split-append :
    (d : ℕ) (s rest : Text)
    → IsFree d s
    → split d (s ++ (d ∷ rest)) ≡ (s, (split d rest).0 ∷ (split d rest).1)
unfolding split
split-append d [] rest h = ground arith
split-append d (c ∷ s) rest (h, hs) = rw (split-append d s rest hs) (rw h)

match_index_free : (c : ℕ) (s : Text) → c =ℕ b'[' ≡ false → match_index (c ∷ s) ≡ none
unfolding match_index
match_index_free c [] h = refl
match_index_free c (e ∷ s) h = rw h

find_index_free : (s : Text) → IsFree b'[' s → find_index s ≡ none
unfolding find_index
find_index_free [] h = refl
find_index_free (c ∷ s) (h, hs) =
    rw (match_index_free c s h, find_index) (rw (find_index_free s hs, find_index))

find_index_matched :
    (c n : ℕ) (s rest : Text)
    → match_index (c ∷ s) ≡ some (n, rest)
    → find_index (c ∷ s) ≡ some ([], n, rest)
unfolding find_index
find_index_matched c n s rest e = rw (e, find_index)

find_index_suffix : (rest : Text) (n : ℕ) → find_index (index_suffix n ++ rest) ≡ some ([], n, rest)
unfolding index_suffix
find_index_suffix rest n = find_index_matched b'[' n _ rest (match_index-suffix n rest)

find_index-append :
    (s rest : Text) (n : ℕ)
    → IsFree b'[' s
    → find_index (s ++ (index_suffix n ++ rest)) ≡ some (s, n, rest)
unfolding find_index
find_index-append [] rest n h = find_index_suffix rest n
find_index-append (c ∷ s) rest n (h, hs) =
    rw (match_index_free c _ h, find_index) (rw (find_index-append s rest n hs, find_index))

-- A segment with no bracket has no index.
pub key_index_split_free :
    (s : Text) → IsFree b'[' s → key_index_split s ≡ record { name = s; index = none }
unfolding key_index_split
key_index_split_free s h = rw (find_index_free s h, key_index_split)

pub key_index_split-suffix :
    (s : Text) (n : ℕ)
    → IsFree b'[' s
    → key_index_split (s ++ index_suffix n) ≡ record { name = s; index = some (n, []) }
unfolding key_index_split
key_index_split-suffix s n h =
    let found = rw append-nil at (find_index-append s [] n h) in
    rw (found, key_index_split) (unfold before_index find_index in refl)
