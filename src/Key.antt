-- ===== src/Key.antt =====
-- Keys of `KvPayload` (py-utils/src/utils/kv_store/kv_payload.py): `key.split(delim, 1)`, the
-- index of a segment by `re.split(r'\[([0-9]+)\]', segment)`, and how keys are written.
pub mod Decimal
pub mod Shape
pub mod Words
use cortx_utils.Base.{
  ℕ, zero, suc, ◌++◌, codes, ◌/◌, ◌%◌, ◌+◌, ◌-◌, ◌*◌, Text, Bool, true, false, ◌&&◌, ◌||◌, Option,
  none, some, List, [], ◌∷◌, leb, ◌=ℕ◌, if◌then◌else◌,
}

-- The segments of a key: `split(delim, 1)` taken again and again on the part behind the delimiter.
-- There is always a first segment.
abbrev pub Segments : Type 0
Segments = Text × List Text

-- `key.split(delim, 1)`: the part before the first delimiter, and the part behind it if there is one.
unfoldable pub split_once : ℕ → Text → Text × Option Text
split_once d [] = ([], none)
split_once d (c ∷ s) = let (p, r) = split_once d s in if c =ℕ d then ([], some s) else (c ∷ p, r)

unfoldable pub split : ℕ → Text → Segments
split d [] = ([], [])
split d (c ∷ s) = let (p, ps) = split d s in if c =ℕ d then ([], p ∷ ps) else (c ∷ p, ps)

unfoldable pub is_digit : ℕ → Bool
is_digit c = leb b'0' c && leb c b'9'

-- `[0-9]*\]` from the number read so far; the rest stands behind the bracket.
unfoldable pub digits_bracket : ℕ → Text → Option (ℕ × Text)
unfolding is_digit
digits_bracket n [] = none
digits_bracket n (c ∷ s) =
    let more = digits_bracket (n * 10 + (c - b'0')) s in
    if is_digit c then more else if c =ℕ b']' then some (n, s) else none

-- `\[([0-9]+)\]` at the start of a text.
unfoldable pub match_index : Text → Option (ℕ × Text)
unfolding digits_bracket
match_index (c ∷ d ∷ s) = if c =ℕ b'[' && is_digit d then digits_bracket 0 (d ∷ s) else none
match_index _ = none

-- The leftmost match: the text before it, the number, and the text behind it.
unfoldable pub find_index : Text → Option (Text × ℕ × Text)
find_index [] = none
find_index (c ∷ s) = elim (match_index (c ∷ s)) [
  | some (n, r) ↦ some ([], n, r)
  | none ↦ elim (find_index s) [ none ↦ none | some (p, n, r) ↦ some (c ∷ p, n, r) ]
]

-- What `re.split` gives that the code reads: `ki[0]`, and if it matched, `int(ki[1])` and `ki[2]`,
-- the text up to the next match. `ki[1]` is of digits, so `isnumeric` always holds.
pub record Part : Type 0 where
  pub name : Text
  pub index : Option (ℕ × Text)

unfoldable pub before_index : Text → Text
before_index s = elim (find_index s) [ none ↦ s | some (p, n, r) ↦ p ]

unfoldable pub key_index_split : Text → Part
unfolding before_index
key_index_split s = elim (find_index s) [
  | none ↦ record { name = s; index = none }
  | some (p, n, r) ↦ record { name = p; index = some (n, before_index r) }
]

-- The characters that `str.strip` removes.
unfoldable pub is_space : ℕ → Bool
is_space c =
    (leb 9 c && leb c 13)
    || (leb 28 c && leb c 32)
    || c =ℕ 0x85
    || c =ℕ 0xa0
    || c =ℕ 0x1680
    || (leb 0x2000 c && leb c 0x200a)
    || c =ℕ 0x2028
    || c =ℕ 0x2029
    || c =ℕ 0x202f
    || c =ℕ 0x205f
    || c =ℕ 0x3000

-- `len(s.strip()) == 0`
unfoldable pub is_blank : Text → Bool
unfolding is_space
is_blank [] = true
is_blank (c ∷ s) = is_space c && is_blank s

unfoldable pub is_empty : Text → Bool
is_empty [] = true
is_empty (c ∷ s) = false

-- Decimal digits: each round divides by ten, so `suc n` rounds are enough for `n`.
unfoldable pub show_digits : ℕ → ℕ → Text → Text
show_digits zero n out = out
show_digits (suc f) n out = elim (n / 10 =ℕ 0) [
  | true ↦ (b'0' + n % 10) ∷ out
  | false ↦ show_digits f (n / 10) ((b'0' + n % 10) ∷ out)
]

-- `"%d" % n`
unfoldable pub show_nat : ℕ → Text
unfolding show_digits
show_nat n = show_digits (suc n) n []

-- `f"[{n}]"`
unfoldable pub index_suffix : ℕ → Text
index_suffix n = b'[' ∷ (show_nat n ++ (b']' ∷ []))

-- `"%s%s%s" % (pkey, delim, key)`, or the key alone where there is no parent.
unfoldable pub child_key : ℕ → Option Text → Text → Text
child_key d none key = key
child_key d (some pkey) key = pkey ++ (d ∷ key)

-- `"%s" % pkey`
unfoldable pub show_prefix : Option Text → Text
show_prefix none = codes "None"
show_prefix (some pkey) = pkey

-- `key.split(delim)[-1]`
last_of : Text → List Text → Text
last_of k [] = k
last_of k (k' ∷ ks) = last_of k' ks

unfoldable pub last_segment : ℕ → Text → Text
unfolding last_of
last_segment d key = let (k, ks) = split d key in last_of k ks
