-- ===== src/Key/Words.antt =====
-- Python's `strip`, and `split` at a separator of two characters.
use cortx_utils.Base.{ℕ, Text, List, [], ◌∷◌, ◌=ℕ◌, ◌+◌, leb, ◌&&◌, if◌then◌else◌, starts_with}
use cortx_utils.Key.{is_space}

-- `s.split(x)` for the two characters `x`: the first part and the others.
unfoldable pub split_two : ℕ → ℕ → Text → Text × List Text
split_two x y [] = ([], [])
split_two x y (c ∷ []) = (c ∷ [], [])
split_two x y (c ∷ d ∷ s) =
    let (part, parts) = split_two x y s in
    let (longer, others) = split_two x y (d ∷ s) in
    if c =ℕ x && d =ℕ y then ([], part ∷ parts) else (c ∷ longer, others)

unfoldable pub strip_left : Text → Text
unfolding is_space
strip_left [] = []
strip_left (c ∷ s) = if is_space c then strip_left s else c ∷ s

unfoldable pub strip_right : Text → Text
unfolding is_space
strip_right [] = []
strip_right (c ∷ s) = elim (strip_right s) [
  | [] ↦ if is_space c then [] else c ∷ []
  | d ∷ t ↦ c ∷ d ∷ t
]

-- `s.strip()`
unfoldable pub strip : Text → Text
strip s = strip_right (strip_left s)

-- `s.split(p)[0]`
unfoldable pub before : Text → Text → Text
before p [] = []
before p (c ∷ s) = if starts_with (c ∷ s) p then [] else c ∷ before p s

-- `s.lower()`, for the letters of ASCII.
unfoldable pub lower : Text → Text
lower [] = []
lower (c ∷ s) = (if leb b'A' c && leb c b'Z' then c + 32 else c) ∷ lower s
