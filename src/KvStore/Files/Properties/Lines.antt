-- ===== src/KvStore/Files/Properties/Lines.antt =====
-- Lines that are stripped and split at their equals sign.
use cortx_utils.Base.{ℕ, Text, codes, false, some, [], ◌∷◌, ◌++◌, ◌≡◌, refl, arith}
use cortx_utils.Key.{split_once, is_space}
use cortx_utils.Key.Shape.{IsFree}
use cortx_utils.Key.Words.{strip, strip_left, strip_right}

-- The text begins with a character that `strip` keeps.
abbrev pub StartsSolid : Text → Type 0
StartsSolid [] = ⊥
StartsSolid (c ∷ s) = is_space c ≡ false

-- The text ends with a character that `strip` keeps.
abbrev pub EndsSolid : Text → Type 0
EndsSolid [] = ⊥
EndsSolid (c ∷ []) = is_space c ≡ false
EndsSolid (c ∷ d ∷ s) = EndsSolid (d ∷ s)

strip_right_solid : (s : Text) → EndsSolid s → strip_right s ≡ s
unfolding strip_right
strip_right_solid [] h = absurd h
strip_right_solid (c ∷ []) h = rw h refl
strip_right_solid (c ∷ d ∷ s) h = rw (strip_right_solid (d ∷ s) h) refl

pub EndsSolid-append : (s t : Text) → EndsSolid t → EndsSolid (s ++ t)
EndsSolid-append [] t h = h
EndsSolid-append (c ∷ []) [] h = absurd h
EndsSolid-append (c ∷ []) (d ∷ t) h = h
EndsSolid-append (c ∷ d ∷ s) t h = EndsSolid-append (d ∷ s) t h

-- A space behind the text goes.
strip_right_space : (s : Text) → EndsSolid s → strip_right (s ++ codes " ") ≡ s
unfolding strip_right is_space
strip_right_space [] h = absurd h
strip_right_space (c ∷ []) h = rw h refl
strip_right_space (c ∷ d ∷ s) h = rw (strip_right_space (d ∷ s) h) refl

strip_left_solid : (s t : Text) → StartsSolid s → strip_left (s ++ t) ≡ s ++ t
unfolding strip_left
strip_left_solid [] t h = absurd h
strip_left_solid (c ∷ s) t h = rw h refl

-- Between two solid ends nothing goes.
pub strip-between : (s t : Text) → StartsSolid s → EndsSolid t → strip (s ++ t) ≡ s ++ t
unfolding strip
strip-between s t starts ends =
    rw (strip_left_solid s t starts) (strip_right_solid (s ++ t) (EndsSolid-append s t ends))

pub strip-behind : (s : Text) → StartsSolid s → EndsSolid s → strip (s ++ codes " ") ≡ s
unfolding strip
strip-behind s starts ends = rw (strip_left_solid s (codes " ") starts) (strip_right_space s ends)

pub strip-before : (s : Text) → StartsSolid s → EndsSolid s → strip (codes " " ++ s) ≡ s
unfolding strip strip_left is_space
strip-before [] starts ends = absurd ends
strip-before (c ∷ s) starts ends = rw starts (strip_right_solid (c ∷ s) ends)

pub split_once-append :
    (d : ℕ) (s t : Text) → IsFree d s → split_once d (s ++ (d ∷ t)) ≡ (s, some t)
unfolding split_once
split_once-append d [] t free = ground arith
split_once-append d (c ∷ s) t (h, hs) = rw (split_once-append d s t hs) (rw h refl)
