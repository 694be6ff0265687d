-- ===== src/Ha/Decisions/Laws.antt =====
-- Identifiers of decisions: what they were made of can be read back.
use cortx_utils.Base.{Text, List, [], ◌∷◌, ◌≡◌, refl, ◌∙◌, ok}
use cortx_utils.Key.{split}
use cortx_utils.Key.Shape.{IsFree, split_free, split-append}
use cortx_utils.Value.{Value, str}
use cortx_utils.Ha.Decisions.{join, texts, join_all, create_decision_id}

-- No part has a slash in it.
abbrev pub AreFree : List Text → Type 0
AreFree [] = Unit
AreFree (s ∷ ss) = IsFree b'/' s × AreFree ss

abbrev pub as_values : List Text → List Value
as_values [] = []
as_values (s ∷ ss) = str s ∷ as_values ss

texts-as_values : (ss : List Text) → texts (as_values ss) ≡ ok ss
unfolding texts
texts-as_values [] = refl
texts-as_values (s ∷ ss) = rw (texts-as_values ss, texts) refl

split-join :
    (s : Text) (ss : List Text) → IsFree b'/' s → AreFree ss → split b'/' (join s ss) ≡ (s, ss)
unfolding join
split-join s [] free rest = split_free b'/' s free
split-join s (t ∷ ts) free (first, rest) =
    split-append b'/' s (join t ts) free ∙ rw (split-join t ts first rest) refl

-- The identifier of a decision on texts without slashes is made, and read at its slashes it gives
-- them back.
pub split-create_decision_id :
    (s : Text) (ss : List Text)
    → IsFree b'/' s
    → AreFree ss
    → (id : Text) × (create_decision_id (as_values (s ∷ ss)) ≡ ok id) × (split b'/' id ≡ (s, ss))
unfolding create_decision_id join_all
split-create_decision_id s ss free rest =
    (join s ss, rw (texts-as_values (s ∷ ss), create_decision_id) refl, split-join s ss free rest)
