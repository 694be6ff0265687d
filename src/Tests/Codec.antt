-- ===== src/Tests/Codec.antt =====
-- A text format that reads back every value: instructions for a stack of values.
use cortx_utils.Base.{
  ℕ, Text, true, false, Option, none, some, List, [], ◌∷◌, ◌≡◌, refl, ◌∙◌, ◌=ℕ◌, if◌then◌else◌,
}
use cortx_utils.Value.{
  Value, null, bool, int, str, list, dict, pos, negsuc, Items, nil, cons, Fields, end, field,
}
use cortx_utils.Activity.Checks.{Json}
use cortx_utils.Activity.Shown.{IsExactJson}

abbrev Stack : Type 0
Stack = List Value

abbrev add_char : ℕ → Stack → Stack
add_char c (str s ∷ st) = str (c ∷ s) ∷ st
add_char c st = st

abbrev add_item : Stack → Stack
add_item (v ∷ list xs ∷ st) = list (cons v xs) ∷ st
add_item st = st

abbrev add_field : Stack → Stack
add_field (str k ∷ v ∷ dict fs ∷ st) = dict (field k v fs) ∷ st
add_field st = st

-- One instruction, with its argument.
abbrev step : ℕ → ℕ → Stack → Stack
step op c st =
    if op =ℕ 0
    then str [] ∷ st
    else if op =ℕ 1
    then add_char c st
    else if op =ℕ 2
    then null ∷ st
    else if op =ℕ 3
    then bool false ∷ st
    else if op =ℕ 4
    then bool true ∷ st
    else if op =ℕ 5
    then int (pos c) ∷ st
    else if op =ℕ 6
    then int (negsuc c) ∷ st
    else if op =ℕ 7
    then list nil ∷ st
    else if op =ℕ 8
    then add_item st
    else if op =ℕ 9
    then dict end ∷ st
    else if op =ℕ 10
    then add_field st
    else st

unfoldable pub run : Text → Stack → Stack
run [] st = st
run (op ∷ []) st = st
run (op ∷ c ∷ t) st = run t (step op c st)

unfoldable text_onto : Text → Text → Text
text_onto [] rest = 0 ∷ 0 ∷ rest
text_onto (c ∷ s) rest = text_onto s (1 ∷ c ∷ rest)

unfoldable mutual
  unfolding text_onto

  pub value_onto : Value → Text → Text
  value_onto null rest = 2 ∷ 0 ∷ rest
  value_onto (bool false) rest = 3 ∷ 0 ∷ rest
  value_onto (bool true) rest = 4 ∷ 0 ∷ rest
  value_onto (int (pos n)) rest = 5 ∷ n ∷ rest
  value_onto (int (negsuc n)) rest = 6 ∷ n ∷ rest
  value_onto (str s) rest = text_onto s rest
  value_onto (list xs) rest = items_onto xs rest
  value_onto (dict fs) rest = fields_onto fs rest

  items_onto : Items → Text → Text
  items_onto nil rest = 7 ∷ 0 ∷ rest
  items_onto (cons v xs) rest = items_onto xs (value_onto v (8 ∷ 0 ∷ rest))

  fields_onto : Fields → Text → Text
  fields_onto end rest = 9 ∷ 0 ∷ rest
  fields_onto (field k v fs) rest = fields_onto fs (value_onto v (text_onto k (10 ∷ 0 ∷ rest)))

run-text_onto : (s rest : Text) (st : Stack) → run (text_onto s rest) st ≡ run rest (str s ∷ st)
unfolding run text_onto
run-text_onto [] rest st = refl
run-text_onto (c ∷ s) rest st = run-text_onto s (1 ∷ c ∷ rest) st

mutual
  unfolding run value_onto items_onto fields_onto

  run-value_onto :
      (v : Value) (rest : Text) (st : Stack) → run (value_onto v rest) st ≡ run rest (v ∷ st)
  run-value_onto null rest st = refl
  run-value_onto (bool false) rest st = refl
  run-value_onto (bool true) rest st = refl
  run-value_onto (int (pos n)) rest st = refl
  run-value_onto (int (negsuc n)) rest st = refl
  run-value_onto (str s) rest st = run-text_onto s rest st
  run-value_onto (list xs) rest st = run-items_onto xs rest st
  run-value_onto (dict fs) rest st = run-fields_onto fs rest st

  run-items_onto :
      (xs : Items) (rest : Text) (st : Stack)
      → run (items_onto xs rest) st ≡ run rest (list xs ∷ st)
  run-items_onto nil rest st = refl
  run-items_onto (cons v xs) rest st =
      run-items_onto xs (value_onto v (8 ∷ 0 ∷ rest)) st
      ∙ run-value_onto v (8 ∷ 0 ∷ rest) (list xs ∷ st)

  run-fields_onto :
      (fs : Fields) (rest : Text) (st : Stack)
      → run (fields_onto fs rest) st ≡ run rest (dict fs ∷ st)
  run-fields_onto end rest st = refl
  run-fields_onto (field k v fs) rest st =
      run-fields_onto fs (value_onto v (text_onto k (10 ∷ 0 ∷ rest))) st
      ∙ run-value_onto v (text_onto k (10 ∷ 0 ∷ rest)) (dict fs ∷ st)
      ∙ run-text_onto k (10 ∷ 0 ∷ rest) (v ∷ dict fs ∷ st)

unfoldable pub first : Stack → Option Value
first [] = none
first (v ∷ st) = some v

abbrev pub codec : Json
codec = record { dumps = λ v. value_onto v []; loads = λ t. first (run t []) }

decoded : (v : Value) → first (run (value_onto v []) []) ≡ some v
unfolding first run
decoded v = rw (run-value_onto v [] []) refl

pub codec-IsExactJson : IsExactJson codec
codec-IsExactJson = record { loads-dumps = decoded }
