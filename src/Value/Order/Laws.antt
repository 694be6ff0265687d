-- ===== src/Value/Order/Laws.antt =====
-- What Python's `<` says of numbers and texts, in terms of the numbers and the code points.
use Prim.Native.Nat.{compare, Ordering}
use cortx_utils.Base.{
  ℕ, Text, List, true, false, [], ◌∷◌, ◌≡◌, ◌≢◌, ◌≤◌, ◌<◌, ◌⊎◌, inl, inr, refl, sym, ◌∙◌,
  type_error, arith, ok, err, ◌=ℕ◌, Bool-cases, =ℕ_iff,
}
use cortx_utils.Value.{ℤ, pos, negsuc, Value, null, bool, int, str, list, dict, Fields}
use cortx_utils.Value.Order.{order_int, order_text, order_atom, order, less, number}

-- The order of dictionaries: the first difference decides, and a beginning stands first.
pub data LexLe : List ℕ → List ℕ → Type 0 where
  begins : (t : List ℕ) → LexLe [] t
  below : (c d : ℕ) (s t : List ℕ) → c < d → LexLe (c ∷ s) (d ∷ t)
  alike : (c : ℕ) (s t : List ℕ) → LexLe s t → LexLe (c ∷ s) (c ∷ t)

abbrev pub IntLe : ℤ → ℤ → Type 0
IntLe (pos m) (pos n) = m ≤ n
IntLe (pos m) (negsuc n) = ⊥
IntLe (negsuc m) (pos n) = Unit
IntLe (negsuc m) (negsuc n) = n ≤ m

compare-le : (m n : ℕ) → compare m n ≢ Ordering.gt → m ≤ n
compare-le m n h = ground arith

compare-ge : (m n : ℕ) → compare m n ≢ Ordering.lt → n ≤ m
compare-ge m n h = ground arith

IntLe-le : (m n : ℤ) → order_int m n ≢ Ordering.gt → IntLe m n
unfolding order_int
IntLe-le (pos m) (pos n) h = compare-le m n h
IntLe-le (pos m) (negsuc n) h = h refl
IntLe-le (negsuc m) (pos n) h = tt
IntLe-le (negsuc m) (negsuc n) h = compare-le n m h

IntLe-ge : (m n : ℤ) → order_int m n ≢ Ordering.lt → IntLe n m
unfolding order_int
IntLe-ge (pos m) (pos n) h = compare-ge m n h
IntLe-ge (pos m) (negsuc n) h = tt
IntLe-ge (negsuc m) (pos n) h = h refl
IntLe-ge (negsuc m) (negsuc n) h = compare-ge n m h

LexLe-le : (s t : Text) → order_text s t ≢ Ordering.gt → LexLe s t
unfolding order_text
LexLe-le [] t h = LexLe.begins t
LexLe-le (c ∷ s) [] h = absurd (h refl)
LexLe-le (c ∷ s) (d ∷ t) h = elim (Bool-cases (c =ℕ d)) [
  | inl same ↦
      let equal : c ≡ d = (=ℕ_iff c d).0 same in
      rw equal (LexLe.alike d s t (LexLe-le s t (rw same at h)))
  | inr other ↦ let few = compare-le c d (rw other at h) in LexLe.below c d s t (ground arith)
]

LexLe-ge : (s t : Text) → order_text s t ≢ Ordering.lt → LexLe t s
unfolding order_text
LexLe-ge s [] h = LexLe.begins s
LexLe-ge [] (d ∷ t) h = absurd (h refl)
LexLe-ge (c ∷ s) (d ∷ t) h = elim (Bool-cases (c =ℕ d)) [
  | inl same ↦
      let equal : c ≡ d = (=ℕ_iff c d).0 same in
      rw equal (LexLe.alike d t s (LexLe-ge s t (rw same at h)))
  | inr other ↦ let few = compare-ge c d (rw other at h) in LexLe.below d c t s (ground arith)
]

-- The first value is at most the second one: numbers and texts by their order, lists by what Python
-- answers.
abbrev pub AtMost : Value → Value → Type 0
AtMost (bool a) (bool b) = IntLe (number a) (number b)
AtMost (bool a) (int n) = IntLe (number a) n
AtMost (int m) (bool b) = IntLe m (number b)
AtMost (int m) (int n) = IntLe m n
AtMost (str s) (str t) = LexLe s t
AtMost (list xs) (list ys) =
    (less (list ys) (list xs) ≡ ok false) ⊎ (less (list xs) (list ys) ≡ ok true)
AtMost _ _ = ⊥

pub less-AtMost : (v w : Value) → less v w ≡ ok true → AtMost v w
unfolding less order order_atom
less-AtMost (bool a) (bool b) h = IntLe-le (number a) (number b) (λ e. ground arith)
less-AtMost (bool a) (int n) h = IntLe-le (number a) n (λ e. ground arith)
less-AtMost (int m) (bool b) h = IntLe-le m (number b) (λ e. ground arith)
less-AtMost (int m) (int n) h = IntLe-le m n (λ e. ground arith)
less-AtMost (str s) (str t) h = LexLe-le s t (λ e. ground arith)
less-AtMost (list xs) (list ys) h = inr h
less-AtMost _ _ h = absurd (ground arith)

less_null : (w : Value) → less w null ≡ err type_error
unfolding less order order_atom
less_null null = refl
less_null (bool a) = refl
less_null (int n) = refl
less_null (str s) = refl
less_null (list xs) = refl
less_null (dict gs) = refl

less_dict : (fs : Fields) (w : Value) → less w (dict fs) ≡ err type_error
unfolding less order order_atom
less_dict fs null = refl
less_dict fs (bool a) = refl
less_dict fs (int n) = refl
less_dict fs (str s) = refl
less_dict fs (list xs) = refl
less_dict fs (dict gs) = refl

pub not_less-AtMost : (v w : Value) → less w v ≡ ok false → AtMost v w
unfolding less order order_atom
not_less-AtMost (bool a) (bool b) h = IntLe-ge (number b) (number a) (λ e. ground arith)
not_less-AtMost (bool a) (int n) h = IntLe-ge n (number a) (λ e. ground arith)
not_less-AtMost (int m) (bool b) h = IntLe-ge (number b) m (λ e. ground arith)
not_less-AtMost (int m) (int n) h = IntLe-ge n m (λ e. ground arith)
not_less-AtMost (str s) (str t) h = LexLe-ge t s (λ e. ground arith)
not_less-AtMost (list xs) (list ys) h = inl h
not_less-AtMost null w h = absurd (let raised = sym (less_null w) ∙ h in cc)
not_less-AtMost (dict fs) w h = absurd (let raised = sym (less_dict fs w) ∙ h in cc)
not_less-AtMost _ _ h = absurd (ground arith)
