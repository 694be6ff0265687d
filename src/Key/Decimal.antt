-- ===== src/Key/Decimal.antt =====
-- `int` reads back what `"%d"` writes, in the brackets of an index.
use cortx_utils.Base.{
  ℕ, zero, suc, ◌+◌, ◌-◌, ◌*◌, ◌/◌, ◌%◌, ◌<◌, Text, true, some, [], ◌∷◌, ◌++◌, ◌≡◌, refl, ap, ◌∙◌,
  arith, ◌=ℕ◌, Bool-cases, inl, inr, append_assoc,
}
use cortx_utils.Key.{is_digit, digits_bracket, match_index, show_digits, show_nat, index_suffix}

abbrev pub AreDigits : Text → Type 0
AreDigits [] = Unit
AreDigits (c ∷ s) = (is_digit c ≡ true) × AreDigits s

-- The number that digits spell, behind the number read so far.
abbrev value : ℕ → Text → ℕ
value n [] = n
value n (c ∷ s) = value (n * 10 + (c - b'0')) s

digit : (n : ℕ) → is_digit (b'0' + n % 10) ≡ true
unfolding is_digit
digit n = ground arith

show_digits-AreDigits : (f n : ℕ) (out : Text) → AreDigits out → AreDigits (show_digits f n out)
unfolding show_digits
show_digits-AreDigits zero n out h = h
show_digits-AreDigits (suc f) n out h = elim (Bool-cases (n / 10 =ℕ 0)) [
  | inl last ↦ rw (last, show_digits) (digit n, h)
  | inr more ↦ rw (more, show_digits) (show_digits-AreDigits f (n / 10) _ (digit n, h))
]

value-show_digits : (f n : ℕ) (out : Text) → n < f → value 0 (show_digits f n out) ≡ value n out
unfolding show_digits
value-show_digits zero n out h = elim h [ ]
value-show_digits (suc f) n out h = elim (Bool-cases (n / 10 =ℕ 0)) [
  | inl last ↦ rw (last, show_digits) (ap (λ (m : ℕ). value m out) (ground arith))
  | inr more ↦
      rw (more, show_digits)
        (value-show_digits f (n / 10) _ (ground arith) ∙ ap (λ (m : ℕ). value m out) (ground arith))
]

show_digits-cons :
    (f n c : ℕ) (s : Text) → (c' : ℕ) × (s' : Text) × (show_digits f n (c ∷ s) ≡ c' ∷ s')
unfolding show_digits
show_digits-cons zero n c s = (c, s, refl)
show_digits-cons (suc f) n c s = elim (Bool-cases (n / 10 =ℕ 0)) [
  | inl last ↦ (b'0' + n % 10, c ∷ s, rw (last, show_digits))
  | inr more ↦
      let (c', s', e) = show_digits-cons f (n / 10) (b'0' + n % 10) (c ∷ s) in
      (c', s', rw (more, show_digits) e)
]

-- A number is written with a digit at least.
pub show_nat-cons : (n : ℕ) → (c : ℕ) × (s : Text) × (show_nat n ≡ c ∷ s)
unfolding show_nat
show_nat-cons n = elim (Bool-cases (n / 10 =ℕ 0)) [
  | inl last ↦ (b'0' + n % 10, [], rw (last, show_digits))
  | inr more ↦
      let (c, s, e) = show_digits-cons n (n / 10) (b'0' + n % 10) [] in
      (c, s, rw (more, show_digits) e)
]

pub show_nat-AreDigits : (n : ℕ) → AreDigits (show_nat n)
unfolding show_nat
show_nat-AreDigits n = show_digits-AreDigits (suc n) n [] tt

value-show_nat : (n : ℕ) → value 0 (show_nat n) ≡ n
unfolding show_nat
value-show_nat n = value-show_digits (suc n) n [] (omega arith)

digits_bracket-append :
    (n : ℕ) (s rest : Text)
    → AreDigits s
    → digits_bracket n (s ++ (b']' ∷ rest)) ≡ some (value n s, rest)
unfolding digits_bracket
digits_bracket-append n [] rest h = refl
digits_bracket-append n (c ∷ s) rest (hc, hs) =
    rw hc (digits_bracket-append (n * 10 + (c - b'0')) s rest hs)

match_brackets :
    (c : ℕ) (s rest : Text)
    → AreDigits (c ∷ s)
    → match_index (b'[' ∷ c ∷ (s ++ (b']' ∷ rest))) ≡ some (value 0 (c ∷ s), rest)
unfolding match_index
match_brackets c s rest h = rw (h.0) (rw (h.0) at (digits_bracket-append 0 (c ∷ s) rest h))

-- An index that was written is matched, with what stands behind it.
pub match_index-suffix :
    (n : ℕ) (rest : Text) → match_index (index_suffix n ++ rest) ≡ some (n, rest)
unfolding index_suffix
match_index-suffix n rest =
    let (c, s, e) = show_nat-cons n in
    let digits = rw e at (show_nat-AreDigits n) in
    let number = rw e at (value-show_nat n) in
    rw append_assoc (rw e (match_brackets c s rest digits ∙ ap (λ (m : ℕ). some (m, rest)) number))
