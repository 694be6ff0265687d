-- ===== src/Release/Versions/Laws.antt =====
-- What the comparison of versions answers.
use cortx_utils.Base.{
  ℕ, zero, suc, Text, codes, true, false, List, [], ◌∷◌, ◌++◌, ◌≡◌, refl, sym, ap, ◌-◌, ◌∙◌, arith,
  ltb, ◌==◌, eq_iff, =ℕ_refl, Bool-cases, inl, inr,
}
use cortx_utils.Key.{is_digit}
use cortx_utils.Value.{ℤ, pos, negsuc}
use cortx_utils.Release.Versions.{get_digits, compare_digits, version_check}

-- The answer for the versions the other way round.
abbrev pub opposite : ℤ → ℤ
opposite (pos zero) = pos 0
opposite (pos (suc n)) = negsuc n
opposite (negsuc n) = pos (suc n)

ltb_asym : (a b : ℕ) → ltb a b ≡ true → ltb b a ≡ false
ltb_asym a b less = ground arith

ltb_irrefl : (a : ℕ) → ltb a a ≡ false
ltb_irrefl a = ground arith

eq_sym : (s t : Text) → (s == t) ≡ true → (t == s) ≡ true
eq_sym s t same = (eq_iff t s).1 (sym ((eq_iff s t).0 same))

ne_sym : (s t : Text) → (s == t) ≡ false → (t == s) ≡ false
ne_sym s t apart = elim (Bool-cases (t == s)) [
  | inl same ↦ absurd (ground (arith, eq_sym t s same))
  | inr e ↦ e
]

nine_ne_ten : (codes "9" == codes "10") ≡ false
unfolding ◌==◌
nine_ne_ten = refl

nine_first : compare_digits (get_digits (codes "9")) (get_digits (codes "10")) ≡ pos 1
unfolding compare_digits get_digits is_digit
nine_first = refl

compare_digits-swap : (ms bs : List ℕ) → compare_digits bs ms ≡ opposite (compare_digits ms bs)
unfolding compare_digits
compare_digits-swap [] [] = refl
compare_digits-swap [] (b ∷ bs) = refl
compare_digits-swap (a ∷ ms) [] = refl
compare_digits-swap (a ∷ ms) (b ∷ bs) =
    let later = compare_digits-swap ms bs in
    elim (Bool-cases (ltb a b)) [
      | inl less ↦ rw less (rw (ltb_asym a b less) refl)
      | inr geq ↦
          rw geq
            (elim (Bool-cases (ltb b a)) [ inl more ↦ rw more refl | inr same ↦ rw same later ])
    ]

-- To compare two versions the other way round gives the opposite answer.
pub version_check-swap :
    (deploy release : Text) → version_check release deploy ≡ opposite (version_check deploy release)
unfolding version_check
version_check-swap deploy release = elim (Bool-cases (deploy == release)) [
  | inl same ↦ rw same (rw (eq_sym deploy release same) refl)
  | inr apart ↦ rw apart (
      rw (ne_sym deploy release apart)
        (compare_digits-swap (get_digits deploy) (get_digits release)))
]

get_digits-append : (s t : Text) → get_digits (s ++ t) ≡ get_digits s ++ get_digits t
unfolding get_digits
get_digits-append [] t = refl
get_digits-append (c ∷ s) t = elim (Bool-cases (is_digit c)) [
  | inl digit ↦ rw digit (ap (λ ds. (c - b'0') ∷ ds) (get_digits-append s t))
  | inr other ↦ rw other (get_digits-append s t)
]

compare_digits-append :
    (ds ms bs : List ℕ) → compare_digits (ds ++ ms) (ds ++ bs) ≡ compare_digits ms bs
unfolding compare_digits
compare_digits-append [] ms bs = refl
compare_digits-append (d ∷ ds) ms bs = rw (ltb_irrefl d) (compare_digits-append ds ms bs)

ne_append : (p s t : Text) → (s == t) ≡ false → ((p ++ s) == (p ++ t)) ≡ false
unfolding ◌==◌
ne_append [] s t ne = ne
ne_append (c ∷ p) s t ne = rw (=ℕ_refl c) (ne_append p s t ne)

-- Of two builds of one version, the ninth is taken for newer than the tenth, and so for any build
-- that ends in 9 and the one with 10 in its place: the digits are compared one by one.
pub version_check-misorders : (p : Text) → version_check (p ++ codes "9") (p ++ codes "10") ≡ pos 1
unfolding version_check
version_check-misorders p = rw (ne_append p (codes "9") (codes "10") nine_ne_ten) (
    rw (get_digits-append p (codes "9")) (
      rw (get_digits-append p (codes "10")) (
        compare_digits-append (get_digits p) (get_digits (codes "9")) (get_digits (codes "10"))
        ∙ nine_first)))
