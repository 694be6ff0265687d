-- ===== src/Common/Attempts.antt =====
-- What `ExponentialBackoff` promises: the outcome of the first attempt that is not tried again.
use cortx_utils.Base.{
  ℕ, zero, suc, Bool, true, false, List, [], ◌∷◌, ◌++◌, append-nil, append_assoc, ◌*◌, ◌+◌, ◌≤◌,
  ◌<◌, ◌≡◌, refl, sym, ap, ◌∙◌, ◌⊎◌, inl, inr, arith, Result, ok, err, Result-cases, Bool-cases,
}
use cortx_utils.Base.Exec.{Exec}
use native.Mathlib.Nat.{mul-le-mul_right}
use cortx_utils.Common.{ExponentialBackoff, min, wrap}

abbrev pub at_least_one : ℕ → ℕ
at_least_one zero = 1
at_least_one (suc n) = suc n

abbrev pub length : List ℕ → ℕ
length [] = 0
length (n ∷ ns) = suc (length ns)

abbrev pub total : List ℕ → ℕ
total [] = 0
total (n ∷ ns) = n + total ns

fits : (k n cap t : ℕ) → k < n → t ≤ k * cap → t + cap ≤ n * cap
fits k n cap t less few = ground (arith, mul-le-mul_right {m = suc k} {n = n} cap less)

module _ {S A : Type 0} (X : ExponentialBackoff) (func : Exec S A) where
  open X use {catches, backoff, cap}

  -- The state after some attempts.
  unfoldable pub after : ℕ → S → S
  after zero s = s
  after (suc k) s = after k (func s).1

  -- An attempt that is followed by another one, if one is left.
  abbrev pub is_caught : Result A → Bool
  is_caught (ok a) = false
  is_caught (err e) = catches e

  unfoldable pub AreCaught : ℕ → S → Type 0
  AreCaught zero s = Unit
  AreCaught (suc k) s = (is_caught (func s).0 ≡ true) × AreCaught k (func s).1

  -- The pauses after so many attempts.
  unfoldable pub delays : ℕ → ℕ → List ℕ
  delays zero delay = []
  delays (suc k) delay = min cap delay ∷ delays k (delay * backoff)

  pub record IsOutcome (tries delay : ℕ) (s : S) (pauses : List ℕ) (out : Result A × (S × List ℕ))
      : Type 0 where
    -- How many attempts were tried again.
    pub retried : ℕ
    pub in_time : retried < at_least_one tries
    pub caught : AreCaught retried s
    pub is_out :
        out
        ≡ ((func (after retried s)).0, ((func (after retried s)).1, pauses ++ delays retried delay))
    pub is_last :
        (suc retried ≡ at_least_one tries) ⊎ (is_caught (func (after retried s)).0 ≡ false)

  last_attempt :
      (tries delay : ℕ) (s : S) (pauses : List ℕ)
      → at_least_one tries ≡ 1
      → IsOutcome tries delay s pauses ((func s).0, ((func s).1, pauses))
  unfolding after AreCaught delays
  last_attempt tries delay s pauses one = record {
    retried = 0;
    in_time = rw one (omega arith);
    caught = tt;
    is_out = rw (append-nil pauses) refl;
    is_last = inl (sym one);
  }

  first_attempt :
      (n delay : ℕ) (s : S) (pauses : List ℕ)
      → is_caught (func s).0 ≡ false
      → IsOutcome (suc (suc n)) delay s pauses ((func s).0, ((func s).1, pauses))
  unfolding after AreCaught delays
  first_attempt n delay s pauses open_ = record {
    retried = 0;
    in_time = omega arith;
    caught = tt;
    is_out = rw (append-nil pauses) refl;
    is_last = inr open_;
  }

  tried_again :
      (n delay : ℕ) (s : S) (pauses : List ℕ) (out : Result A × (S × List ℕ))
      → is_caught (func s).0 ≡ true
      → IsOutcome (suc n) (delay * backoff) (func s).1 (pauses ++ (min cap delay ∷ [])) out
      → IsOutcome (suc (suc n)) delay s pauses out
  unfolding after AreCaught delays
  tried_again n delay s pauses out caught later = record {
    retried = suc later.retried;
    in_time = ground (arith, later.in_time);
    caught = (caught, later.caught);
    is_out =
        later.is_out
        ∙ rw (append_assoc pauses (min cap delay ∷ []) (delays later.retried (delay * backoff)))
            refl;
    is_last = elim (later.is_last) [ inl e ↦ inl (ap suc e) | inr open_ ↦ inr open_ ];
  }

  -- The call makes at least one attempt and at most as many as there are tries. Its outcome is
  -- that of the first attempt that returns or raises what is not caught, or else of the last one;
  -- before each further attempt it pauses for the delay, multiplied in turn and cut at the cap.
  pub wrap-IsOutcome :
      (tries delay : ℕ) (s : S) (pauses : List ℕ)
      → IsOutcome tries delay s pauses (wrap X func tries delay (s, pauses))
  unfolding wrap
  wrap-IsOutcome zero delay s pauses = last_attempt 0 delay s pauses refl
  wrap-IsOutcome (suc zero) delay s pauses = last_attempt 1 delay s pauses refl
  wrap-IsOutcome (suc (suc n)) delay s pauses =
      let later =
        wrap-IsOutcome (suc n) (delay * backoff) (func s).1 (pauses ++ (min cap delay ∷ [])) in
      elim (Result-cases (func s).0) [
        | inl (a, returned) ↦
            rw (returned, wrap) (rw returned at (first_attempt n delay s pauses (rw returned refl)))
        | inr (e, raised) ↦ elim (Bool-cases (catches e)) [
          | inl caught ↦
              rw (raised, wrap)
                (rw caught (tried_again n delay s pauses _ (rw raised caught) later))
          | inr open_ ↦
              rw (raised, wrap)
                (rw open_ (rw raised at (first_attempt n delay s pauses (rw raised open_))))
        ]
      ]

  length-delays : (k delay : ℕ) → length (delays k delay) ≡ k
  unfolding delays
  length-delays zero delay = refl
  length-delays (suc k) delay = ap suc (length-delays k (delay * backoff))

  total-delays : (k delay : ℕ) → total (delays k delay) ≤ k * cap
  unfolding delays
  total-delays zero delay = omega arith
  total-delays (suc k) delay = ground (arith, total-delays k (delay * backoff))

  -- The pauses of a call are fewer than its tries, or none, and last no longer than the cap for
  -- each.
  pub total-wrap :
      (tries delay : ℕ) (s : S)
      → (suc (length (wrap X func tries delay (s, [])).1.1) ≤ at_least_one tries)
        × (total (wrap X func tries delay (s, [])).1.1 + cap ≤ at_least_one tries * cap)
  total-wrap tries delay s =
      let o = wrap-IsOutcome tries delay s [] in
      rw (o.is_out) (
        rw (length-delays o.retried delay) (omega arith),
        fits o.retried (at_least_one tries) cap _ o.in_time (total-delays o.retried delay),
      )
