-- ===== src/Tests/Retries.antt =====
-- A call that fails twice and is tried up to four times.
use cortx_utils.Base.{ℕ, zero, suc, true, [], ◌∷◌, ◌≤◌, ◌+◌, ◌*◌, ok, err, os_error, ◌≡◌, refl}
use cortx_utils.Base.Exec.{Exec}
use cortx_utils.Common.{ExponentialBackoff, wrap}
use cortx_utils.Common.Attempts.{IsOutcome, wrap-IsOutcome, total-wrap, length, total}

abbrev policy : ExponentialBackoff
policy = record { catches = λ e. true; backoff = 2; cap = 3 }

-- The state counts the failures that are left.
abbrev flaky : Exec ℕ ℕ
flaky zero = (ok 7, zero)
flaky (suc n) = (err os_error, n)

two_pauses : wrap policy flaky 4 2 (2, []) ≡ (ok 7, (0, 2 ∷ 3 ∷ []))
unfolding wrap
two_pauses = refl

wrap-IsOutcome_example : IsOutcome policy flaky 4 2 2 [] (wrap policy flaky 4 2 (2, []))
wrap-IsOutcome_example = wrap-IsOutcome policy flaky 4 2 2 []

total-wrap_example :
    (suc (length (wrap policy flaky 4 2 (2, [])).1.1) ≤ 4)
    × (total (wrap policy flaky 4 2 (2, [])).1.1 + 3 ≤ 4 * 3)
total-wrap_example = total-wrap policy flaky 4 2 2
