-- ===== src/Activity/Life.antt =====
-- The life of an activity: what the operations promise of its status and of its progress, and that
-- the code keeps it, whatever the stores do.
use cortx_utils.Base.{
  ℕ, Text, Bool, true, false, List, [], ◌∷◌, ◌≡◌, inl, inr, refl, arith, ok, err, activity_error,
  einval, ltb, ◌==◌, ◌||◌, not, eq_iff, if◌then◌else◌, Bool-cases,
}
use cortx_utils.Base.Exec.{Exec, continue}
use cortx_utils.Value.{ℤ, pos, negsuc}
use cortx_utils.KvStore.{Backend}
use cortx_utils.Activity.{Shared, update, finish, suspend, write_shared}
use cortx_utils.Activity.Names.{in_progress, completed, suspended}
use cortx_utils.Activity.Entry.{ActivityEntry, set_progress, is_pct}
use cortx_utils.Activity.Checks.{
  Json, attributes, is_complete, is_below, less, check_update, check_suspend,
}
use cortx_utils.Activity.Spec.{
  State, Next, progress, complete, hold, Steps, here, next, IsSound, IsLater, Steps-IsLater,
  Steps-trans,
}
use cortx_utils.Activity.Shown.{Shows, IsExactJson, set_progress-Shows, finish-Shows, suspend-Shows}

-- A call of the tracker for an entry that a caller holds.
pub data Call : Type 0 where
  update_call : ℤ → Text → ℕ → Call
  finish_call : ℤ → Text → ℕ → Call
  suspend_call : Text → ℕ → Call

module _ (J : Json) (B : Backend) (url : Text) where
  unfoldable pub run_call : Call → Exec (Shared J B url) (Unit {0})
  run_call (update_call n desc now) = update J B url n desc now
  run_call (finish_call rc desc now) = finish J B url rc desc now
  run_call (suspend_call desc now) = suspend J B url desc now

  -- Calls in turn, whose exceptions are caught.
  unfoldable pub run_calls : List Call → Shared J B url → Shared J B url
  run_calls [] s = s
  run_calls (c ∷ cs) s = run_calls cs (run_call c s).1

-- What `update` refuses by what it reads.
abbrev pub is_blocked : ℤ → State → Bool
is_blocked n s = s.status == completed || less n (pos s.pct)

set_progress_refused :
    (n : ℤ) (desc : Text) (now : ℕ) (a : ActivityEntry)
    → is_pct n ≡ false
    → set_progress n desc now a ≡ (err (activity_error einval), a)
unfolding set_progress
set_progress_refused n desc now a e = rw (e, if◌then◌else◌) refl

set_progress_done :
    (n : ℤ) (desc : Text) (now : ℕ) (a : ActivityEntry) (s : State)
    → is_pct n ≡ true
    → Shows a s
    → (set_progress n desc now a).0 ≡ ok tt
set_progress_done (pos m) desc now a s e h = (set_progress-Shows m desc now a s e h).0
set_progress_done (negsuc m) desc now a s e h = absurd cc

accepted :
    (n : ℤ) (s : State)
    → (is_blocked n s || not (is_pct n)) ≡ false
    → (m : ℕ) × (n ≡ pos m) × (ltb m 100 ≡ true)
accepted (pos m) s good = (m, refl, ground arith)
accepted (negsuc m) s good = absurd (ground arith)

accepted-Next :
    (n : ℤ) (m : ℕ) (s : State)
    → n ≡ pos m
    → (is_blocked n s || not (is_pct n)) ≡ false
    → Next s (record { status = in_progress; pct = m })
accepted-Next n m s is_pos good =
    let open_at : (is_blocked (pos m) s || not (is_pct (pos m))) ≡ false = rw is_pos at good in
    progress m (λ e. ground (arith, eq_iff s.status completed)) (ground arith) (ground arith)

module _ (J : Json) (E : IsExactJson J) where
  read_shown : (a : ActivityEntry) (s : State) (h : Shows a s) → attributes J a ≡ ok h.fields
  unfolding attributes
  read_shown a s h =
      rw (E.loads-dumps a.payload.node, attributes) (rw (h.held.is_fields, attributes) refl)

  check_update_shown :
      (n : ℤ) (a : ActivityEntry) (s : State)
      → Shows a s
      → check_update J n a ≡ (if is_blocked n s then err (activity_error einval) else ok tt)
  unfolding check_update is_complete is_below
  check_update_shown n a s h =
      rw (read_shown a s h, check_update)
        (rw (h.same_status, is_complete) (rw (h.same_pct, is_below) (ground arith)))

  check_suspend_shown :
      (a : ActivityEntry) (s : State)
      → Shows a s
      → check_suspend J a ≡ (if s.status == completed then err (activity_error einval) else ok tt)
  unfolding check_suspend is_complete
  check_suspend_shown a s h =
      rw (read_shown a s h, check_suspend) (rw (h.same_status, is_complete) refl)

  module _ (B : Backend) (url : Text) where
    -- `update` refuses a completed activity, a progress below the last one and one that is no
    -- percentage below 100, with `EINVAL` and no effect; else it sets the progress and writes the
    -- entry, for an entry that shows a status and a progress, if `json` reads back what it wrote.
    pub update-verdict :
        (n : ℤ) (desc : Text) (now : ℕ) (a : ActivityEntry) (w : B.World) (s : State)
        → Shows a s
        → update J B url n desc now (a, w) ≡ (
            if is_blocked n s || not (is_pct n)
            then (err (activity_error einval), (a, w))
            else write_shared J B url ((set_progress n desc now a).1, w))
    unfolding update
    update-verdict n desc now a w s h =
        let seen = check_update_shown n a s h in
        elim (Bool-cases (is_blocked n s)) [
          | inl bad ↦ rw (seen, continue) (rw bad refl)
          | inr good ↦
              rw (seen, continue)
                (rw good (elim (Bool-cases (is_pct n)) [
                  | inl pct ↦ rw (set_progress_done n desc now a s pct h, continue) (rw pct refl)
                  | inr none_ ↦
                      rw (set_progress_refused n desc now a none_, continue) (rw none_ refl)
                ]))
        ]

    update-Steps :
        (n : ℤ) (desc : Text) (now : ℕ) (a : ActivityEntry) (w : B.World) (s : State)
        → Shows a s
        → (t : State) × Shows (update J B url n desc now (a, w)).1.0 t × Steps s t
    unfolding write_shared
    update-Steps n desc now a w s h =
        let verdict = update-verdict n desc now a w s h in
        elim (Bool-cases (is_blocked n s || not (is_pct n))) [
          | inl bad ↦ (s, rw verdict (rw bad h), here)
          | inr good ↦
              let (m, is_pos, small) = accepted n s good in
              let (_, shown) = set_progress-Shows m desc now a s small h in
              (
                record { status = in_progress; pct = m },
                rw verdict (rw good (rw is_pos shown)),
                next here (accepted-Next n m s is_pos good),
              )
        ]

    call-Steps :
        (c : Call) (a : ActivityEntry) (w : B.World) (s : State)
        → Shows a s
        → (t : State) × Shows (run_call J B url c (a, w)).1.0 t × Steps s t
    unfolding run_call finish suspend write_shared
    call-Steps (update_call n desc now) a w s h = update-Steps n desc now a w s h
    call-Steps (finish_call rc desc now) a w s h =
        let (done, shown) = finish-Shows rc desc now a s h in
        (_, rw (done, continue) shown, next here complete)
    call-Steps (suspend_call desc now) a w s h =
        let seen = check_suspend_shown a s h in
        let (done, shown) = suspend-Shows desc now a s h in
        elim (Bool-cases (s.status == completed)) [
          | inl bad ↦ (s, rw (seen, continue) (rw bad h), here)
          | inr open_ ↦ (
            record { status = suspended; pct = s.pct },
            rw (seen, continue) (rw open_ (rw (done, continue) shown)),
            next here (hold (λ e. absurd (ground (arith, eq_iff s.status completed)))),
          )
        ]

    -- Whatever calls are made for an entry, in whatever order, with their exceptions caught, it
    -- goes through steps of the abstract life, if it showed a status and a progress and `json`
    -- reads back what it wrote.
    pub run_calls-Steps :
        (cs : List Call) (a : ActivityEntry) (w : B.World) (s : State)
        → Shows a s
        → (t : State) × Shows (run_calls J B url cs (a, w)).0 t × Steps s t
    unfolding run_calls
    run_calls-Steps [] a w s h = (s, h, here)
    run_calls-Steps (c ∷ cs) a w s h =
        let (t, shown, first) = call-Steps c a w s h in
        let after = (run_call J B url c (a, w)).1 in
        let (u, final, rest) = run_calls-Steps cs after.0 after.1 t shown in
        (u, final, Steps-trans first rest)

    -- Whatever calls are made for an entry, with their exceptions caught, its progress does not
    -- fall, it stays at most 100, and a completed activity stays completed, if the entry showed a
    -- progress of at most 100, of 100 if completed, and `json` reads back what it wrote.
    pub run_calls-IsLater :
        (cs : List Call) (a : ActivityEntry) (w : B.World) (s : State)
        → Shows a s
        → IsSound s
        → (t : State) × Shows (run_calls J B url cs (a, w)).0 t × IsLater s t
    run_calls-IsLater cs a w s h sound =
        let (t, shown, steps) = run_calls-Steps cs a w s h in (t, shown, Steps-IsLater sound steps)
