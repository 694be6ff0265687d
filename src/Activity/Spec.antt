-- ===== src/Activity/Spec.antt =====
-- What the activity tracker promises of an activity's status and progress.
use cortx_utils.Base.{sym, ◌∙◌, ℕ, Text, ◌≡◌, ◌≢◌, refl, arith, ◌≤◌, ◌<◌}
use cortx_utils.Activity.Names.{in_progress, completed, suspended}

pub record State : Type 0 where
  pub status : Text
  pub pct : ℕ

-- What may become of an activity.
pub data Next (s : State) : State → Type 0 where
  progress :
      (n : ℕ)
      → s.status ≢ completed
      → s.pct ≤ n
      → n < 100
      → Next s (record { status = in_progress; pct = n })
  complete : Next s (record { status = completed; pct = 100 })
  hold : s.status ≢ completed → Next s (record { status = suspended; pct = s.pct })

pub data Steps (s : State) : State → Type 0 where
  here : Steps s s
  next : {t u : State} → Steps s t → Next t u → Steps s u

pub Steps-trans : {s t u : State} → Steps s t → Steps t u → Steps s u
Steps-trans p here = p
Steps-trans p (next q last) = next (Steps-trans p q) last

-- The progress is at most 100, and a completed activity has all of it.
pub record IsSound (s : State) : Type 0 where
  pub bounded : s.pct ≤ 100
  pub all_done : s.status ≡ completed → s.pct ≡ 100

-- What a sound state may become later: nothing is lost.
pub record IsLater (s t : State) : Type 0 where
  pub sound : IsSound t
  pub no_less : s.pct ≤ t.pct
  pub stays : s.status ≡ completed → t ≡ s

Next-IsLater : {s t : State} → IsSound s → Next s t → IsLater s t
Next-IsLater h (progress n open_ more small) = record {
  sound = record { bounded = omega arith; all_done = λ e. absurd (ground arith) };
  no_less = more;
  stays = λ e. absurd (open_ e);
}
Next-IsLater h complete = record {
  sound = record { bounded = omega arith; all_done = λ e. refl };
  no_less = h.bounded;
  stays = λ e. rw (sym e) (rw (sym (h.all_done e)) refl);
}
Next-IsLater h (hold open_) = record {
  sound = record { bounded = h.bounded; all_done = λ e. absurd (ground arith) };
  no_less = omega arith;
  stays = λ e. absurd (open_ e);
}

pub Steps-IsLater : {s t : State} → IsSound s → Steps s t → IsLater s t
Steps-IsLater h here = record { sound = h; no_less = omega arith; stays = λ e. refl }
Steps-IsLater h (next before last) =
    let e = Steps-IsLater h before in
    let l = Next-IsLater e.sound last in
    record {
      sound = l.sound;
      no_less = ground (arith, e.no_less, l.no_less);
      stays = λ done. l.stays (rw (e.stays done) done) ∙ e.stays done;
    }
