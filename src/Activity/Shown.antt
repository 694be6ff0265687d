-- ===== src/Activity/Shown.antt =====
-- What an entry shows of its activity, and how the methods of `ActivityEntry` change it.
use cortx_utils.Base.{ℕ, Text, true, some, ◌≡◌, refl, ok, ltb, ◌==◌, if◌then◌else◌}
use cortx_utils.Key.{split, key_index_split, find_index, match_index}
use cortx_utils.Value.{Value, int, str, ℤ, pos, Fields}
use cortx_utils.Value.Dict.{lookup}
use cortx_utils.Activity.Names.{pct_progress_key, status_key, in_progress, completed, suspended}
use cortx_utils.Activity.Entry
use cortx_utils.Activity.Entry.{ActivityEntry, set_progress, set_attrs, is_pct}
use cortx_utils.Activity.Checks.{Json}
use cortx_utils.Activity.Attributes.{
  Holds, ArePlainNames, put_all, latest, lookup-put_all, assign_plain, or_else,
}
use cortx_utils.Activity.Spec.{State}

-- The payload of the entry is a dict that has the status and the progress.
pub record Shows (a : ActivityEntry) (s : State) : Type 0 where
  pub fields : Fields
  pub held : Holds a.payload fields
  pub same_status : lookup status_key fields ≡ some (str s.status)
  pub same_pct : lookup pct_progress_key fields ≡ some (int (pos s.pct))

-- What `json.loads` gives back: the dict that `json.dumps` wrote.
pub record IsExactJson (J : Json) : Type 0 where
  pub loads-dumps : (v : Value) → J.loads (J.dumps v) ≡ some v

-- Attributes of the given status and progress are written.
set_attrs-Shows :
    (gs : Fields) (a : ActivityEntry) (s t : State)
    → ArePlainNames gs
    → Shows a s
    → or_else (latest status_key gs) (some (str s.status)) ≡ some (str t.status)
    → or_else (latest pct_progress_key gs) (some (int (pos s.pct))) ≡ some (int (pos t.pct))
    → ((set_attrs gs a).0 ≡ ok tt) × Shows (set_attrs gs a).1 t
unfolding set_attrs
set_attrs-Shows gs a s t plain h status pct =
    let (done, held) = assign_plain gs a.payload h.fields plain h.held in
    (
      done,
      record {
        fields = put_all gs h.fields;
        held = held;
        same_status = rw (lookup-put_all status_key gs h.fields) (rw (h.same_status) status);
        same_pct = rw (lookup-put_all pct_progress_key gs h.fields) (rw (h.same_pct) pct);
      },
    )

pub set_progress-Shows :
    (n : ℕ) (desc : Text) (now : ℕ) (a : ActivityEntry) (s : State)
    → ltb n 100 ≡ true
    → Shows a s
    → ((set_progress (pos n) desc now a).0 ≡ ok tt)
      × Shows (set_progress (pos n) desc now a).1 (record { status = in_progress; pct = n })
unfolding set_progress latest split key_index_split find_index match_index ◌==◌
set_progress-Shows n desc now a s small h =
    rw (small, if◌then◌else◌)
      (set_attrs-Shows _ a s (record { status = in_progress; pct = n })
        ((refl, refl), ((refl, refl), ((refl, refl), ((refl, refl), tt)))) h refl refl)

pub finish-Shows :
    (rc : ℤ) (desc : Text) (now : ℕ) (a : ActivityEntry) (s : State)
    → Shows a s
    → ((Entry.finish rc desc now a).0 ≡ ok tt)
      × Shows (Entry.finish rc desc now a).1 (record { status = completed; pct = 100 })
unfolding Entry.finish latest split key_index_split find_index match_index ◌==◌
finish-Shows rc desc now a s h =
    set_attrs-Shows _ a s (record { status = completed; pct = 100 })
      ((refl, refl), ((refl, refl), ((refl, refl), ((refl, refl), ((refl, refl), tt))))) h refl refl

pub suspend-Shows :
    (desc : Text) (now : ℕ) (a : ActivityEntry) (s : State)
    → Shows a s
    → ((Entry.suspend desc now a).0 ≡ ok tt)
      × Shows (Entry.suspend desc now a).1 (record { status = suspended; pct = s.pct })
unfolding Entry.suspend latest split key_index_split find_index match_index ◌==◌
suspend-Shows desc now a s h =
    set_attrs-Shows _ a s (record { status = suspended; pct = s.pct })
      ((refl, refl), ((refl, refl), ((refl, refl), tt))) h refl refl
