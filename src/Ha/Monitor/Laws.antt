-- ===== src/Ha/Monitor/Laws.antt =====
-- What the monitor reports of a group, and what it deletes.
use cortx_utils.Base.{
  Text, Bool, true, false, List, [], ◌∷◌, ◌||◌, ◌==◌, eq_iff, if◌then◌else◌, ◌≡◌, refl, ap, ◌∙◌,
  sym, inl, inr, arith, ok, err, Result, Result-cases, Bool-cases,
}
use mathlib.Core.Path.{ap₂}
use cortx_utils.Base
use cortx_utils.Base.Exec.{continue}
use cortx_utils.Value.{Value, str, Items, nil, cons}
use cortx_utils.Value.Compare.{value_eq}
use cortx_utils.Value.Compare.Laws.{value_eq-str}
use cortx_utils.Ha.Names.{failed, resolved, fine}
use cortx_utils.Ha.Decisions.{Storage, Comparison, get_event_time, create_decision_id, parts}
use cortx_utils.Ha.Monitor.{
  query_key, fetch, resource_key, get_resource_status, is_failed, is_resolved, group_status,
  group_members, get_resource_group_status,
}

-- A query leaves what is stored.
pub record IsReadOnly (D : Storage) : Type 0 where
  pub get_same :
      (c : Comparison) (id : Text) (sorted : Bool) (w : D.World) → (D.get c id sorted w).1 ≡ w

-- The status of a group by those of its members.
abbrev pub any_failed : List Value → Bool
any_failed [] = false
any_failed (v ∷ vs) = value_eq v (str failed) || any_failed vs

abbrev pub any_resolved : List Value → Bool
any_resolved [] = false
any_resolved (v ∷ vs) = value_eq v (str resolved) || any_resolved vs

abbrev pub worst : List Value → Value
worst vs = if any_failed vs then str failed else if any_resolved vs then str resolved else str fine

or_assoc : (a b c : Bool) → ((a || b) || c) ≡ (a || (b || c))
or_assoc true b c = refl
or_assoc false b c = refl

module _ (file : Value) (D : Storage) (R : IsReadOnly D) where
  -- The statuses of some resources, unless one cannot be looked up.
  unfoldable pub statuses : Items → D.World → Result (List Value)
  statuses nil w = ok []
  statuses (cons r rs) w =
      let rest = statuses rs w in
      Base.◌>>=◌ (get_resource_status file D r w).0 λ v. Base.◌>>=◌ rest λ vs. ok (v ∷ vs)

  fetch_same : (key : Value) (w : D.World) → (fetch file D key w).1 ≡ w
  unfolding fetch get_event_time
  fetch_same key w = elim (Result-cases (query_key key)) [
    | inl (k, read) ↦
        rw (read, continue)
          (elim (Result-cases (create_decision_id (parts k))) [
            | inl (id, made) ↦
                rw (made, continue)
                  (elim (Result-cases (D.get Comparison.like id true w).0) [
                    | inl (ds, found) ↦ rw (found, continue) (R.get_same Comparison.like id true w)
                    | inr (e, raised) ↦ rw (raised, continue) (R.get_same Comparison.like id true w)
                  ])
            | inr (e, raised) ↦ rw (raised, continue) refl
          ])
    | inr (e, raised) ↦ rw (raised, continue) refl
  ]

  status_same : (r : Value) (w : D.World) → (get_resource_status file D r w).1 ≡ w
  unfolding get_resource_status
  status_same r w = elim (Result-cases (resource_key file D r)) [
    | inl (key, read) ↦ rw (read, continue) (fetch_same key w)
    | inr (e, raised) ↦ rw (raised, continue) refl
  ]

  pub status_known :
      (r v : Value) (w : D.World)
      → (get_resource_status file D r w).0 ≡ ok v
      → get_resource_status file D r w ≡ (ok v, w)
  status_known r v w known = ap₂ (λ a b. (a, b)) known (status_same r w)

  group_step :
      (r : Value) (rs : Items) (any : Bool) (w : D.World) (v : Value) (vs vs' : List Value)
      → Base.ok (v ∷ vs') ≡ ok vs
      → group_status file D rs (any || is_resolved file D v) w ≡ (
        ok (
            if any_failed vs'
            then str failed
            else if (any || is_resolved file D v) || any_resolved vs'
            then str resolved
            else str fine),
        w,
      )
      → (if is_failed file D v
            then (λ u. (ok v, u))
            else group_status file D rs (any || is_resolved file D v))
          w
        ≡ (
          ok (
              if any_failed vs
              then str failed
              else if any || any_resolved vs
              then str resolved
              else str fine),
          w,
        )
  group_step r rs any w v vs vs' both later =
      let same : vs ≡ v ∷ vs' = cc in
      rw same (elim (Bool-cases (is_failed file D v)) [
        | inl bad ↦ rw bad (rw (value_eq-str v failed bad) refl)
        | inr good ↦
            rw good (later ∙ rw (or_assoc any (is_resolved file D v) (any_resolved vs')) refl)
      ])

  group_status_worst :
      (rs : Items) (any : Bool) (w : D.World) (vs : List Value)
      → statuses rs w ≡ ok vs
      → group_status file D rs any w ≡ (
        ok (
            if any_failed vs
            then str failed
            else if any || any_resolved vs
            then str resolved
            else str fine),
        w,
      )
  unfolding statuses group_status
  group_status_worst nil any w [] known = ground arith
  group_status_worst nil any w (v ∷ vs) known = absurd cc
  group_status_worst (cons r rs) any w vs known =
      elim (Result-cases (get_resource_status file D r w).0) [
        | inl (v, seen) ↦ elim (Result-cases (statuses rs w)) [
          | inl (vs', others) ↦
              let both : Base.ok (v ∷ vs') ≡ ok vs =
                rw (others, statuses) at (rw (seen, statuses) at known) in
              rw (status_known r v w seen) (
                group_step r rs any w v vs vs' both
                  (group_status_worst rs (any || is_resolved file D v) w vs' others))
          | inr (e, raised) ↦ absurd (ground arith)
        ]
        | inr (e, raised) ↦ absurd (ground arith)
      ]

  -- The status of a group is `FAILED` if that of a member is, else `RESOLVED` if that of a member
  -- is, else `OK`, and to report it changes nothing, if queries leave what is stored and each
  -- member can be looked up.
  pub get_resource_group_status-worst :
      (group : Value) (rs : Items) (w : D.World) (vs : List Value)
      → group_members file D group ≡ ok rs
      → statuses rs w ≡ ok vs
      → get_resource_group_status file D group w ≡ (ok (worst vs), w)
  unfolding get_resource_group_status
  get_resource_group_status-worst group rs w vs members known =
      rw (members, continue) (group_status_worst rs false w vs known)
