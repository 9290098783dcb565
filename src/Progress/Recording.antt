-- ===== src/Progress/Recording.antt =====
-- What recording an observation leaves behind, and recording it once more.
use tasks_management.Base.{
  ==_refl, Bool, Bool-cases, List, Option, Option-cases, String, Within, [], any, ap,
  contains-Member, false, find_first, find_first-append, find_first-holds, find_first-single,
  find_first-update_first, inl, inr, list_eq, nat_eq, none, not, ok, ok-injective, on_success_inv,
  option_eq, refl, some, string_eq, subst, sym, true, update_first_idle, ℕ, ◌&&◌, ◌==◌, ◌∙◌, ◌∷◌,
  ◌≡◌,
}
use tasks_management.Progress.Repository.{
  add_event, add_events, add_snapshot, add_snapshot_if, events_since, has_event_digest, has_moved,
  is_snapshot, is_state, is_week, last_progress, material, moved_state, new_state, new_week,
  record_in_week, record_one, save_state, week_start_of, work_week,
}
use tasks_management.Progress.Rows.{ProgressDb, Recorded, TaskCurrentState, WorkWeek}
use tasks_management.Progress.{
  DerivedProgressEvent, ProgressRuntime, TaskProgressObservation, derive_progress_events, exceeds,
  fingerprint, is_done, same_hours, time_event,
}

fresh_false : (b : Bool) → (not b && b) ≡ false
fresh_false true = refl
fresh_false false = refl

gone_false : (b : Bool) → (b && not b) ≡ false
gone_false true = refl
gone_false false = refl

module _ {F : Type 0} (r : ProgressRuntime F) where
  -- none of the observation's hours is NaN
  abbrev pub IsNumeric : TaskProgressObservation F → Type 0
  IsNumeric o =
      (same_hours r o.original_estimate_hours o.original_estimate_hours ≡ true)
      × (same_hours r o.remaining_estimate_hours o.remaining_estimate_hours ≡ true)
      × (same_hours r o.time_spent_hours o.time_spent_hours ≡ true)

  not_beyond : (xs ys : List String) → Within xs ys → exceeds xs ys ≡ false
  unfolding exceeds any
  not_beyond [] ys h = refl
  not_beyond (x ∷ xs) ys h =
      rw (contains-Member x ys (h x (inl refl)), not_beyond xs ys (λ a m. h a (inr m))) refl

  derive_self : (o : TaskProgressObservation F) → IsNumeric o → derive_progress_events r o o ≡ []
  unfolding derive_progress_events time_event
  derive_self o (original, remaining, spent) =
      rw
        (
          original,
          remaining,
          spent,
          ==_refl o.status,
          ==_refl o.due_date,
          ==_refl o.priority,
          ==_refl o.assignee_id,
          not_beyond o.blocker_issue_keys o.blocker_issue_keys (λ a m. m),
        )
        (rw (fresh_false o.blocked, gone_false o.blocked, fresh_false (is_done r o.status)) refl)

  module _ (uuid : ℕ → String) (environment : String) where
    -- the row of an observation that has been recorded in a week
    abbrev pub IsSaved : TaskProgressObservation F → String → TaskCurrentState F → Type 0
    IsSaved o week_id c =
        (c.work_week_id ≡ week_id)
        × (c.evidence_fingerprint ≡ fingerprint r o)
        × (c.last_observed_at ≡ o.captured_at)
        × (c.jira_updated_at ≡ o.jira_updated_at)
        × (c.state ≡ o)

    -- the tables hold the week and the current state of the observation
    abbrev pub IsSettledIn : WorkWeek → String → TaskProgressObservation F → ProgressDb F → Type 0
    IsSettledIn w timezone o db =
        (c : TaskCurrentState F) × (find_first
            (is_week r uuid environment o (week_start_of r uuid environment timezone o)) db.weeks
          ≡ some w)
        × (find_first (is_state r uuid environment o) db.states ≡ some c)
        × IsSaved o w.id c

    abbrev pub IsSettled : String → TaskProgressObservation F → ProgressDb F → Type 0
    IsSettled timezone o db = (w : WorkWeek) × IsSettledIn w timezone o db

    saved_again :
        (o : TaskProgressObservation F) (week_id : String) (c : TaskCurrentState F)
        → IsSaved o week_id c
        → moved_state r uuid environment o week_id c.last_structured_progress_at c ≡ c
    unfolding moved_state
    saved_again o week_id c (week, digest, observed, updated, kept) =
        cc (week, digest, observed, updated, kept)

    record_in_week-saved :
        (o : TaskProgressObservation F) (week_id : String) (c : TaskCurrentState F) (s : Recorded F)
        → IsNumeric o
        → find_first (is_state r uuid environment o) s.db.states ≡ some c
        → IsSaved o week_id c
        → record_in_week r uuid environment o week_id (some c) s ≡ ok s
    unfolding record_in_week add_events save_state any
    record_in_week-saved o week_id c s numeric found saved =
        let (week, digest, observed, updated, kept) = saved in
        let none_since : derive_progress_events r c.state o ≡ [] =
          subst (λ x. derive_progress_events r x o ≡ []) (sym kept) (derive_self o numeric) in
        let idle =
          update_first_idle (is_state r uuid environment o)
            (moved_state r uuid environment o week_id c.last_structured_progress_at) s.db.states c
            found (saved_again o week_id c saved) in
        let same_digest : (c.evidence_fingerprint == fingerprint r o) ≡ true =
          (string_eq.same_iff c.evidence_fingerprint (fingerprint r o)).1 digest in
        let same_week : (c.work_week_id == week_id) ≡ true =
          (string_eq.same_iff c.work_week_id week_id).1 week in
        rw (same_digest, same_week, none_since, idle) refl

    -- Recording what has been recorded changes nothing.
    pub record_one-settled :
        (timezone : String) (o : TaskProgressObservation F) (s : Recorded F)
        → IsNumeric o
        → IsSettled timezone o s.db
        → record_one r uuid environment timezone o s ≡ ok s
    unfolding record_one work_week
    record_one-settled timezone o s numeric (w, (c, week, found, saved)) =
        rw (week, found) (record_in_week-saved o w.id c s numeric found saved)

    -- the weeks and the states are as they were
    abbrev pub IsKept : Recorded F → Recorded F → Type 0
    IsKept s t = (t.db.weeks ≡ s.db.weeks) × (t.db.states ≡ s.db.states)

    add_snapshot_if-IsKept :
        (b : Bool) (o : TaskProgressObservation F) (week_id : String) (s t : Recorded F)
        → add_snapshot_if r uuid environment b o week_id s ≡ ok t
        → IsKept s t
    unfolding add_snapshot
    add_snapshot_if-IsKept false o week_id s t h =
        let same : s ≡ t = ok-injective h in (cc same, cc same)
    add_snapshot_if-IsKept true o week_id s t h =
        elim (Bool-cases
          (any (is_snapshot r uuid environment o week_id (fingerprint r o)) s.db.snapshots)) [
            | inl taken ↦ absurd (cc (rw taken at h))
            | inr free ↦
                let same = ok-injective (rw free at h) in
                (sym (ap (λ x. x.db.weeks) same), sym (ap (λ x. x.db.states) same))
          ]

    add_event-IsKept :
        (o : TaskProgressObservation F) (week_id : String) (e : DerivedProgressEvent F)
        (s t : Recorded F)
        → add_event r uuid environment o week_id e s ≡ ok t
        → IsKept s t
    unfolding add_event
    add_event-IsKept o week_id e s t h =
        elim (Bool-cases (
          any
            (has_event_digest r uuid environment (r.event_digest (material r uuid environment o e)))
            s.db.events)) [
              | inl taken ↦ absurd (cc (rw taken at h))
              | inr free ↦
                  let same = ok-injective (rw free at h) in
                  (sym (ap (λ x. x.db.weeks) same), sym (ap (λ x. x.db.states) same))
            ]

    add_events-IsKept :
        (o : TaskProgressObservation F) (week_id : String) (es : List (DerivedProgressEvent F))
        (s t : Recorded F)
        → add_events r uuid environment o week_id es s ≡ ok t
        → IsKept s t
    unfolding add_events
    add_events-IsKept o week_id [] s t h = let same : s ≡ t = ok-injective h in (cc same, cc same)
    add_events-IsKept o week_id (e ∷ es) s t h =
        let (u, first, rest) = on_success_inv _ (add_event r uuid environment o week_id e s) t h in
        let (weeks, states) = add_event-IsKept o week_id e s u first in
        let (weeks', states') = add_events-IsKept o week_id es u t rest in
        (weeks' ∙ weeks, states' ∙ states)

    moved_state-IsSaved :
        (o : TaskProgressObservation F) (week_id : String) (progress : Option ℕ)
        (c : TaskCurrentState F)
        → IsSaved o week_id (moved_state r uuid environment o week_id progress c)
    unfolding moved_state
    moved_state-IsSaved o week_id progress c = (refl, refl, refl, refl, refl)

    moved_state-is_state :
        (o : TaskProgressObservation F) (week_id : String) (progress : Option ℕ)
        (c : TaskCurrentState F)
        → is_state r uuid environment o (moved_state r uuid environment o week_id progress c)
          ≡ is_state r uuid environment o c
    unfolding moved_state
    moved_state-is_state o week_id progress c = refl

    -- After a state has been saved it is the current one.
    save_state-IsSaved :
        (o : TaskProgressObservation F) (week_id : String) (current : Option (TaskCurrentState F))
        (progress : Option ℕ) (s : Recorded F)
        → find_first (is_state r uuid environment o) s.db.states ≡ current
        → (c : TaskCurrentState F) × (find_first
              (is_state r uuid environment o)
              (save_state r uuid environment o week_id current progress s).db.states
            ≡ some c)
          × IsSaved o week_id c
          × ((save_state r uuid environment o week_id current progress s).db.weeks ≡ s.db.weeks)
    unfolding save_state
    save_state-IsSaved o week_id (some c) progress s found = (
      moved_state r uuid environment o week_id progress c,
      find_first-update_first (is_state r uuid environment o)
          (moved_state r uuid environment o week_id progress) s.db.states c found
          (moved_state-is_state o week_id progress c
            ∙ find_first-holds (is_state r uuid environment o) s.db.states c found),
      moved_state-IsSaved o week_id progress c,
      refl,
    )
    save_state-IsSaved o week_id none progress s found =
        let fresh = new_state r uuid environment o week_id progress s.drawn in
        let holds : is_state r uuid environment o fresh ≡ true =
          rw (==_refl environment, ==_refl o.project_key, ==_refl o.issue_key) refl in
        (
          fresh,
          find_first-append (is_state r uuid environment o) s.db.states (fresh ∷ [])
              ∙ rw found (find_first-single (is_state r uuid environment o) fresh holds),
          (refl, refl, refl, refl, refl),
          refl,
        )

    -- The week of an observation is in the table from then on, and the states stay.
    pub work_week-found :
        (timezone : String) (o : TaskProgressObservation F) (s : Recorded F)
        → (find_first
              (is_week r uuid environment o (week_start_of r uuid environment timezone o))
              (work_week r uuid environment timezone o s).1.db.weeks
            ≡ some (work_week r uuid environment timezone o s).0)
          × ((work_week r uuid environment timezone o s).1.db.states ≡ s.db.states)
    unfolding work_week
    work_week-found timezone o s =
        let start = week_start_of r uuid environment timezone o in
        elim (Option-cases (find_first (is_week r uuid environment o start) s.db.weeks)) [
          | inr (w, found) ↦ rw found (found, refl)
          | inl missing ↦
              let fresh = new_week r uuid environment o start s.drawn in
              let holds : is_week r uuid environment o start fresh ≡ true =
                rw (==_refl environment, ==_refl o.project_key, ==_refl start) refl in
              rw missing (
                find_first-append (is_week r uuid environment o start) s.db.weeks (fresh ∷ [])
                    ∙ rw missing
                        (find_first-single (is_week r uuid environment o start) fresh holds),
                refl,
              )
        ]

    -- What has been recorded is settled.
    pub record_one-IsSettledIn :
        (timezone : String) (o : TaskProgressObservation F) (s t : Recorded F)
        → record_one r uuid environment timezone o s ≡ ok t
        → IsSettledIn (work_week r uuid environment timezone o s).0 timezone o t.db
    unfolding record_one record_in_week
    record_one-IsSettledIn timezone o s t h =
        let (w, begun) = work_week r uuid environment timezone o s in
        let (week, kept) = work_week-found timezone o s in
        let current = find_first (is_state r uuid environment o) begun.db.states in
        let events = events_since r uuid environment current o in
        let progress = last_progress r uuid environment current events o in
        let (next, snapped, added) =
          on_success_inv _
            (add_snapshot_if r uuid environment (has_moved r uuid environment current w.id o) o w.id
              begun)
            t h in
        let (weeks, states) = add_snapshot_if-IsKept _ o w.id begun next snapped in
        let (c, found, saved, same_weeks) =
          save_state-IsSaved o w.id current progress next
            (ap (find_first (is_state r uuid environment o)) states) in
        let (weeks', states') =
          add_events-IsKept o w.id events
            (save_state r uuid environment o w.id current progress next) t added in
        (
          c,
          ap
                (find_first
                  (is_week r uuid environment o (week_start_of r uuid environment timezone o)))
                (weeks' ∙ same_weeks ∙ weeks)
              ∙ week,
          ap (find_first (is_state r uuid environment o)) states' ∙ found,
          saved,
        )

    pub record_one-IsSettled :
        (timezone : String) (o : TaskProgressObservation F) (s t : Recorded F)
        → record_one r uuid environment timezone o s ≡ ok t
        → IsSettled timezone o t.db
    record_one-IsSettled timezone o s t h =
        ((work_week r uuid environment timezone o s).0, record_one-IsSettledIn timezone o s t h)
