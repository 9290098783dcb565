-- ===== src/Progress/Returns.antt =====
-- A task that goes back, within a week, to a state that was recorded before.
use tasks_management.Base.{
  ==_eq, ==_refl, Bool, Bool-cases, List, Option, Option-cases, String, [], any, any-append,
  any-last, ap, false, find_first, inl, inr, list_eq, nat_eq, none, ok, ok-injective,
  on_success_inv, option_eq, refl, some, string_eq, subst, sym, true, ℕ, ◌&&◌, ◌==◌, ◌∙◌, ◌∷◌, ◌≡◌,
  ◌≢◌,
}
use tasks_management.Progress.{
  DerivedProgressEvent, ProgressRuntime, TaskProgressObservation, fingerprint,
}
use tasks_management.Progress.Repository.{
  add_event, add_events, add_snapshot, add_snapshot_if, events_since, has_event_digest, has_moved,
  is_snapshot, is_state, is_week, last_progress, material, record_all, record_in_week, record_one,
  save_state, week_start_of, work_week,
}
use tasks_management.Progress.Rows.{
  Recorded, TaskCurrentState, TaskProgressSnapshot, WorkWeek, integrity_error,
}
use tasks_management.Progress.Recording.{record_one-IsSettledIn, work_week-found}

not_same : (a b : String) → a ≢ b → (a == b) ≡ false
not_same a b h = elim (Bool-cases (a == b)) [ inl t ↦ absurd (h (==_eq {a = a} t)) | inr f ↦ f ]

module _ {F : Type 0} (r : ProgressRuntime F) (uuid : ℕ → String) (environment : String) where
  -- the table has a snapshot of the observation in the week
  abbrev pub HasSnapshot : TaskProgressObservation F → String → Recorded F → Type 0
  HasSnapshot o week_id s =
      any (is_snapshot r uuid environment o week_id (fingerprint r o)) s.db.snapshots ≡ true

  -- no snapshot is lost
  abbrev pub Keeps : Recorded F → Recorded F → Type 0
  Keeps s t =
      (p : TaskProgressSnapshot F → Bool)
      → any p s.db.snapshots ≡ true
      → any p t.db.snapshots ≡ true

  add_snapshot-HasSnapshot :
      (o : TaskProgressObservation F) (week_id : String) (s t : Recorded F)
      → add_snapshot r uuid environment o week_id s ≡ ok t
      → HasSnapshot o week_id t × Keeps s t
  unfolding add_snapshot
  add_snapshot-HasSnapshot o week_id s t h =
      elim (Bool-cases
        (any (is_snapshot r uuid environment o week_id (fingerprint r o)) s.db.snapshots)) [
          | inl taken ↦ absurd (cc (rw taken at h))
          | inr free ↦
              let same = ap (λ x. x.db.snapshots) (ok-injective (rw free at h)) in
              (
                rw (← same) (
                    any-last _ s.db.snapshots _ (
                      rw
                        (
                          ==_refl environment,
                          ==_refl o.project_key,
                          ==_refl o.issue_key,
                          ==_refl week_id,
                          ==_refl (fingerprint r o),
                        )
                        refl)),
                λ p k. rw (← same) (any-append p s.db.snapshots _ k),
              )
        ]

  add_snapshot_if-Keeps :
      (b : Bool) (o : TaskProgressObservation F) (week_id : String) (s t : Recorded F)
      → add_snapshot_if r uuid environment b o week_id s ≡ ok t
      → Keeps s t
  add_snapshot_if-Keeps true o week_id s t h = (add_snapshot-HasSnapshot o week_id s t h).1
  add_snapshot_if-Keeps false o week_id s t h =
      λ p k. subst (λ x. any p x.db.snapshots ≡ true) (ok-injective h) k

  add_events-snapshots :
      (o : TaskProgressObservation F) (week_id : String) (es : List (DerivedProgressEvent F))
      (s t : Recorded F)
      → add_events r uuid environment o week_id es s ≡ ok t
      → t.db.snapshots ≡ s.db.snapshots
  unfolding add_events add_event
  add_events-snapshots o week_id [] s t h = sym (ap (λ x. x.db.snapshots) (ok-injective h))
  add_events-snapshots o week_id (e ∷ es) s t h =
      let (u, first, rest) = on_success_inv _ (add_event r uuid environment o week_id e s) t h in
      elim (Bool-cases (
        any (has_event_digest r uuid environment (r.event_digest (material r uuid environment o e)))
          s.db.events)) [
            | inl taken ↦ absurd (cc (rw taken at first))
            | inr free ↦
                add_events-snapshots o week_id es u t rest
                ∙ sym (ap (λ x. x.db.snapshots) (ok-injective (rw free at first)))
          ]

  save_state-snapshots :
      (o : TaskProgressObservation F) (week_id : String) (current : Option (TaskCurrentState F))
      (progress : Option ℕ) (s : Recorded F)
      → (save_state r uuid environment o week_id current progress s).db.snapshots ≡ s.db.snapshots
  unfolding save_state
  save_state-snapshots o week_id none progress s = refl
  save_state-snapshots o week_id (some c) progress s = refl

  -- the first observation of a task leaves its snapshot, and none is lost by a later one
  record_in_week-Keeps :
      (o : TaskProgressObservation F) (week_id : String) (current : Option (TaskCurrentState F))
      (s t : Recorded F)
      → record_in_week r uuid environment o week_id current s ≡ ok t
      → Keeps s t
  unfolding record_in_week
  record_in_week-Keeps o week_id current s t h =
      let events = events_since r uuid environment current o in
      let (next, snapped, added) =
        on_success_inv _
          (add_snapshot_if r uuid environment (has_moved r uuid environment current week_id o) o
            week_id s)
          t h in
      let kept : t.db.snapshots ≡ next.db.snapshots =
        add_events-snapshots o week_id events _ t added
        ∙ save_state-snapshots o week_id current (last_progress r uuid environment current events o)
            next in
      λ p k. rw kept (add_snapshot_if-Keeps _ o week_id s next snapped p k)

  record_in_week-HasSnapshot :
      (o : TaskProgressObservation F) (week_id : String) (s t : Recorded F)
      → record_in_week r uuid environment o week_id none s ≡ ok t
      → HasSnapshot o week_id t
  unfolding record_in_week
  record_in_week-HasSnapshot o week_id s t h =
      let (next, snapped, added) =
        on_success_inv _ (add_snapshot r uuid environment o week_id s) t h in
      let kept : t.db.snapshots ≡ next.db.snapshots =
        add_events-snapshots o week_id [] _ t added
        ∙ save_state-snapshots o week_id none (some o.jira_updated_at) next in
      rw kept (add_snapshot-HasSnapshot o week_id s next snapped).0

  -- two observations of one task in one week
  abbrev pub SameWork : String → TaskProgressObservation F → TaskProgressObservation F → Type 0
  SameWork timezone a b =
      (b.project_key ≡ a.project_key)
      × (b.issue_key ≡ a.issue_key)
      × (week_start_of r uuid environment timezone b ≡ week_start_of r uuid environment timezone a)

  work_week-same :
      (timezone : String) (a b : TaskProgressObservation F) (s : Recorded F) (w : WorkWeek)
      → SameWork timezone a b
      → find_first
          (is_week r uuid environment a (week_start_of r uuid environment timezone a))
          s.db.weeks
        ≡ some w
      → work_week r uuid environment timezone b s ≡ (w, s)
  unfolding work_week
  work_week-same timezone a b s w (project, issue, week) found = rw (project, week, found) refl

  work_week-snapshots :
      (timezone : String) (o : TaskProgressObservation F) (s : Recorded F)
      → (work_week r uuid environment timezone o s).1.db.snapshots ≡ s.db.snapshots
  unfolding work_week
  work_week-snapshots timezone o s =
      elim (Option-cases (
        find_first (is_week r uuid environment o (week_start_of r uuid environment timezone o))
          s.db.weeks)) [ inr (w, found) ↦ rw found refl | inl missing ↦ rw missing refl ]

  record_one-begun :
      (timezone : String) (o : TaskProgressObservation F) (s t : Recorded F)
      → record_one r uuid environment timezone o s ≡ ok t
      → record_in_week r uuid environment o
          (work_week r uuid environment timezone o s).0.id
          (find_first
            (is_state r uuid environment o)
            (work_week r uuid environment timezone o s).1.db.states)
          (work_week r uuid environment timezone o s).1
        ≡ ok t
  unfolding record_one
  record_one-begun timezone o s t h = h

  -- a task seen for the first time
  first_seen :
      (timezone : String) (a : TaskProgressObservation F) (s t : Recorded F)
      → find_first (is_state r uuid environment a) s.db.states ≡ none
      → record_one r uuid environment timezone a s ≡ ok t
      → HasSnapshot a (work_week r uuid environment timezone a s).0.id t
  first_seen timezone a s t missing h =
      let (w, begun) = work_week r uuid environment timezone a s in
      let (week, kept) = work_week-found r uuid environment timezone a s in
      let still : find_first (is_state r uuid environment a) begun.db.states ≡ none =
        ap (find_first (is_state r uuid environment a)) kept ∙ missing in
      record_in_week-HasSnapshot a w.id begun t (rw still at (record_one-begun timezone a s t h))

  abbrev names : String → String → TaskCurrentState F → Bool
  names project issue c =
      c.environment == environment && c.project_key == project && c.issue_key == issue

  state_same :
      (timezone : String) (a b : TaskProgressObservation F) (xs : List (TaskCurrentState F))
      → SameWork timezone a b
      → find_first (is_state r uuid environment b) xs
        ≡ find_first (is_state r uuid environment a) xs
  state_same timezone a b xs (project, issue, week) =
      ap (λ p. find_first (names p b.issue_key) xs) project
      ∙ ap (λ i. find_first (names a.project_key i) xs) issue

  abbrev starts : String → ℕ → WorkWeek → Bool
  starts project start w =
      w.environment == environment && w.project_key == project && w.week_start == start

  week_same :
      (timezone : String) (a b : TaskProgressObservation F) (xs : List WorkWeek)
      → SameWork timezone a b
      → find_first (is_week r uuid environment a (week_start_of r uuid environment timezone a)) xs
        ≡ find_first (is_week r uuid environment b (week_start_of r uuid environment timezone b)) xs
  week_same timezone a b xs (project, issue, week) = sym (
      ap (λ p. find_first (starts p (week_start_of r uuid environment timezone b)) xs) project
      ∙ ap (λ n. find_first (starts a.project_key n) xs) week)

  abbrev shot : String → String → String → String → TaskProgressSnapshot F → Bool
  shot project issue week_id digest x =
      x.environment == environment
      && x.observation.project_key == project
      && x.observation.issue_key == issue
      && x.work_week_id == week_id
      && x.evidence_fingerprint == digest

  snapshot_same :
      (timezone : String) (a b : TaskProgressObservation F) (week_id : String)
      (xs : List (TaskProgressSnapshot F))
      → SameWork timezone a b
      → fingerprint r b ≡ fingerprint r a
      → any (is_snapshot r uuid environment b week_id (fingerprint r b)) xs
        ≡ any (is_snapshot r uuid environment a week_id (fingerprint r a)) xs
  snapshot_same timezone a b week_id xs (project, issue, week) same =
      ap (λ p. any (shot p b.issue_key week_id (fingerprint r b)) xs) project
      ∙ ap (λ i. any (shot a.project_key i week_id (fingerprint r b)) xs) issue
      ∙ ap (λ d. any (shot a.project_key a.issue_key week_id d) xs) same

  record_one-Keeps :
      (timezone : String) (o : TaskProgressObservation F) (s t : Recorded F)
      → record_one r uuid environment timezone o s ≡ ok t
      → Keeps s t
  record_one-Keeps timezone o s t h p k =
      let (w, begun) = work_week r uuid environment timezone o s in
      record_in_week-Keeps o w.id (find_first (is_state r uuid environment o) begun.db.states) begun
        t (record_one-begun timezone o s t h) p (rw (work_week-snapshots timezone o s) k)

  -- the third observation, when the state is another one and the snapshot is there
  refused :
      (timezone : String) (a c : TaskProgressObservation F) (s : Recorded F) (w : WorkWeek)
      (current : TaskCurrentState F)
      → SameWork timezone a c
      → fingerprint r c ≡ fingerprint r a
      → find_first
          (is_week r uuid environment a (week_start_of r uuid environment timezone a))
          s.db.weeks
        ≡ some w
      → find_first (is_state r uuid environment a) s.db.states ≡ some current
      → current.evidence_fingerprint ≢ fingerprint r a
      → HasSnapshot a w.id s
      → record_one r uuid environment timezone c s
        ≡ integrity_error "uq_task_snapshot_env_issue_week_fingerprint"
  unfolding record_one record_in_week add_snapshot
  refused timezone a c s w current (project, issue, week) same found state other there =
      let moved : (current.evidence_fingerprint == fingerprint r c) ≡ false =
        not_same current.evidence_fingerprint (fingerprint r c) (λ e. other (e ∙ same)) in
      let state' = state_same timezone a c s.db.states (project, issue, week) ∙ state in
      let there' =
        snapshot_same timezone a c w.id s.db.snapshots (project, issue, week) same ∙ there in
      rw (work_week-same timezone a c s w (project, issue, week) found, state', moved, there') refl

  -- A task that was first seen in one state and is then recorded in another cannot go back to the first within the week: if
  -- the first two recordings succeed, the third fails, since the snapshot of the first is still there.
  pub record_all-returning :
      (timezone : String) (a b c : TaskProgressObservation F) (s t : Recorded F)
      → SameWork timezone a b
      → SameWork timezone a c
      → fingerprint r b ≢ fingerprint r a
      → fingerprint r c ≡ fingerprint r a
      → find_first (is_state r uuid environment a) s.db.states ≡ none
      → record_all r uuid environment timezone (a ∷ b ∷ []) s ≡ ok t
      → record_one r uuid environment timezone c t
        ≡ integrity_error "uq_task_snapshot_env_issue_week_fingerprint"
  unfolding record_all
  record_all-returning timezone a b c s t same_b same_c differs back missing h =
      let (u, first, rest) = on_success_inv _ (record_one r uuid environment timezone a s) t h in
      let (v, second, last) =
        on_success_inv _ (record_one r uuid environment timezone b u) t rest in
      let end : v ≡ t = ok-injective last in
      let w = (work_week r uuid environment timezone a s).0 in
      let (row, week, found, saved) =
        record_one-IsSettledIn r uuid environment timezone a s u first in
      let again = work_week-same timezone a b u w same_b week in
      let (row', week', found', saved') =
        record_one-IsSettledIn r uuid environment timezone b u v second in
      let kept : HasSnapshot a w.id v =
        record_one-Keeps timezone b u v second _ (first_seen timezone a s u missing first) in
      subst
        (λ x.
          record_one r uuid environment timezone c x
          ≡ integrity_error "uq_task_snapshot_env_issue_week_fingerprint")
        end
        (refused timezone a c v w row' same_c back
          (week_same timezone a b v.db.weeks same_b ∙ week' ∙ ap (λ x. some x.0) again)
          (sym (state_same timezone a b v.db.states same_b) ∙ found')
          (λ e. differs (sym saved'.1 ∙ e)) kept)
