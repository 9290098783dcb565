-- ===== src/Progress/Repository.antt =====
-- TaskProgressRepository of packages/persistence/src/workforce_persistence/progress_repository.py.
-- The JSON of an observation is the observation. What a flush refuses for a unique constraint is an error of the call.
use tasks_management.Base.{
  Bool, List, Option, Result, String, [], any, false, find_first, if◌then◌else◌, length, list_eq,
  nat_eq, none, not, ok, option_eq, some, string_eq, true, update_first, ℕ, ◌%◌, ◌&&◌, ◌++◌, ◌+◌,
  ◌-◌, ◌==◌, ◌>>=◌, ◌||◌, ◌∷◌,
}
use tasks_management.Progress.{
  DerivedProgressEvent, EventMaterial, ProgressRuntime, TaskProgressObservation,
  derive_progress_events, fingerprint,
}
use tasks_management.Progress.Rows.{
  ProgressDb, ProgressPersistenceResult, Recorded, TaskCurrentState, TaskProgressEvent,
  TaskProgressSnapshot, WorkWeek, integrity_error,
}

module _ {F : Type 0} (r : ProgressRuntime F) (uuid : ℕ → String) (environment : String) where
  abbrev pub week_start_of : String → TaskProgressObservation F → ℕ
  week_start_of timezone o =
      let local_date = r.local_date timezone o.captured_at in local_date - local_date % 7

  abbrev pub is_week : TaskProgressObservation F → ℕ → WorkWeek → Bool
  is_week o week_start w =
      w.environment == environment && w.project_key == o.project_key && w.week_start == week_start

  abbrev pub new_week : TaskProgressObservation F → ℕ → ℕ → WorkWeek
  new_week o week_start drawn = record {
    id = uuid drawn;
    environment = environment;
    created_at = o.captured_at;
    project_key = o.project_key;
    week_start = week_start;
    week_end = week_start + 4;
  }

  abbrev week_or :
      TaskProgressObservation F → ℕ → Option WorkWeek → Recorded F → WorkWeek × Recorded F
  week_or o week_start (some w) s = (w, s)
  week_or o week_start none s = (
    new_week o week_start s.drawn,
    record s {
      db = record s.db { weeks = s.db.weeks ++ new_week o week_start s.drawn ∷ [] };
      drawn = s.drawn + 1;
    },
  )

  -- `_work_week`
  unfoldable pub work_week : String → TaskProgressObservation F → Recorded F → WorkWeek × Recorded F
  work_week timezone o s =
      let week_start = week_start_of timezone o in
      week_or o week_start (find_first (is_week o week_start) s.db.weeks) s

  abbrev pub is_state : TaskProgressObservation F → TaskCurrentState F → Bool
  is_state o c =
      c.environment == environment && c.project_key == o.project_key && c.issue_key == o.issue_key

  -- the unique constraint of the snapshots
  abbrev pub is_snapshot :
      TaskProgressObservation F → String → String → TaskProgressSnapshot F → Bool
  is_snapshot o week_id digest x =
      x.environment == environment
      && x.observation.project_key == o.project_key
      && x.observation.issue_key == o.issue_key
      && x.work_week_id == week_id
      && x.evidence_fingerprint == digest

  unfoldable pub add_snapshot :
      TaskProgressObservation F → String → Recorded F → Result (Recorded F)
  add_snapshot o week_id s =
      if any (is_snapshot o week_id (fingerprint r o)) s.db.snapshots
      then integrity_error "uq_task_snapshot_env_issue_week_fingerprint"
      else ok (record s {
        db = record s.db {
          snapshots =
              s.db.snapshots
              ++ record {
                id = uuid s.drawn;
                environment = environment;
                created_at = o.captured_at;
                work_week_id = week_id;
                observation = o;
                source = "jira";
                evidence_fingerprint = fingerprint r o;
              }
                ∷ [];
        };
        drawn = s.drawn + 1;
        snapshots_created = s.snapshots_created + 1;
      })

  abbrev pub add_snapshot_if :
      Bool → TaskProgressObservation F → String → Recorded F → Result (Recorded F)
  add_snapshot_if true o week_id s = add_snapshot o week_id s
  add_snapshot_if false o week_id s = ok s

  abbrev pub shows_progress : List (DerivedProgressEvent F) → Bool
  shows_progress events = any (λ e. e.structured_progress) events

  abbrev pub last_progress :
      Option (TaskCurrentState F)
      → List (DerivedProgressEvent F)
      → TaskProgressObservation F
      → Option ℕ
  last_progress none events o = some o.jira_updated_at
  last_progress (some c) events o =
      if shows_progress events then some o.jira_updated_at else c.last_structured_progress_at

  unfoldable pub moved_state :
      TaskProgressObservation F → String → Option ℕ → TaskCurrentState F → TaskCurrentState F
  moved_state o week_id progress c = record c {
    work_week_id = week_id;
    evidence_fingerprint = fingerprint r o;
    last_observed_at = o.captured_at;
    jira_updated_at = o.jira_updated_at;
    last_structured_progress_at = progress;
    state = o;
  }

  abbrev pub new_state : TaskProgressObservation F → String → Option ℕ → ℕ → TaskCurrentState F
  new_state o week_id progress drawn = record {
    id = uuid drawn;
    environment = environment;
    created_at = o.captured_at;
    project_key = o.project_key;
    issue_key = o.issue_key;
    work_week_id = week_id;
    evidence_fingerprint = fingerprint r o;
    last_observed_at = o.captured_at;
    jira_updated_at = o.jira_updated_at;
    last_structured_progress_at = progress;
    state = o;
  }

  -- the row that was loaded is changed, or a new one is added
  unfoldable pub save_state :
      TaskProgressObservation F
      → String
      → Option (TaskCurrentState F)
      → Option ℕ
      → Recorded F
      → Recorded F
  save_state o week_id (some c) progress s = record s {
    db = record s.db {
      states = update_first (is_state o) (moved_state o week_id progress) s.db.states;
    };
  }
  save_state o week_id none progress s = record s {
    db = record s.db { states = s.db.states ++ new_state o week_id progress s.drawn ∷ [] };
    drawn = s.drawn + 1;
  }

  abbrev pub material : TaskProgressObservation F → DerivedProgressEvent F → EventMaterial F
  material o e = record {
    environment = environment;
    issue_key = o.issue_key;
    event_type = e.event_type;
    occurred_at = o.jira_updated_at;
    old = e.old_value;
    new = e.new_value;
  }

  -- the unique constraint of the events
  abbrev pub has_event_digest : String → TaskProgressEvent F → Bool
  has_event_digest digest x = x.environment == environment && x.event_fingerprint == digest

  unfoldable pub add_event :
      TaskProgressObservation F → String → DerivedProgressEvent F → Recorded F → Result (Recorded F)
  add_event o week_id e s =
      let digest = r.event_digest (material o e) in
      if any (has_event_digest digest) s.db.events
      then integrity_error "uq_task_progress_event_env_fingerprint"
      else ok (record s {
        db = record s.db {
          events =
              s.db.events
              ++ record {
                id = uuid s.drawn;
                environment = environment;
                created_at = o.captured_at;
                work_week_id = week_id;
                project_key = o.project_key;
                issue_key = o.issue_key;
                employee_id = o.assignee_id;
                event_type = e.event_type;
                occurred_at = o.jira_updated_at;
                old_value = e.old_value;
                new_value = e.new_value;
                source = "jira";
                event_fingerprint = digest;
              }
                ∷ [];
        };
        drawn = s.drawn + 1;
        events_created = s.events_created + 1;
      })

  unfoldable pub add_events :
      TaskProgressObservation F
      → String
      → List (DerivedProgressEvent F)
      → Recorded F
      → Result (Recorded F)
  add_events o week_id [] s = ok s
  add_events o week_id (e ∷ es) s = do next ← add_event o week_id e s; add_events o week_id es next

  abbrev pub events_since :
      Option (TaskCurrentState F) → TaskProgressObservation F → List (DerivedProgressEvent F)
  events_since none o = []
  events_since (some c) o = derive_progress_events r c.state o

  -- there is no state yet, or its week or its fingerprint is another
  abbrev pub has_moved : Option (TaskCurrentState F) → String → TaskProgressObservation F → Bool
  has_moved none week_id o = true
  has_moved (some c) week_id o =
      not (c.evidence_fingerprint == fingerprint r o) || not (c.work_week_id == week_id)

  -- one round of the loop of `record_observations`, once the week and the current state are known
  unfoldable pub record_in_week :
      TaskProgressObservation F
      → String
      → Option (TaskCurrentState F)
      → Recorded F
      → Result (Recorded F)
  record_in_week o week_id current s = do
    next ← add_snapshot_if (has_moved current week_id o) o week_id s
    add_events o week_id (events_since current o)
        (save_state o week_id current (last_progress current (events_since current o) o) next)

  unfoldable pub record_one : String → TaskProgressObservation F → Recorded F → Result (Recorded F)
  record_one timezone o s =
      let (w, next) = work_week timezone o s in
      record_in_week o w.id (find_first (is_state o) next.db.states) next

  unfoldable pub record_all :
      String → List (TaskProgressObservation F) → Recorded F → Result (Recorded F)
  record_all timezone [] s = ok s
  record_all timezone (o ∷ os) s = do next ← record_one timezone o s; record_all timezone os next

  abbrev pub counted :
      List (TaskProgressObservation F) → Recorded F → ProgressPersistenceResult × ProgressDb F
  counted observations s = (
    record {
      observed = length observations;
      snapshots_created = s.snapshots_created;
      events_created = s.events_created;
    },
    s.db,
  )

  unfoldable pub record_observations :
      String
      → List (TaskProgressObservation F)
      → ProgressDb F
      → Result (ProgressPersistenceResult × ProgressDb F)
  record_observations timezone observations db = do
    s ←
        record_all timezone observations
          (record { db = db; drawn = 0; snapshots_created = 0; events_created = 0 })
    ok (counted observations s)
