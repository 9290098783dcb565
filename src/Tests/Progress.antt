-- ===== src/Tests/Progress.antt =====
-- A task that goes from one state to another and back.
use tasks_management.Base.{
  String, [], any, ap, contains, eqb, false, find_first, list_eq, ltb, nat_eq, none, ok, option_eq,
  refl, some, string_eq, update_first, ℕ, ◌/◌, ◌==◌, ◌∷◌, ◌≡◌, ◌≢◌,
}
use tasks_management.Progress.{
  ProgressRuntime, TaskProgressObservation, canonical_state, derive_progress_events, exceeds,
  fingerprint, is_done, time_event,
}
use tasks_management.Progress.Repository.{
  add_event, add_events, add_snapshot, is_state, moved_state, record_all, record_in_week,
  record_observations, record_one, save_state, work_week,
}
use tasks_management.Progress.Rows.{
  ProgressDb, ProgressPersistenceResult, Recorded, integrity_error,
}
use tasks_management.Progress.Repeats.{record_observations_again}
use tasks_management.Progress.Returns.{record_all-returning}

abbrev runtime : ProgressRuntime ℕ
runtime = record {
  same = eqb;
  lt = ltb;
  casefold = λ s. s;
  state_digest = λ s. s.status;
  event_digest = λ m. m.event_type;
  local_date = λ zone t. t / 86400;
}

abbrev uuid : ℕ → String
uuid n = "id"

abbrev observed : String → ℕ → TaskProgressObservation ℕ
observed status captured_at = record {
  project_key = "WRD";
  issue_key = "WRD-1";
  assignee_id = none;
  captured_at = captured_at;
  jira_updated_at = captured_at;
  status = status;
  original_estimate_hours = some 8;
  remaining_estimate_hours = some 8;
  time_spent_hours = none;
  due_date = none;
  priority = none;
  blocked = false;
  blocker_issue_keys = [];
}

abbrev empty : ProgressDb ℕ
empty = record { weeks = []; states = []; snapshots = []; events = [] }

abbrev begun : Recorded ℕ
begun = record { db = empty; drawn = 0; snapshots_created = 0; events_created = 0 }

recorded_once :
    (x : ProgressPersistenceResult × ProgressDb ℕ) × (record_observations runtime uuid "dev" "UTC"
        (observed "open" 5 ∷ [])
        empty
      ≡ ok x)
unfolding record_observations record_all record_one work_week record_in_week add_snapshot save_state
    add_events find_first any fingerprint canonical_state
recorded_once = (_, refl)

record_observations_again_example :
    record_observations runtime uuid "dev" "UTC" (observed "open" 5 ∷ []) recorded_once.0.1
    ≡ ok (record { observed = 1; snapshots_created = 0; events_created = 0 }, recorded_once.0.1)
record_observations_again_example =
    record_observations_again runtime uuid "dev" "UTC" (observed "open" 5) empty recorded_once.0.1
      recorded_once.0.0 (refl, refl, refl) recorded_once.1

recorded_twice :
    (t : Recorded ℕ) × (record_all runtime uuid "dev" "UTC"
        (observed "open" 5 ∷ observed "review" 6 ∷ [])
        begun
      ≡ ok t)
unfolding record_all record_one work_week record_in_week add_snapshot save_state add_events
    add_event find_first update_first moved_state any fingerprint canonical_state
    derive_progress_events time_event exceeds is_done contains
recorded_twice = (_, refl)

other_digest : fingerprint runtime (observed "review" 6) ≢ fingerprint runtime (observed "open" 5)
unfolding fingerprint canonical_state
other_digest h = cc (ap (λ s. s == "open") h)

same_digest : fingerprint runtime (observed "open" 7) ≡ fingerprint runtime (observed "open" 5)
unfolding fingerprint canonical_state
same_digest = refl

none_yet : find_first (is_state runtime uuid "dev" (observed "open" 5)) begun.db.states ≡ none
unfolding find_first
none_yet = refl

record_all-returning_example :
    record_one runtime uuid "dev" "UTC" (observed "open" 7) recorded_twice.0
    ≡ integrity_error "uq_task_snapshot_env_issue_week_fingerprint"
record_all-returning_example =
    record_all-returning runtime uuid "dev" "UTC" (observed "open" 5) (observed "review" 6)
      (observed "open" 7) begun recorded_twice.0 (refl, refl, refl) (refl, refl, refl) other_digest
      same_digest none_yet recorded_twice.1
