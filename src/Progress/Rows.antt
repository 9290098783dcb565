-- ===== src/Progress/Rows.antt =====
-- packages/persistence/src/workforce_persistence/models.py: the rows of the progress tables, and what a recording counts.
use tasks_management.Base.{List, Option, Result, String, err, runtime_error, ℕ}
use tasks_management.Progress.{TaskProgressObservation, Value}

pub record WorkWeek : Type 0 where
  pub id : String
  pub environment : String
  pub created_at : ℕ
  pub project_key : String
  pub week_start : ℕ
  pub week_end : ℕ

pub record TaskCurrentState (F : Type 0) : Type 0 where
  pub id : String
  pub environment : String
  pub created_at : ℕ
  pub project_key : String
  pub issue_key : String
  pub work_week_id : String
  pub evidence_fingerprint : String
  pub last_observed_at : ℕ
  pub jira_updated_at : ℕ
  pub last_structured_progress_at : Option ℕ
  pub state : TaskProgressObservation F

-- the columns that a snapshot copies from the observation are in `observation`
pub record TaskProgressSnapshot (F : Type 0) : Type 0 where
  pub id : String
  pub environment : String
  pub created_at : ℕ
  pub work_week_id : String
  pub observation : TaskProgressObservation F
  pub source : String
  pub evidence_fingerprint : String

pub record TaskProgressEvent (F : Type 0) : Type 0 where
  pub id : String
  pub environment : String
  pub created_at : ℕ
  pub work_week_id : String
  pub project_key : String
  pub issue_key : String
  pub employee_id : Option String
  pub event_type : String
  pub occurred_at : ℕ
  pub old_value : Value F
  pub new_value : Value F
  pub source : String
  pub event_fingerprint : String

pub record ProgressDb (F : Type 0) : Type 0 where
  pub weeks : List WorkWeek
  pub states : List (TaskCurrentState F)
  pub snapshots : List (TaskProgressSnapshot F)
  pub events : List (TaskProgressEvent F)

-- the tables, how many identifiers were drawn, and the two counters of `record_observations`
pub record Recorded (F : Type 0) : Type 0 where
  pub db : ProgressDb F
  pub drawn : ℕ
  pub snapshots_created : ℕ
  pub events_created : ℕ

pub record ProgressPersistenceResult : Type 0 where
  pub observed : ℕ
  pub snapshots_created : ℕ
  pub events_created : ℕ

abbrev pub integrity_error {ℓ} : {A : Type ℓ} → String → Result A
integrity_error constraint = err (runtime_error constraint)
