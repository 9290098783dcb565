-- ===== src/Progress/History.antt =====
-- packages/persistence/src/workforce_persistence/progress_repository.py: the reading of the history.
use tasks_management.Base.{
  List, String, first_rows, length, list_eq, ltb, map, max, min, nat_eq, option_eq, select, sort,
  string_eq, ℕ, ◌&&◌, ◌++◌, ◌-◌, ◌==◌,
}
use tasks_management.Progress.Rows.{ProgressDb, TaskProgressEvent, TaskProgressSnapshot}

-- `load_history_records`: a record is an event or a snapshot
pub data HistoryRecord (F : Type 0) : Type 0 where
  progress_event : TaskProgressEvent F → HistoryRecord F
  task_snapshot : TaskProgressSnapshot F → HistoryRecord F

abbrev pub bounded_limit : ℕ → ℕ
bounded_limit limit = max 1 (min limit 500)

-- `order_by(....desc()).limit(...)`
abbrev pub newest : {A : Type 0} → (A → ℕ) → ℕ → List A → List A
newest at limit rows = first_rows limit (sort (λ a b. ltb (at b) (at a)) rows)

module _ {F : Type 0} where
  unfoldable pub load_history_records : String → String → ℕ → ProgressDb F → List (HistoryRecord F)
  load_history_records environment project_key limit db =
      let events =
        newest (λ e. e.occurred_at) (bounded_limit limit)
          (select (λ e. e.environment == environment && e.project_key == project_key) db.events) in
      let snapshots =
        newest (λ x. x.observation.captured_at) (bounded_limit limit - length events)
          (select (λ x. x.environment == environment && x.observation.project_key == project_key)
            db.snapshots) in
      map progress_event events ++ map task_snapshot snapshots
