-- ===== src/Progress.antt =====
-- packages/persistence/src/workforce_persistence/progress_repository.py: what is observed of a task, and the events that
-- tell how one observation differs from the one before it. Floats, `str.casefold` and digests are parameters; a date is a
-- number of days.
pub mod Rows
pub mod Repository
pub mod History
pub mod Recording
pub mod Repeats
pub mod Returns
use tasks_management.Base.{
  Bool, List, Option, String, [], any, contains, false, if◌then◌else◌, list_eq, nat_eq, none, not,
  option_beq, option_eq, some, sort, string_eq, string_lt, true, ℕ, ◌&&◌, ◌++◌, ◌==◌, ◌||◌, ◌∷◌,
}
use tasks_management.Scoring.{unique}

pub record TaskProgressObservation (F : Type 0) : Type 0 where
  pub project_key : String
  pub issue_key : String
  pub assignee_id : Option String
  pub captured_at : ℕ
  pub jira_updated_at : ℕ
  pub status : String
  pub original_estimate_hours : Option F
  pub remaining_estimate_hours : Option F
  pub time_spent_hours : Option F
  pub due_date : Option ℕ
  pub priority : Option String
  pub blocked : Bool
  pub blocker_issue_keys : List String

-- the dict that `canonical_state` returns
pub record CanonicalState (F : Type 0) : Type 0 where
  pub project_key : String
  pub issue_key : String
  pub assignee_id : Option String
  pub status : String
  pub original_estimate_hours : Option F
  pub remaining_estimate_hours : Option F
  pub time_spent_hours : Option F
  pub due_date : Option ℕ
  pub priority : Option String
  pub blocked : Bool
  pub blocker_issue_keys : List String

-- the values of an event
pub data Value (F : Type 0) : Type 0 where
  no_value : Value F
  text : String → Value F
  hours : F → Value F
  day : ℕ → Value F
  keys : List String → Value F

pub record DerivedProgressEvent (F : Type 0) : Type 0 where
  pub event_type : String
  pub old_value : Value F
  pub new_value : Value F
  pub structured_progress : Bool

-- what an event's digest covers
pub record EventMaterial (F : Type 0) : Type 0 where
  pub environment : String
  pub issue_key : String
  pub event_type : String
  pub occurred_at : ℕ
  pub old : Value F
  pub new : Value F

-- `==` and `<` of floats, the digests of JSON, and the day that an instant falls on in a time zone, counted from a Monday
pub record ProgressRuntime (F : Type 0) : Type 0 where
  pub same : F → F → Bool
  pub lt : F → F → Bool
  pub casefold : String → String
  pub state_digest : CanonicalState F → String
  pub event_digest : EventMaterial F → String
  pub local_date : String → ℕ → ℕ

-- `sorted(set(keys))`
unfoldable pub sorted_set : List String → List String
sorted_set names = sort string_lt (unique names)

-- `xs - ys` of two sets is not empty
unfoldable pub exceeds : List String → List String → Bool
exceeds xs ys = any (λ x. not (contains x ys)) xs

abbrev pub done_statuses : List String
done_statuses = "done" ∷ "closed" ∷ "resolved" ∷ []

module _ {F : Type 0} where
  abbrev pub hours_of : Option F → Value F
  hours_of none = no_value
  hours_of (some h) = hours h

  abbrev pub text_of : Option String → Value F
  text_of none = no_value
  text_of (some t) = text t

  abbrev pub day_of : Option ℕ → Value F
  day_of none = no_value
  day_of (some d) = day d

  unfoldable pub canonical_state : TaskProgressObservation F → CanonicalState F
  canonical_state o = record {
    project_key = o.project_key;
    issue_key = o.issue_key;
    assignee_id = o.assignee_id;
    status = o.status;
    original_estimate_hours = o.original_estimate_hours;
    remaining_estimate_hours = o.remaining_estimate_hours;
    time_spent_hours = o.time_spent_hours;
    due_date = o.due_date;
    priority = o.priority;
    blocked = o.blocked;
    blocker_issue_keys = sorted_set o.blocker_issue_keys;
  }

  abbrev pub event : String → Value F → Value F → Bool → DerivedProgressEvent F
  event event_type old_value new_value structured_progress = record {
    event_type = event_type;
    old_value = old_value;
    new_value = new_value;
    structured_progress = structured_progress;
  }

  -- `changed` of values that are the same or not
  abbrev pub changed : Bool → String → Value F → Value F → Bool → List (DerivedProgressEvent F)
  changed true event_type old new progress = []
  changed false event_type old new progress = event event_type old new progress ∷ []

  abbrev pub event_if : Bool → String → Value F → Value F → Bool → List (DerivedProgressEvent F)
  event_if true event_type old new progress = event event_type old new progress ∷ []
  event_if false event_type old new progress = []

  module _ (r : ProgressRuntime F) where
    unfoldable pub fingerprint : TaskProgressObservation F → String
    fingerprint o = r.state_digest (canonical_state o)

    -- both are known and the first is less
    unfoldable pub both_lt : Option F → Option F → Bool
    both_lt (some a) (some b) = r.lt a b
    both_lt none b = false
    both_lt (some a) none = false

    -- time was spent: more than before, or for the first time
    unfoldable pub time_increased : Option F → Option F → Bool
    time_increased none none = false
    time_increased none (some b) = true
    time_increased (some a) none = false
    time_increased (some a) (some b) = r.lt a b

    abbrev pub same_hours : Option F → Option F → Bool
    same_hours = option_beq r.same

    unfoldable pub is_done : String → Bool
    is_done status = contains (r.casefold status) done_statuses

    -- the event of time that was spent
    unfoldable pub time_event : Option F → Option F → List (DerivedProgressEvent F)
    time_event old new =
        let increased = time_increased old new in
        changed (same_hours old new) (if increased then "work_logged" else "time_spent_corrected")
          (hours_of old) (hours_of new) increased

    unfoldable pub derive_progress_events :
        TaskProgressObservation F → TaskProgressObservation F → List (DerivedProgressEvent F)
    derive_progress_events p c =
        let old_blockers = keys (sorted_set p.blocker_issue_keys) in
        let new_blockers = keys (sorted_set c.blocker_issue_keys) in
        changed (same_hours p.remaining_estimate_hours c.remaining_estimate_hours)
          "remaining_estimate_changed" (hours_of p.remaining_estimate_hours)
          (hours_of c.remaining_estimate_hours)
          (both_lt c.remaining_estimate_hours p.remaining_estimate_hours)
        ++ time_event p.time_spent_hours c.time_spent_hours
        ++ changed (p.status == c.status) "status_changed" (text p.status) (text c.status) true
        ++ changed (same_hours p.original_estimate_hours c.original_estimate_hours)
            "original_estimate_changed" (hours_of p.original_estimate_hours)
            (hours_of c.original_estimate_hours) false
        ++ changed (p.due_date == c.due_date) "due_date_changed" (day_of p.due_date)
            (day_of c.due_date) false
        ++ changed (p.priority == c.priority) "priority_changed" (text_of p.priority)
            (text_of c.priority) false
        ++ changed (p.assignee_id == c.assignee_id) "assignee_changed" (text_of p.assignee_id)
            (text_of c.assignee_id) false
        ++ event_if
            ((not p.blocked && c.blocked) || exceeds c.blocker_issue_keys p.blocker_issue_keys)
            "blocker_added" old_blockers new_blockers false
        ++ event_if
            ((p.blocked && not c.blocked) || exceeds p.blocker_issue_keys c.blocker_issue_keys)
            "blocker_removed" old_blockers new_blockers false
        ++ event_if (not (is_done p.status) && is_done c.status) "task_completed" (text p.status)
            (text c.status) true
