-- ===== src/Scoring/Overload.antt =====
-- domain/workforce_risk/scoring/overload.py, score_employee_overload.
use mathlib.Core.Option
use tasks_management.Base.{
  List, Option, Result, String, [], if◌then◌else◌, none, ok, some, ℕ, ◌>>=◌, ◌∷◌,
}
use tasks_management.Risk.{ConfidenceLevel, insufficient_data}
use tasks_management.Scoring.{
  FactorConfiguration, Floats, RiskResult, ScoreFamilyConfiguration, checked, get_or,
  normalize_capped, quotient,
}
use tasks_management.Scoring.Family.{
  Subject, Tally, contribution, counted, empty_tally, insufficient, scored, with_factor,
  with_missing,
}

pub record EmployeeOverloadInput (F : Type 0) : Type 0 where
  pub employee_id : String
  pub environment : String
  pub remaining_estimated_hours : Option F
  pub available_capacity_hours : Option F
  pub overdue_tasks : Option ℕ
  pub blocked_or_blocking_tasks : Option ℕ
  pub urgent_high_priority_tasks : Option ℕ
  pub due_soon_tasks : Option ℕ
  pub active_tasks : Option ℕ
  pub concurrent_projects : Option ℕ
  pub stale_tasks : Option ℕ
  pub evidence_timestamp : ℕ
  pub evidence_references : List (String × List String)

-- FACTOR_INPUTS
unfoldable pub factor_inputs : List (String × String)
factor_inputs =
    ("overdue_work", "overdue_tasks")
    ∷ ("blocked_work", "blocked_or_blocking_tasks")
    ∷ ("priority_load", "urgent_high_priority_tasks")
    ∷ ("due_soon_load", "due_soon_tasks")
    ∷ ("active_task_count", "active_tasks")
    ∷ ("concurrent_projects", "concurrent_projects")
    ∷ ("stale_work", "stale_tasks")
    ∷ []

-- `missing_mandatory`
unfoldable pub missing_mandatory : {A : Type 0} → Option A → Option A → List String
missing_mandatory (some r) (some c) = []
missing_mandatory none (some c) = "remaining_estimated_hours" ∷ []
missing_mandatory (some r) none = "available_capacity_hours" ∷ []
missing_mandatory none none = "remaining_estimated_hours" ∷ "available_capacity_hours" ∷ []

abbrev pub subject_of : {F : Type 0} → EmployeeOverloadInput F → List (String × ℕ) → ℕ → Subject
subject_of input_data thresholds scored_at = record {
  subject_id = input_data.employee_id;
  environment = input_data.environment;
  evidence_timestamp = input_data.evidence_timestamp;
  scored_at = scored_at;
  thresholds = thresholds;
}

module _ {F : Type 0} (fl : Floats F) where
  -- `_confidence`
  unfoldable pub confidence : F → ConfidenceLevel
  confidence coverage =
      if fl.le fl.nine_tenths coverage
      then ConfidenceLevel.high
      else if fl.le fl.three_quarters coverage
      then ConfidenceLevel.medium
      else if fl.le fl.six_tenths coverage
      then ConfidenceLevel.low
      else insufficient_data

  abbrev pub count : Option ℕ → Option F
  count n = Option.map fl.of_count n

  -- `raw_values`, with the quotient `remaining / capacity`
  unfoldable pub raw_values : EmployeeOverloadInput F → F → List (String × Option F)
  raw_values i utilization =
      ("utilization", some utilization)
      ∷ ("overdue_work", count i.overdue_tasks)
      ∷ ("blocked_work", count i.blocked_or_blocking_tasks)
      ∷ ("priority_load", count i.urgent_high_priority_tasks)
      ∷ ("due_soon_load", count i.due_soon_tasks)
      ∷ ("active_task_count", count i.active_tasks)
      ∷ ("concurrent_projects", count i.concurrent_projects)
      ∷ ("stale_work", count i.stale_tasks)
      ∷ []

  -- one round of the loop
  unfoldable pub overload_step :
      String → FactorConfiguration F → Option F → List String → Tally F → Result (Tally F)
  overload_step name settings none references t =
      ok (with_missing fl (get_or name name factor_inputs) t)
  overload_step name settings (some v) references t = do
    normalized ← normalize_capped fl v settings.normalization_cap
    c ← checked fl (contribution fl name v normalized settings references)
    ok (with_factor fl c t)

  unfoldable pub overload_loop :
      List (String × Option F)
      → List (String × List String)
      → List (String × FactorConfiguration F)
      → Tally F
      → Result (Tally F)
  overload_loop values refs [] t = ok t
  overload_loop values refs ((name, settings) ∷ rest) t =
      let references = get_or [] name refs in
      do
        t' ← overload_step name settings (counted (get_or none name values) references) references t
        overload_loop values refs rest t'

  -- from the age of the evidence on, when both mandatory values are there
  unfoldable pub score_hours :
      EmployeeOverloadInput F → F → F → ScoreFamilyConfiguration F → Subject → Result (RiskResult F)
  score_hours input_data remaining capacity config s =
      if fl.lt config.max_evidence_age_hours (fl.hours_between s.evidence_timestamp s.scored_at)
      then ok (insufficient s config.version [] ("stale_evidence" ∷ []))
      else do
        utilization ← quotient fl remaining capacity
        t ←
            overload_loop (raw_values input_data utilization) input_data.evidence_references
              config.factors (empty_tally fl)
        scored fl s config.version (confidence t.coverage) t

  abbrev pub score_mandatory :
      EmployeeOverloadInput F
      → Option F
      → Option F
      → ScoreFamilyConfiguration F
      → Subject
      → Result (RiskResult F)
  score_mandatory input_data (some remaining) (some capacity) config s =
      score_hours input_data remaining capacity config s
  score_mandatory input_data remaining capacity config s =
      ok (insufficient s config.version (missing_mandatory remaining capacity) [])

  unfoldable pub score_employee_overload :
      EmployeeOverloadInput F
      → ScoreFamilyConfiguration F
      → List (String × ℕ)
      → ℕ
      → Result (RiskResult F)
  score_employee_overload input_data config thresholds scored_at =
      score_mandatory input_data input_data.remaining_estimated_hours
        input_data.available_capacity_hours config (subject_of input_data thresholds scored_at)
