-- ===== src/Tests/Scoring.antt =====
-- Two scores, with fixed-point numbers of two decimals for the floats.
use tasks_management.Base.{
  List, Option, String, [], arith, eqb, false, leb, ltb, none, ok, refl, some, true, ℕ, ◌*◌, ◌+◌,
  ◌-◌, ◌/◌, ◌∷◌, ◌≡◌, ◌≤◌,
}
use tasks_management.Scoring.{
  Floats, RiskResult, ScoreFamilyConfiguration, increases_risk, protective,
}
use tasks_management.Scoring.Family.{Subject, score_normalized_family}
use tasks_management.Scoring.Inputs.{TaskFitInput}
use tasks_management.Scoring.Overload.{EmployeeOverloadInput, score_employee_overload}
use tasks_management.Scoring.Bounds.{IsSound, score_normalized_family-IsSound}
use tasks_management.Scoring.OverloadBounds.{score_employee_overload-IsSound}

abbrev total : List ℕ → ℕ
total [] = 0
total (x ∷ xs) = x + total xs

fixed_round_le : (v : ℕ) → ltb 0 v ≡ true → ltb 10000 v ≡ false → v / 100 ≤ 100
fixed_round_le v h k = ground arith

fixed_sub_one :
    (v : ℕ)
    → leb 0 v ≡ true
    → leb v 100 ≡ true
    → (leb 0 (100 - v) ≡ true) × (leb (100 - v) 100 ≡ true)
fixed_sub_one v h k = (ground arith, ground arith)

fixed_lt_le : (a b : ℕ) → ltb a b ≡ true → leb a b ≡ true
fixed_lt_le a b h = ground arith

fixed_lt_not_le : (a b : ℕ) → ltb a b ≡ true → leb b a ≡ false
fixed_lt_not_le a b h = ground arith

fixed_le_one : (a v : ℕ) → ltb a v ≡ true → ltb 100 v ≡ false → leb v 100 ≡ true
fixed_le_one a v h k = ground arith

fixed_positive : (v : ℕ) → ltb 0 v ≡ true → eqb v 0 ≡ false
fixed_positive v h = ground arith

abbrev fixed : Floats ℕ
fixed = record {
  zero = 0;
  one = 100;
  hundred = 10000;
  nine_tenths = 90;
  three_quarters = 75;
  six_tenths = 60;
  lt = ltb;
  le = leb;
  add = λ a b. a + b;
  sub = λ a b. a - b;
  mul = λ a b. a * b / 100;
  div = λ a b. a * 100 / b;
  is_zero = λ a. eqb a 0;
  sum = total;
  of_count = λ n. n * 100;
  hours_between = λ a b. (b - a) * 100;
  round = λ v. v / 100;
  zero_le_zero = refl;
  zero_le_one = refl;
  one_le_one = refl;
  lt_le = fixed_lt_le;
  lt_not_le = fixed_lt_not_le;
  le_one = fixed_le_one;
  sub_one = fixed_sub_one;
  positive_is_not_zero = fixed_positive;
  round_zero = refl;
  round_hundred = refl;
  round_le = fixed_round_le;
}

abbrev config : ScoreFamilyConfiguration ℕ
config = record {
  version = "v1";
  max_evidence_age_hours = 2400;
  factors =
      ("utilization", record { weight = 60; direction = increases_risk; normalization_cap = 200 })
      ∷ ("overdue_work", record { weight = 40; direction = protective; normalization_cap = 400 })
      ∷ [];
}

abbrev refs : List (String × List String)
refs = ("utilization", "r1" ∷ []) ∷ ("overdue_work", "r2" ∷ []) ∷ []

abbrev subject : Subject
subject = record {
  subject_id = "t1";
  environment = "dev";
  evidence_timestamp = 10;
  scored_at = 12;
  thresholds = [];
}

abbrev values : List (String × Option ℕ)
values = ("utilization", some 50) ∷ ("overdue_work", some 25) ∷ []

score_normalized_family-IsSound_example :
    (r : RiskResult ℕ) × (score_normalized_family fixed subject values refs config ≡ ok r)
    × IsSound fixed 2 r
score_normalized_family-IsSound_example =
    score_normalized_family-IsSound fixed subject values refs config
      ((refl, refl), ((refl, refl), tt)) ((refl, refl), ((refl, refl), tt))

abbrev input_data : EmployeeOverloadInput ℕ
input_data = record {
  employee_id = "ann";
  environment = "dev";
  remaining_estimated_hours = some 6000;
  available_capacity_hours = some 4000;
  overdue_tasks = some 3;
  blocked_or_blocking_tasks = none;
  urgent_high_priority_tasks = none;
  due_soon_tasks = none;
  active_tasks = none;
  concurrent_projects = none;
  stale_tasks = none;
  evidence_timestamp = 10;
  evidence_references = refs;
}

score_employee_overload-IsSound_example :
    (r : RiskResult ℕ) × (score_employee_overload fixed input_data config [] 12 ≡ ok r)
    × IsSound fixed 2 r
score_employee_overload-IsSound_example =
    score_employee_overload-IsSound fixed input_data config [] 12 refl
      (((refl, refl), refl), (((refl, refl), refl), tt))

abbrev task_config : ScoreFamilyConfiguration ℕ
task_config = record {
  version = "v1";
  max_evidence_age_hours = 2400;
  factors =
      (
        "deadline_pressure",
        record { weight = 70; direction = increases_risk; normalization_cap = 100 },
      )
      ∷ (
        "mentoring_review_support",
        record { weight = 30; direction = protective; normalization_cap = 100 },
      )
      ∷ [];
}

abbrev task : TaskFitInput ℕ
task = record {
  task_id = "t1";
  environment = "dev";
  required_skill_gap = none;
  difficulty_seniority_mismatch = none;
  deadline_pressure = some 80;
  dependency_impact = none;
  task_criticality = none;
  similar_task_evidence = none;
  mentoring_review_support = some 10;
  evidence_timestamp = 10;
  evidence_references = ("deadline_pressure", "r1" ∷ []) ∷ [];
}
