-- ===== src/Tests/Ranking.antt =====
-- Two colleagues who could take over the task of an employee.
use tasks_management.Base.{
  List, Member, String, [], any, concat_map, contains, eqb, false, find_first, has_text, insert,
  join, leb, list_eq, ltb, map, nat_eq, none, option_eq, refl, select, some, sort, starts_with,
  string_eq, true, ℕ, ◌&&◌, ◌*◌, ◌+◌, ◌-◌, ◌/◌, ◌∷◌, ◌≡◌,
}
use tasks_management.Agent.{
  DashboardSnapshot, EmployeeSummary, HourFloats, TaskSummary, Unicode, calculate_capacity,
  capacity_evidence, category_eq,
}
use tasks_management.Agent.Ranking.{
  RankedCandidate, candidate_of, distinct, is_eligible, lacking_of, matching_of, missing_data_of,
  rank_reassignment_candidates, ranked_before, ranking_of, reasons_of, required_skills_of,
  with_ranks,
}
use tasks_management.Agent.Ranking.Suitable.{IsSuitable, rank_reassignment_candidates-IsSuitable}

abbrev unicode : Unicode
unicode = record {
  casefold = λ s. s;
  upper = λ s. s;
  is_word = λ c. leb 48 c;
  is_digit = λ c. leb 48 c && leb c 57;
}

abbrev hours : HourFloats ℕ
hours = record {
  zero = 0;
  hundred = 100;
  lt = ltb;
  same = eqb;
  sub = λ a b. a - b;
  mul = λ a b. a * b;
  div = λ a b. a / (b + 1);
}

abbrev task : TaskSummary ℕ
task = record {
  key = "WRD-1";
  summary = "Report";
  status = "open";
  priority = some "high";
  assignee_id = some "EMP-001";
  assignee_name = some "Dana";
  due_date = some 3;
  original_hours = none;
  remaining_hours = some 4;
  raw_remaining_hours = none;
  time_spent_hours = none;
  jira_updated_at = none;
  data_quality_findings = [];
  required_skills = "python" ∷ [];
  blocker = none;
  dependencies = [];
  jira_url = "";
}

abbrev employee : String → ℕ → EmployeeSummary ℕ
employee id free = record {
  employee_id = id;
  display_name = id;
  role = some "senior developer";
  skills = "python" ∷ [];
  capacity_hours = some 40;
  remaining_hours = some (40 - free);
  active_tasks = 1;
  score = none;
  level = "low";
  top_risk = "";
}

abbrev snapshot : DashboardSnapshot ℕ
snapshot = record {
  correlation_id = "c";
  evidence_timestamp = 500_000;
  project = record {
    key = "WRD";
    name = "Demo";
    total_tasks = 1;
    completed_tasks = 0;
    active_tasks = 1;
    overdue_tasks = 1;
    due_soon_tasks = 0;
    blocked_tasks = 0;
    missing_estimate_tasks = 0;
    completion_percent = 0;
  };
  employees = employee "EMP-001" 0 ∷ employee "EMP-002" 5 ∷ employee "EMP-003" 9 ∷ [];
  tasks = task ∷ [];
  alerts = [];
  workload = record { overloaded = 0; balanced = 0; insufficient_data = 0 };
  degraded = false;
  missing_sources = [];
  missing_evidence = [];
}

-- the one with more hours left comes first
best_candidate :
    map
      (λ c. c.employee_id)
      (rank_reassignment_candidates unicode (λ s. s) hours 0 snapshot "EMP-001").candidates
    ≡ "EMP-003" ∷ "EMP-002" ∷ []
unfolding rank_reassignment_candidates ranking_of any with_ranks sort select insert ranked_before
    candidate_of is_eligible calculate_capacity capacity_evidence lacking_of distinct
    required_skills_of concat_map contains matching_of missing_data_of reasons_of find_first
    has_text join starts_with
best_candidate = refl

rank_reassignment_candidates-IsSuitable_example :
    let r = rank_reassignment_candidates unicode (λ s. s) hours 0 snapshot "EMP-001" in
    ((c : RankedCandidate ℕ)
      → Member c r.candidates
      → c.eligible ≡ true
      → IsSuitable unicode (λ s. s) hours 0 snapshot "EMP-001" c)
    × (r.status ≡ "success"
        → (c : RankedCandidate ℕ) × (rest : List (RankedCandidate ℕ)) × (r.candidates ≡ c ∷ rest)
          × (c.eligible ≡ true))
rank_reassignment_candidates-IsSuitable_example =
    rank_reassignment_candidates-IsSuitable unicode (λ s. s) hours 0 snapshot "EMP-001"
