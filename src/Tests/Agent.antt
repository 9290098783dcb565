-- ===== src/Tests/Agent.antt =====
-- A question about deadlines, a model that answers at its second call, and one that never does.
use Prim.Native.String.{count as char_count}
use tasks_management.Base.{
  String, [], any, arith, concat_map, contains, eqb, err, false, first_rows, has_text,
  if◌then◌else◌, insert, leb, list_eq, ltb, max, nat_eq, none, ok, option_eq, refl, select, some,
  sort, starts_with, string_eq, suc, true, value_error, zero, ℕ, ◌&&◌, ◌*◌, ◌+◌, ◌-◌, ◌/◌, ◌∷◌, ◌≡◌,
}
use tasks_management.Agent.Focus.{
  asks_blocked, deadline_selection, identifiers, is_done, keys_named, selection_by_words,
  task_selection,
}
use tasks_management.Agent.Patterns.{spans_of}
use tasks_management.Agent.Focus.Employees.{accepted_matches, named_employees, select_employees}
use tasks_management.Agent.{
  DashboardSnapshot, EvidencePlan, HourFloats, TaskSummary, Unicode, category_eq, deadlines,
  task_scope,
}
use tasks_management.Agent.Focus.Answer.{
  build_answer_evidence, chosen_employees, chosen_tasks, employees_named, evidence_set, lacking,
  narrowed,
}
use tasks_management.Agent.Focus.Required.{build_answer_evidence-ok}
use tasks_management.Agent.Planner.{Reply, failed, plan, replied}
use tasks_management.Agent.Planner.Attempts.{IsEnd, plan_ends}
use tasks_management.Agent.Explanation.{
  RequestShape, Session, Settings, Surroundings, circuit_is_open, explain, overflow, raised,
  rejected,
}
use tasks_management.Agent.Explanation.Calls.{EndsBy, explain_ends}
use tasks_management.Agent.Explanation.Retries.{explain_overflows}

abbrev unicode : Unicode
unicode = record {
  casefold = λ s. s;
  upper = λ s. s;
  is_word = λ c. leb 48 c;
  is_digit = λ c. leb 48 c && leb c 57;
}

abbrev hours : HourFloats ℕ
hours = record {
  zero = 0;
  hundred = 100;
  lt = ltb;
  same = eqb;
  sub = λ a b. a - b;
  mul = λ a b. a * b;
  div = λ a b. a / (b + 1);
}

abbrev task : TaskSummary ℕ
task = record {
  key = "WRD-1";
  summary = "Report";
  status = "open";
  priority = some "high";
  assignee_id = some "EMP-001";
  assignee_name = some "Dana";
  due_date = some 3;
  original_hours = none;
  remaining_hours = some 4;
  raw_remaining_hours = none;
  time_spent_hours = none;
  jira_updated_at = none;
  data_quality_findings = [];
  required_skills = [];
  blocker = none;
  dependencies = [];
  jira_url = "";
}

abbrev snapshot : DashboardSnapshot ℕ
snapshot = record {
  correlation_id = "c";
  evidence_timestamp = 500_000;
  project = record {
    key = "WRD";
    name = "Demo";
    total_tasks = 1;
    completed_tasks = 0;
    active_tasks = 1;
    overdue_tasks = 1;
    due_soon_tasks = 0;
    blocked_tasks = 0;
    missing_estimate_tasks = 0;
    completion_percent = 0;
  };
  employees = [];
  tasks = task ∷ [];
  alerts = [];
  workload = record { overloaded = 0; balanced = 0; insufficient_data = 0 };
  degraded = false;
  missing_sources = [];
  missing_evidence = [];
}

abbrev planned : EvidencePlan
planned = record {
  scope = task_scope;
  entities = [];
  evidence_categories = deadlines ∷ [];
  exhaustive = true;
}

build_answer_evidence-ok_example :
    let rows = lacking unicode hours "which tasks are overdue" planned snapshot none in
    build_answer_evidence unicode hours "which tasks are overdue" planned snapshot none ≡ (
      if any (λ m. ltb 128 (char_count m.entity)) rows
      then err (value_error "String should have at most 128 characters")
      else ok (evidence_set unicode hours "which tasks are overdue" planned snapshot none rows))
build_answer_evidence-ok_example =
    build_answer_evidence-ok unicode hours "which tasks are overdue" planned snapshot none

-- the overdue task has to be named
overdue_task :
    (evidence_set unicode hours "which tasks are overdue" planned snapshot none
      []).required_task_keys
    ≡ "WRD-1" ∷ []
unfolding evidence_set chosen_tasks chosen_employees employees_named select_employees
    named_employees keys_named identifiers narrowed task_selection selection_by_words
    deadline_selection asks_blocked any has_text starts_with select sort insert is_done contains
    first_rows accepted_matches concat_map spans_of
overdue_task = refl

abbrev replies : ℕ → Reply
replies zero = failed "timeout"
replies (suc n) = replied "{}"

plan_ends_example : IsEnd (λ text. none) replies 0 (max 1 2) (plan (λ text. none) replies 2)
plan_ends_example = plan_ends (λ text. none) replies 2

abbrev request : RequestShape
request = record {
  risk = none;
  workflow = "assistant";
  has_previous_evidence_dossier = false;
  has_universal_evidence = true;
  has_task_query_result = false;
  has_project_snapshot = false;
  has_focused_facts = true;
}

abbrev begun : Session
begun = record { failures = 0; opened_at = none; calls = 0 }

abbrev around : (ℕ → Reply) → Surroundings String
around reply = record {
  reply = reply;
  clock = λ n. n;
  judge = λ raw. rejected "answer omitted employee(s)";
  is_grounded = λ text. false;
  prose = λ checked text. text;
  fallback = err (value_error "deterministic fallback requires a risk result");
}

abbrev patient : Settings
patient = record {
  allow_fallback = false;
  max_attempts = 3;
  persistent_retry = true;
  failure_threshold = 3;
  reset_seconds = 30;
}

abbrev impatient : Settings
impatient = record {
  allow_fallback = false;
  max_attempts = 3;
  persistent_retry = false;
  failure_threshold = 3;
  reset_seconds = 30;
}

explain_ends_example :
    EndsBy impatient
      (around replies)
      (0 + (if (circuit_is_open impatient 5 none begun).0 then 0 else 6))
      (explain impatient (around replies) 4 5 request begun)
explain_ends_example = explain_ends impatient (around replies) 5 request begun refl

is_closed : (circuit_is_open patient 5 none begun).0 ≡ false
unfolding circuit_is_open
is_closed = refl

explain_overflows_example :
    let (outcome, s') = explain patient (around (λ n. failed "timeout")) 1024 5 request begun in
    (outcome ≡ raised overflow) × (s'.calls ≡ 0 + 3 + 1024)
explain_overflows_example =
    explain_overflows patient (around (λ n. failed "timeout")) 1024 5 request begun refl refl
      (omega arith) refl is_closed (λ n. ("timeout", refl)) (omega arith)
