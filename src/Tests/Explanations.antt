-- ===== src/Tests/Explanations.antt =====
-- A list query that found one task, and a model that names it at its second call.
use tasks_management.Base.{
  Bool, Option, String, [], any, concat_map, contains, eqb, err, false, has_text, if◌then◌else◌,
  is_space, leb, list_eq, ltb, nat_eq, none, ok, option_eq, refl, select, some, starts_with,
  string_eq, strip, strip_end, strip_start, true, value_error, ℕ, ◌&&◌, ◌*◌, ◌+◌, ◌-◌, ◌/◌, ◌∷◌,
  ◌≡◌, ◌⊎◌,
}
use tasks_management.Agent.{HourFloats, TaskFact, Unicode, category_eq}
use tasks_management.Agent.Patterns.{
  char_count, issue_keys, key_at, key_number, keys_from, span_chars,
}
use tasks_management.Agent.Planner.{Reply, replied}
use tasks_management.Agent.Explanation.{
  Session, Settings, Surroundings, after_call, after_judgement, circuit_is_open, conclude, explain,
  explain_attempts, explained, rejected,
}
use tasks_management.Agent.Explanation.Request.{
  ExplanationRequest, ExplanationResponse, ModelExplanation, TaskQueryResult, expected_level,
  expected_score, shape_of,
}
use tasks_management.Agent.Explanation.Facts.{allowed_citations, task_citations}
use tasks_management.Agent.Explanation.Checks.{
  all_checks, claim_checks, context_checks, exhaustive_checks, expected_tasks, failure,
  mentioned_keys, result_checks, risk_checks,
}
use tasks_management.Agent.Explanation.Judge.{
  explanation_of_prose, judge, judge_result, judged, model_result_from_text, sanitized,
}
use tasks_management.Agent.Explanation.Grounded.{IsGrounded}
use tasks_management.Agent.Explanation.Sources.{explain-IsGrounded, validating}

abbrev unicode : Unicode
unicode = record {
  casefold = λ s. s;
  upper = λ s. s;
  is_word = λ c. leb 48 c;
  is_digit = λ c. leb 48 c && leb c 57;
}

abbrev hours : HourFloats ℕ
hours = record {
  zero = 0;
  hundred = 100;
  lt = ltb;
  same = eqb;
  sub = λ a b. a - b;
  mul = λ a b. a * b;
  div = λ a b. a / (b + 1);
}

abbrev fact : TaskFact ℕ
fact = record {
  key = "WRD-1";
  summary = "Report";
  status = "open";
  assignee = none;
  due_date = none;
  remaining_hours = none;
  blocker = none;
  dependencies = [];
}

abbrev overdue : TaskQueryResult ℕ
overdue = record {
  answer = "WRD-1";
  tasks = fact ∷ [];
  evidence_references = "jira:WRD-1:summary" ∷ [];
  correlation_id = "c";
  context = some (record {
    intent = "overdue_tasks";
    previous_question = none;
    issues = [];
    employee_ids = [];
    exhaustive = true;
  });
}

abbrev request : ExplanationRequest ℕ
request = record {
  workflow = "task_query";
  question = "which tasks are overdue";
  risk = none;
  project_snapshot = none;
  task_query_result = some overdue;
  evidence_dossier = none;
  previous_evidence_dossier = none;
  previous_answer_context = none;
  universal_evidence = none;
  candidate_ids = [];
  untrusted_evidence = [];
  correlation_id = "c";
}

abbrev replies : ℕ → Reply
replies n = if eqb n 0 then replied "None is late." else replied "WRD-1 is late."

abbrev around : Surroundings ExplanationResponse
around = record {
  reply = replies;
  clock = λ n. n;
  judge = λ raw. rejected "";
  is_grounded = λ text. false;
  prose = λ checked text. record {
    result = explanation_of_prose unicode hours eqb request text;
    source = "bedrock";
    correlation_id = "c";
  };
  fallback = err (value_error "deterministic fallback requires a risk result");
}

abbrev patient : Settings
patient = record {
  allow_fallback = false;
  max_attempts = 3;
  persistent_retry = true;
  failure_threshold = 3;
  reset_seconds = 30;
}

abbrev begun : Session
begun = record { failures = 0; opened_at = none; calls = 0 }

abbrev no_json : String → Option ModelExplanation
no_json text = none

abbrev supported : ModelExplanation → Option String
supported m = none

abbrev answer : ExplanationResponse
answer = record {
  result = record {
    answer = some "WRD-1 is late.";
    summary = "WRD-1 is late.";
    root_causes = [];
    recommendations = [];
    citations = [];
    score = none;
    risk_level = none;
    uncertainties = [];
  };
  source = "bedrock";
  correlation_id = "c";
}

is_answered :
    (explain patient
      (validating unicode hours eqb no_json supported around request)
      4
      5
      (shape_of request)
      begun).0
    ≡ explained answer
unfolding explain circuit_is_open shape_of explain_attempts after_call after_judgement judge
    model_result_from_text strip strip_start strip_end is_space starts_with explanation_of_prose
    judge_result sanitized select failure all_checks result_checks expected_score expected_level any
    allowed_citations task_citations concat_map contains claim_checks has_text exhaustive_checks
    expected_tasks mentioned_keys issue_keys keys_from key_at key_number span_chars char_count
    context_checks risk_checks judged conclude
is_answered = refl

explain-IsGrounded_example :
    IsGrounded unicode hours eqb request answer
    ⊎ ((around.fallback ≡ ok answer)
        ⊎ ((valid : Bool) × (text : String) × (around.prose valid text ≡ answer)))
explain-IsGrounded_example =
    explain-IsGrounded unicode hours eqb no_json supported patient around 4 5 request begun answer
      is_answered
