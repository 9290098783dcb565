-- ===== src/Agent/Explanation/Request.antt =====
-- services/agent-api/src/agent_api/llm/schemas.py: what an explanation is asked of and what it says; the dossiers of
-- risk_evidence.py, and the results of task_queries.py that it rests on.
use mathlib.Core.Option
use tasks_management.Base.{
  Bool, List, Option, String, eqb, false, has_value, length, none, not, some, ℕ, ◌||◌,
}
use tasks_management.Risk.{level_value}
use tasks_management.Scoring.{RiskResult}
use tasks_management.Agent.{AnswerEvidenceSet, DashboardSnapshot, GroundedAnswerContext, TaskFact}
use tasks_management.Agent.Explanation.{RequestShape}

-- risk_evidence.py
pub record TaskSituation (F : Type 0) : Type 0 where
  pub key : String
  pub summary : String
  pub status : String
  pub priority : Option String
  pub due_date : Option ℕ
  pub remaining_hours : Option F
  pub blocker_category : Option String
  pub dependencies : List String
  pub last_activity_at : ℕ
  pub evidence_references : List String

pub record RiskEvidenceDossier (F : Type 0) : Type 0 where
  pub employee_id : String
  pub project_key : String
  pub observed_at : ℕ
  pub available_capacity_hours : F
  pub total_remaining_hours : Option F
  pub tasks : List (TaskSituation F)
  pub overdue_task_keys : List String
  pub due_soon_task_keys : List String
  pub blocked_task_keys : List String
  pub missing_evidence : List String
  pub evidence_references : List String

-- task_queries.py
pub record TaskQueryResult (F : Type 0) : Type 0 where
  pub answer : String
  pub tasks : List (TaskFact F)
  pub evidence_references : List String
  pub correlation_id : String
  pub context : Option (GroundedAnswerContext F)

-- what is read of a UniversalEvidenceBundle
pub record UniversalEvidence (F : Type 0) : Type 0 where
  pub project_snapshot : Option (DashboardSnapshot F)
  pub answer_evidence : Option (AnswerEvidenceSet F)

pub record ExplanationRequest (F : Type 0) : Type 0 where
  pub workflow : String
  pub question : String
  pub risk : Option (RiskResult F)
  pub project_snapshot : Option (DashboardSnapshot F)
  pub task_query_result : Option (TaskQueryResult F)
  pub evidence_dossier : Option (RiskEvidenceDossier F)
  pub previous_evidence_dossier : Option (RiskEvidenceDossier F)
  pub previous_answer_context : Option (GroundedAnswerContext F)
  pub universal_evidence : Option (UniversalEvidence F)
  pub candidate_ids : List String
  pub untrusted_evidence : List String
  pub correlation_id : String

pub record Recommendation : Type 0 where
  pub action : String
  pub reason : String
  pub candidate_id : Option String

pub record ModelExplanation : Type 0 where
  pub answer : Option String
  pub summary : String
  pub root_causes : List String
  pub recommendations : List Recommendation
  pub citations : List String
  pub score : Option ℕ
  pub risk_level : Option String
  pub uncertainties : List String

-- the fields of a ModelExplanation, with two more
pub record ExplanationResponse : Type 0 where
  pub result : ModelExplanation
  pub source : String
  pub correlation_id : String

module _ {F : Type 0} where
  -- `risk.score if risk else None`, and the value of the level
  unfoldable pub expected_score : Option (RiskResult F) → Option ℕ
  expected_score none = none
  expected_score (some risk) = risk.score

  unfoldable pub expected_level : Option (RiskResult F) → Option String
  expected_level none = none
  expected_level (some risk) = Option.map level_value risk.level

  abbrev focused_facts : Option (AnswerEvidenceSet F) → Bool
  focused_facts none = false
  focused_facts (some a) = not (eqb (length a.tasks) 0) || not (eqb (length a.employees) 0)

  -- `use_focused_recovery` of `_conservative_bedrock_answer`
  abbrev pub uses_focused_recovery : Option (UniversalEvidence F) → Bool
  uses_focused_recovery none = false
  uses_focused_recovery (some e) = focused_facts e.answer_evidence

  -- what `explain` itself reads
  unfoldable pub shape_of : ExplanationRequest F → RequestShape
  shape_of r = record {
    risk = Option.map (λ risk. (risk.score, Option.map level_value risk.level)) r.risk;
    workflow = r.workflow;
    has_previous_evidence_dossier = has_value r.previous_evidence_dossier;
    has_universal_evidence = has_value r.universal_evidence;
    has_task_query_result = has_value r.task_query_result;
    has_project_snapshot = has_value r.project_snapshot;
    has_focused_facts = uses_focused_recovery r.universal_evidence;
  }
