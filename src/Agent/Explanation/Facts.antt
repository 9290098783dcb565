-- ===== src/Agent/Explanation/Facts.antt =====
-- services/agent-api/src/agent_api/llm/bedrock.py: what an explanation may name and cite: the facts, the keys and the references.
use tasks_management.Base.{
  List, Option, String, [], any, concat, concat_map, if◌then◌else◌, list_eq, map, nat_eq, none,
  option_eq, some, sort, string_eq, string_lt, ◌++◌, ◌==◌, ◌∷◌,
}
use tasks_management.Scoring.{RiskResult}
use tasks_management.Agent.{
  DashboardSnapshot, EmployeeSummary, GroundedAnswerContext, TaskFact, TaskSummary, Unicode,
  category_eq,
}
use tasks_management.Agent.Patterns.{issue_keys}
use tasks_management.Agent.Ranking.{distinct}
use tasks_management.Agent.Explanation.Request.{
  ExplanationRequest, RiskEvidenceDossier, TaskQueryResult, TaskSituation, UniversalEvidence,
}

-- the fields of a task that a citation may name
abbrev pub cited_fields : List String
cited_fields =
    "summary" ∷ "status" ∷ "priority" ∷ "duedate" ∷ "updated" ∷ "labels" ∷ "timeestimate"
    ∷ "issuelinks" ∷ "customfield_10042" ∷ []

module _ {F : Type 0} where
  abbrev pub tasks_of : Option (DashboardSnapshot F) → List (TaskSummary F)
  tasks_of none = []
  tasks_of (some s) = s.tasks

  abbrev pub employees_of : Option (DashboardSnapshot F) → List (EmployeeSummary F)
  employees_of none = []
  employees_of (some s) = s.employees

  -- `f"jira:{task.key}:{field}"` for each task and field
  unfoldable pub task_citations : Option (DashboardSnapshot F) → List String
  task_citations snapshot =
      concat_map (λ t. map (λ field. concat "jira:" (concat t.key (concat ":" field))) cited_fields)
        (tasks_of snapshot)

  abbrev risk_references : Option (RiskResult F) → List String
  risk_references none = []
  risk_references (some risk) = risk.evidence_references

  abbrev result_references : Option (TaskQueryResult F) → List String
  result_references none = []
  result_references (some r) = r.evidence_references

  abbrev dossier_references : Option (RiskEvidenceDossier F) → List String
  dossier_references none = []
  dossier_references (some d) = d.evidence_references

  -- `allowed_citations` of `_validate_result`
  unfoldable pub allowed_citations : ExplanationRequest F → List String
  allowed_citations r =
      risk_references r.risk
      ++ task_citations r.project_snapshot
      ++ result_references r.task_query_result
      ++ dossier_references r.evidence_dossier
      ++ dossier_references r.previous_evidence_dossier

  abbrev bundle_snapshot : Option (UniversalEvidence F) → Option (DashboardSnapshot F)
  bundle_snapshot none = none
  bundle_snapshot (some e) = e.project_snapshot

  abbrev or_snapshot :
      Option (DashboardSnapshot F) → Option (DashboardSnapshot F) → Option (DashboardSnapshot F)
  or_snapshot none s = s
  or_snapshot (some s) t = some s

  unfoldable pub validated_project_issue_keys : ExplanationRequest F → List String
  validated_project_issue_keys r =
      map (λ t. t.key)
        (tasks_of (or_snapshot (bundle_snapshot r.universal_evidence) r.project_snapshot))

  unfoldable pub validated_project_employee_ids : ExplanationRequest F → List String
  validated_project_employee_ids r =
      map (λ e. e.employee_id)
        (employees_of (or_snapshot (bundle_snapshot r.universal_evidence) r.project_snapshot))

  unfoldable pub fact_of_task : TaskSummary F → TaskFact F
  fact_of_task t = record {
    key = t.key;
    summary = t.summary;
    status = t.status;
    assignee = t.assignee_name;
    due_date = t.due_date;
    remaining_hours = t.remaining_hours;
    blocker = t.blocker;
    dependencies = t.dependencies;
  }

  unfoldable pub fact_of_situation : TaskSituation F → TaskFact F
  fact_of_situation t = record {
    key = t.key;
    summary = t.summary;
    status = t.status;
    assignee = none;
    due_date = t.due_date;
    remaining_hours = t.remaining_hours;
    blocker = t.blocker_category;
    dependencies = t.dependencies;
  }

  -- `d[fact.key] = fact`, in the order in which the keys came
  unfoldable pub put_fact : TaskFact F → List (TaskFact F) → List (TaskFact F)
  put_fact fact [] = fact ∷ []
  put_fact fact (f ∷ fs) =
      let rest = put_fact fact fs in if f.key == fact.key then fact ∷ fs else f ∷ rest

  unfoldable pub put_facts : List (TaskFact F) → List (TaskFact F) → List (TaskFact F)
  put_facts known [] = known
  put_facts known (f ∷ fs) = put_facts (put_fact f known) fs

  -- `d.setdefault(fact.key, fact)`
  unfoldable pub add_facts : List (TaskFact F) → List (TaskFact F) → List (TaskFact F)
  add_facts known [] = known
  add_facts known (f ∷ fs) =
      add_facts (if any (λ k. k.key == f.key) known then known else known ++ f ∷ []) fs

  abbrev pub prior_facts : Option (GroundedAnswerContext F) → List (TaskFact F)
  prior_facts none = []
  prior_facts (some c) = c.issues

  unfoldable pub with_previous_context :
      Option (GroundedAnswerContext F) → List (TaskFact F) → List (TaskFact F)
  with_previous_context none facts = facts
  with_previous_context (some c) facts = add_facts (put_facts [] facts) c.issues

  abbrev facts_supplied :
      Option (TaskQueryResult F)
      → Option (DashboardSnapshot F)
      → Option (RiskEvidenceDossier F)
      → List (TaskFact F)
  facts_supplied (some result) snapshot dossier = result.tasks
  facts_supplied none (some s) dossier = map fact_of_task s.tasks
  facts_supplied none none (some d) = map fact_of_situation d.tasks
  facts_supplied none none none = []

  unfoldable pub grounding_facts : ExplanationRequest F → List (TaskFact F)
  grounding_facts r =
      with_previous_context r.previous_answer_context
        (facts_supplied r.task_query_result r.project_snapshot r.evidence_dossier)

  unfoldable pub dependency_issue_keys : Unicode → List (TaskFact F) → List String
  dependency_issue_keys u facts =
      sort string_lt (
        distinct
          (concat_map (λ f. concat_map (λ d. issue_keys u (u.upper d)) f.dependencies) facts))
