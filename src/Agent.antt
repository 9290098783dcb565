-- ===== src/Agent.antt =====
-- services/agent-api/src/agent_api: what a question is answered from. The records of dashboard/models.py and
-- evidence/models.py, and the facts of task_queries.py. Hours are floats of a type F; a date is a number of days; a Literal
-- of texts is a text.
pub mod Patterns
pub mod Focus
pub mod Normalizer
pub mod Planner
pub mod Explanation
pub mod Ranking
use tasks_management.Base.{
  Bool, EqTest, List, Option, Result, String, any, arith, contains, eqb, err, if◌then◌else◌,
  list_eq, map, nat_eq, none, not, ok, option_eq, some, string_eq, true, value_error, ℕ, ◌||◌, ◌↔◌,
  ◌≡◌,
}

pub record ProjectSummary : Type 0 where
  pub key : String
  pub name : String
  pub total_tasks : ℕ
  pub completed_tasks : ℕ
  pub active_tasks : ℕ
  pub overdue_tasks : ℕ
  pub due_soon_tasks : ℕ
  pub blocked_tasks : ℕ
  pub missing_estimate_tasks : ℕ
  pub completion_percent : ℕ

pub record EmployeeSummary (F : Type 0) : Type 0 where
  pub employee_id : String
  pub display_name : String
  pub role : Option String
  pub skills : List String
  pub capacity_hours : Option F
  pub remaining_hours : Option F
  pub active_tasks : ℕ
  pub score : Option ℕ
  pub level : String
  pub top_risk : String

pub record TaskSummary (F : Type 0) : Type 0 where
  pub key : String
  pub summary : String
  pub status : String
  pub priority : Option String
  pub assignee_id : Option String
  pub assignee_name : Option String
  pub due_date : Option ℕ
  pub original_hours : Option F
  pub remaining_hours : Option F
  pub raw_remaining_hours : Option F
  pub time_spent_hours : Option F
  pub jira_updated_at : Option ℕ
  pub data_quality_findings : List String
  pub required_skills : List String
  pub blocker : Option String
  pub dependencies : List String
  pub jira_url : String

pub record AlertSummary : Type 0 where
  pub subject_id : String
  pub severity : String
  pub score : ℕ
  pub reason : String

pub record WorkloadDistribution : Type 0 where
  pub overloaded : ℕ
  pub balanced : ℕ
  pub insufficient_data : ℕ

pub record DashboardSnapshot (F : Type 0) : Type 0 where
  pub correlation_id : String
  pub evidence_timestamp : ℕ
  pub project : ProjectSummary
  pub employees : List (EmployeeSummary F)
  pub tasks : List (TaskSummary F)
  pub alerts : List AlertSummary
  pub workload : WorkloadDistribution
  pub degraded : Bool
  pub missing_sources : List String
  pub missing_evidence : List String

-- task_queries.py
pub record TaskFact (F : Type 0) : Type 0 where
  pub key : String
  pub summary : String
  pub status : String
  pub assignee : Option String
  pub due_date : Option ℕ
  pub remaining_hours : Option F
  pub blocker : Option String
  pub dependencies : List String

pub record GroundedAnswerContext (F : Type 0) : Type 0 where
  pub intent : String
  pub previous_question : Option String
  pub issues : List (TaskFact F)
  pub employee_ids : List String
  pub exhaustive : Bool

-- evidence/models.py
pub data EvidenceScope : Type 0 where
  project_scope employee_scope task_scope mixed_scope : EvidenceScope

pub data EvidenceCategory : Type 0 where
  jira_issues workforce_profiles capacity_and_workload skills_and_seniority : EvidenceCategory
  risk_results dependencies_and_blockers deadlines history operations : EvidenceCategory

abbrev pub category_index : EvidenceCategory → ℕ
category_index jira_issues = 0
category_index workforce_profiles = 1
category_index capacity_and_workload = 2
category_index skills_and_seniority = 3
category_index risk_results = 4
category_index dependencies_and_blockers = 5
category_index deadlines = 6
category_index history = 7
category_index operations = 8

pub category_index_iff :
    (a b : EvidenceCategory) → (eqb (category_index a) (category_index b) ≡ true) ↔ (a ≡ b)
category_index_iff a b = (λ h. ground arith, λ h. ground arith)

instance abbrev pub category_eq : EqTest EvidenceCategory
category_eq = record {
  same = λ a b. eqb (category_index a) (category_index b);
  same_iff = category_index_iff;
}

pub record EvidenceEntity : Type 0 where
  pub kind : String
  pub identifier : String

pub record EvidencePlan : Type 0 where
  pub scope : EvidenceScope
  pub entities : List EvidenceEntity
  pub evidence_categories : List EvidenceCategory
  pub exhaustive : Bool

-- an entity has at most 128 characters
pub record MissingData : Type 0 where
  pub category : EvidenceCategory
  pub reason : String
  pub entity : String
  pub required_for_claim : Bool

pub record CapacityEvidence (F : Type 0) : Type 0 where
  pub employee_id : Option String
  pub configured_capacity_hours : F
  pub workload_hours : F
  pub available_capacity_hours : F
  pub capacity_headroom_hours : F
  pub utilization_percent : F

pub record AnswerTaskEvidence (F : Type 0) : Type 0 where
  pub key : String
  pub summary : String
  pub status : String
  pub priority : String
  pub assignee : Option String
  pub due_date : Option ℕ
  pub remaining_hours : Option F
  pub blocker : Option String
  pub dependencies : List String
  pub blocked : Bool
  pub blocks_downstream : List String
  pub overdue : Bool
  pub due_soon : Bool
  pub missing_fields : List String

pub record AnswerEmployeeEvidence (F : Type 0) : Type 0 where
  pub employee_id : String
  pub display_name : String
  pub role : Option String
  pub skills : List String
  pub capacity_hours : Option F
  pub remaining_hours : Option F
  pub available_capacity_hours : Option F
  pub active_tasks : ℕ
  pub risk_level : String
  pub top_risk : String
  pub task_keys : List String

pub record AnswerEvidenceSet (F : Type 0) : Type 0 where
  pub question_focus : String
  pub tasks : List (AnswerTaskEvidence F)
  pub required_task_keys : List String
  pub employees : List (AnswerEmployeeEvidence F)
  pub exhaustive : Bool
  pub missing_data : List MissingData

-- the operations on floats that hours take part in
pub record HourFloats (F : Type 0) : Type 0 where
  pub zero : F
  pub hundred : F
  pub lt : F → F → Bool
  pub same : F → F → Bool
  pub sub : F → F → F
  pub mul : F → F → F
  pub div : F → F → F

-- the methods of texts that depend on the tables of Unicode
pub record Unicode : Type 0 where
  pub casefold : String → String
  pub upper : String → String
  pub is_word : ℕ → Bool
  pub is_digit : ℕ → Bool

module _ {F : Type 0} (fl : HourFloats F) where
  -- `max(x, 0.0)`
  abbrev pub at_least_zero : F → F
  at_least_zero x = if fl.lt x fl.zero then fl.zero else x

  abbrev pub or_zero : Option F → F
  or_zero none = fl.zero
  or_zero (some x) = x

  -- `x is None or x <= 0`; NaN is not
  abbrev pub is_no_capacity : Option F → Bool
  is_no_capacity none = true
  is_no_capacity (some x) = fl.lt x fl.zero || fl.same x fl.zero

  unfoldable pub capacity_evidence : F → F → Option String → CapacityEvidence F
  capacity_evidence configured workload employee_id =
      let headroom = fl.sub configured workload in
      record {
        employee_id = employee_id;
        configured_capacity_hours = configured;
        workload_hours = workload;
        available_capacity_hours = at_least_zero headroom;
        capacity_headroom_hours = headroom;
        utilization_percent = fl.mul (fl.div workload configured) fl.hundred;
      }

  unfoldable pub calculate_capacity :
      Option F → Option F → Option String → Option (CapacityEvidence F)
  calculate_capacity none workload employee_id = none
  calculate_capacity (some configured) workload employee_id =
      if is_no_capacity (some configured)
      then none
      else some (capacity_evidence configured (or_zero workload) employee_id)

module _ {F : Type 0} (upper : String → String) where
  -- `AnswerEvidenceSet.required_tasks_are_in_evidence`, with the sorted list of the unknown keys in the message left out
  unfoldable pub required_tasks_are_in_evidence : AnswerEvidenceSet F → Result (AnswerEvidenceSet F)
  required_tasks_are_in_evidence e =
      let evidence_keys = map (λ t. upper t.key) e.tasks in
      if any (λ key. not (contains (upper key) evidence_keys)) e.required_task_keys
      then err (value_error "required task keys must exist in task evidence")
      else ok e
