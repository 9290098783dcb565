-- ===== src/Agent/Focus/Answer.antt =====
-- services/agent-api/src/agent_api/evidence/focus.py: the evidence of an answer, and the context that is kept of it.
use Prim.Native.String.{count as char_count}
use tasks_management.Base.{
  Bool, List, Option, Result, String, [], any, concat, concat_map, contains, drop_chars, eqb, err,
  false, has_value, if◌then◌else◌, length, list_eq, ltb, map, nat_eq, none, not, ok, one_if,
  option_eq, select, some, starts_with, string_eq, strip, true, value_error, ℕ, ◌&&◌, ◌++◌, ◌==◌,
  ◌>>=◌, ◌∷◌,
}
use tasks_management.Agent.Patterns.{mentions_any, span_chars}
use tasks_management.Agent.{
  AnswerEmployeeEvidence, AnswerEvidenceSet, AnswerTaskEvidence, DashboardSnapshot, EmployeeSummary,
  EvidenceCategory, EvidencePlan, EvidenceScope, GroundedAnswerContext, HourFloats, MissingData,
  TaskFact, TaskSummary, Unicode, at_least_zero, capacity_and_workload, category_eq, employee_scope,
  is_no_capacity, jira_issues, mixed_scope, project_scope, required_tasks_are_in_evidence,
  skills_and_seniority, task_scope,
}
use tasks_management.Agent.Focus.{
  Selection, all_required, date_of, identifiers, is_before, is_blocked, is_done, is_task_scope,
  is_within_week, keys_named, task_selection,
}
use tasks_management.Agent.Focus.Employees.{select_employees}

abbrev pub is_one_of : Option String → List String → Bool
is_one_of none ids = false
is_one_of (some id) ids = contains id ids

abbrev pub or_unknown : Option String → String
or_unknown none = "Unknown"
or_unknown (some s) = if s == "" then "Unknown" else s

abbrev pub is_too_long : String → Bool
is_too_long entity = ltb 128 (char_count entity)

-- `dependency.split(":", 1)[1].strip()`
unfoldable pub after_colon : String → String
after_colon s = strip (drop_chars 1 (span_chars (λ c. not (eqb c 58)) s).1)

module _ {F : Type 0} (u : Unicode) (fl : HourFloats F) where
  -- `_task_evidence`
  unfoldable pub task_evidence : ℕ → TaskSummary F → AnswerTaskEvidence F
  task_evidence today t = record {
    key = t.key;
    summary = t.summary;
    status = t.status;
    priority = or_unknown t.priority;
    assignee = t.assignee_name;
    due_date = t.due_date;
    remaining_hours = t.remaining_hours;
    blocker = t.blocker;
    dependencies = t.dependencies;
    blocked = is_blocked u fl t;
    blocks_downstream =
        map after_colon (select (λ d. starts_with "blocks:" (u.casefold d)) t.dependencies);
    overdue = not (is_done u fl t) && is_before t.due_date today;
    due_soon = not (is_done u fl t) && is_within_week t.due_date today;
    missing_fields =
        one_if (not (has_value t.priority)) "priority"
        ++ one_if (not (has_value t.due_date)) "due_date"
        ++ one_if (not (has_value t.remaining_hours)) "remaining_hours";
  }

  abbrev pub available_hours : Option F → Option F → Option F
  available_hours (some capacity) (some remaining) =
      some (at_least_zero fl (fl.sub capacity remaining))
  available_hours none remaining = none
  available_hours (some capacity) none = none

  -- `_employee_evidence`
  unfoldable pub employee_evidence :
      List (TaskSummary F) → EmployeeSummary F → AnswerEmployeeEvidence F
  employee_evidence tasks e = record {
    employee_id = e.employee_id;
    display_name = e.display_name;
    role = e.role;
    skills = e.skills;
    capacity_hours = e.capacity_hours;
    remaining_hours = e.remaining_hours;
    available_capacity_hours = available_hours e.capacity_hours e.remaining_hours;
    active_tasks = e.active_tasks;
    risk_level = e.level;
    top_risk = e.top_risk;
    task_keys = map (λ t. t.key) (select (λ t. is_one_of t.assignee_id (e.employee_id ∷ [])) tasks);
  }

  abbrev pub missing : EvidenceCategory → String → String → MissingData
  missing category reason entity = record {
    category = category;
    reason = reason;
    entity = entity;
    required_for_claim = true;
  }

  abbrev pub missing_of_task : TaskSummary F → List MissingData
  missing_of_task t =
      one_if (not (has_value t.remaining_hours))
        (missing jira_issues "remaining estimate is unavailable" (concat "task:" t.key))

  abbrev pub missing_of_employee : List EvidenceCategory → EmployeeSummary F → List MissingData
  missing_of_employee requested e =
      one_if (is_no_capacity fl e.capacity_hours) (
        missing capacity_and_workload "configured capacity is unavailable"
          (concat "employee:" e.employee_id))
      ++ one_if (contains skills_and_seniority requested && eqb (length e.skills) 0) (
          missing skills_and_seniority "documented skills are unavailable"
            (concat "employee:" e.employee_id))

  -- the data that `_focused_missing_data` collects
  abbrev pub missing_rows :
      List (TaskSummary F) → List (EmployeeSummary F) → List EvidenceCategory → List MissingData
  missing_rows tasks employees requested =
      concat_map missing_of_task tasks ++ concat_map (missing_of_employee requested) employees

  -- `_focused_missing_data`: a model of which the entity is too long is a ValidationError
  unfoldable pub focused_missing_data :
      List (TaskSummary F)
      → List (EmployeeSummary F)
      → List EvidenceCategory
      → Result (List MissingData)
  focused_missing_data tasks employees requested =
      let rows = missing_rows tasks employees requested in
      if any (λ m. is_too_long m.entity) rows
      then err (value_error "String should have at most 128 characters")
      else ok rows

  abbrev pub is_assigned_to : List (EmployeeSummary F) → TaskSummary F → Bool
  is_assigned_to employees t = is_one_of t.assignee_id (map (λ e. e.employee_id) employees)

  -- how the employees that were selected change the selection of tasks; the flag is `scope is task and not explicit_keys`
  unfoldable pub narrowed :
      Bool → List (TaskSummary F) → List (EmployeeSummary F) → Selection F → Selection F
  narrowed by_scope tasks [] s = s
  narrowed by_scope tasks (e ∷ es) s =
      if eqb (length s.selected) 0
      then all_required (select (is_assigned_to (e ∷ es)) tasks)
      else if by_scope
      then record {
        selected = select (is_assigned_to (e ∷ es)) s.selected;
        required =
            select (λ t. contains t.key (map (λ r. r.key) s.required))
              (select (is_assigned_to (e ∷ es)) s.selected);
      }
      else s

  abbrev pub has_assignee : String → TaskSummary F → Bool
  has_assignee id t = is_one_of t.assignee_id (id ∷ [])

  -- the employees, or the assignees of the tasks if there are none
  unfoldable pub or_assignees :
      List (TaskSummary F)
      → List (EmployeeSummary F)
      → List (EmployeeSummary F)
      → List (EmployeeSummary F)
  or_assignees tasks everyone (e ∷ es) = e ∷ es
  or_assignees tasks everyone [] =
      select (λ e. not (e.employee_id == "") && any (has_assignee e.employee_id) tasks) everyone

  abbrev pub includes_all : EvidenceScope → Bool
  includes_all employee_scope = true
  includes_all mixed_scope = true
  includes_all project_scope = false
  includes_all task_scope = false

  -- the employees that the plan names, unless the question asks for all of them
  unfoldable pub employees_named : String → EvidencePlan → List String
  employees_named folded plan =
      if plan.exhaustive
        && mentions_any
            ("which employees" ∷ "all employees" ∷ "employees are" ∷ "which people"
              ∷ "who is at risk" ∷ [])
            folded
      then []
      else identifiers "employee" plan.entities

  unfoldable pub chosen_employees :
      String → EvidencePlan → DashboardSnapshot F → List (EmployeeSummary F)
  chosen_employees folded plan s =
      select_employees u s.employees folded (employees_named folded plan) (includes_all plan.scope)

  unfoldable pub chosen_tasks :
      String → EvidencePlan → DashboardSnapshot F → Option (GroundedAnswerContext F) → Selection F
  chosen_tasks folded plan s previous =
      let keys = keys_named u fl folded plan previous in
      narrowed (is_task_scope u fl plan.scope && eqb (length keys) 0) s.tasks
        (chosen_employees folded plan s)
        (task_selection u fl keys folded plan (date_of s.evidence_timestamp) s.tasks)

  -- the employees that the evidence is about
  abbrev pub evident_employees :
      String
      → EvidencePlan
      → DashboardSnapshot F
      → Option (GroundedAnswerContext F)
      → List (EmployeeSummary F)
  evident_employees question plan s previous =
      let folded = u.casefold question in
      or_assignees (chosen_tasks folded plan s previous).selected s.employees
        (chosen_employees folded plan s)

  -- what the evidence lacks
  abbrev pub lacking :
      String
      → EvidencePlan
      → DashboardSnapshot F
      → Option (GroundedAnswerContext F)
      → List MissingData
  lacking question plan s previous =
      missing_rows (chosen_tasks (u.casefold question) plan s previous).selected
        (evident_employees question plan s previous) plan.evidence_categories

  -- the set with the missing data, before its validator
  unfoldable pub evidence_set :
      String
      → EvidencePlan
      → DashboardSnapshot F
      → Option (GroundedAnswerContext F)
      → List MissingData
      → AnswerEvidenceSet F
  evidence_set question plan s previous missing_data =
      let tasks = chosen_tasks (u.casefold question) plan s previous in
      record {
        question_focus = question;
        tasks = map (task_evidence (date_of s.evidence_timestamp)) tasks.selected;
        required_task_keys = map (λ t. t.key) tasks.required;
        employees = map (employee_evidence s.tasks) (evident_employees question plan s previous);
        exhaustive = plan.exhaustive;
        missing_data = missing_data;
      }

  unfoldable pub build_answer_evidence :
      String
      → EvidencePlan
      → DashboardSnapshot F
      → Option (GroundedAnswerContext F)
      → Result (AnswerEvidenceSet F)
  build_answer_evidence question plan s previous = do
    missing_data ←
        focused_missing_data (chosen_tasks (u.casefold question) plan s previous).selected
          (evident_employees question plan s previous) plan.evidence_categories
    required_tasks_are_in_evidence u.upper (evidence_set question plan s previous missing_data)

  unfoldable pub fact_of : AnswerTaskEvidence F → TaskFact F
  fact_of t = record {
    key = t.key;
    summary = t.summary;
    status = t.status;
    assignee = t.assignee;
    due_date = t.due_date;
    remaining_hours = t.remaining_hours;
    blocker = t.blocker;
    dependencies = t.dependencies;
  }

  abbrev context_tasks : List String → List (AnswerTaskEvidence F) → List (AnswerTaskEvidence F)
  context_tasks [] tasks = tasks
  context_tasks (k ∷ ks) tasks = select (λ t. contains (u.upper t.key) (k ∷ ks)) tasks

  unfoldable pub answer_context_from_evidence : AnswerEvidenceSet F → GroundedAnswerContext F
  answer_context_from_evidence e = record {
    intent = "focused_project_evidence";
    previous_question = some e.question_focus;
    issues = map fact_of (context_tasks (map u.upper e.required_task_keys) e.tasks);
    employee_ids = map (λ x. x.employee_id) e.employees;
    exhaustive = e.exhaustive;
  }
