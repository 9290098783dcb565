-- ===== src/Agent/Normalizer.antt =====
-- services/agent-api/src/agent_api/evidence/normalizer.py: a plan that a model selected is made to fit the question.
pub mod Laws
use tasks_management.Base.{
  Bool, List, Option, String, [], any, contains, eqb, if◌then◌else◌, length, list_eq, map, nat_eq,
  none, not, option_eq, some, string_eq, ◌&&◌, ◌++◌, ◌==◌, ◌||◌, ◌∷◌,
}
use tasks_management.Agent.{
  EvidenceCategory, EvidenceEntity, EvidencePlan, EvidenceScope, GroundedAnswerContext, TaskFact,
  Unicode, capacity_and_workload, category_eq, deadlines, dependencies_and_blockers, employee_scope,
  history, jira_issues, mixed_scope, skills_and_seniority, task_scope, workforce_profiles,
}
use tasks_management.Agent.Patterns.{issue_keys, mentions_any}

unfoldable pub task_language : String → Bool
task_language folded =
    mentions_any
      ("task" ∷ "work item" ∷ "issue" ∷ "deadline" ∷ "due" ∷ "blocked" ∷ "blocker" ∷ "dependency"
        ∷ "estimate" ∷ [])
      folded

unfoldable pub employee_language : String → Bool
employee_language folded =
    mentions_any
      ("employee" ∷ "people" ∷ "person" ∷ "capacity" ∷ "workload" ∷ "skill" ∷ "assignee" ∷ "who has"
        ∷ "who is at risk" ∷ [])
      folded

unfoldable pub history_language : String → Bool
history_language folded =
    mentions_any
      ("history" ∷ "historical" ∷ "improved" ∷ "changed" ∷ "progressed" ∷ "progress over"
        ∷ "since yesterday" ∷ "this week" ∷ "last week" ∷ "previously" ∷ "before" ∷ "trend" ∷ [])
      folded

unfoldable pub asks_for_employees : String → Bool
asks_for_employees folded =
    mentions_any
      ("which employees" ∷ "all employees" ∷ "employees are" ∷ "which people" ∷ "who is at risk"
        ∷ [])
      folded

unfoldable pub asks_for_all : String → Bool
asks_for_all folded =
    mentions_any ("which " ∷ "list " ∷ "all " ∷ "name those" ∷ "name the " ∷ []) folded

abbrev pub prior_issues : {F : Type 0} → Option (GroundedAnswerContext F) → List (TaskFact F)
prior_issues none = []
prior_issues (some c) = c.issues

-- `refers_to_prior_tasks`: there are prior issues and the question points at them
unfoldable pub refers_to_tasks : {F : Type 0} → String → Option (GroundedAnswerContext F) → Bool
refers_to_tasks folded previous =
    not (eqb (length (prior_issues previous)) 0)
    && mentions_any ("that task" ∷ "those tasks" ∷ "these tasks" ∷ "them" ∷ []) folded

unfoldable pub scope_by_words : Bool → String → EvidenceScope → EvidenceScope
scope_by_words prior folded planned =
    if prior || (task_language folded && not (employee_language folded))
    then task_scope
    else if employee_language folded && not (task_language folded)
    then employee_scope
    else if employee_language folded && task_language folded
    then mixed_scope
    else planned

-- `require` of a category, if a test holds
unfoldable pub require : Bool → EvidenceCategory → List EvidenceCategory → List EvidenceCategory
require wanted category categories =
    if wanted && not (contains category categories) then categories ++ category ∷ [] else categories

unfoldable pub required_categories : Bool → String → List EvidenceCategory → List EvidenceCategory
required_categories prior folded planned = require (history_language folded) history (
    require (mentions_any ("skill" ∷ "fit" ∷ "qualified" ∷ []) folded) skills_and_seniority (
      require (mentions_any ("capacity" ∷ "workload" ∷ "available" ∷ "risk" ∷ []) folded)
        capacity_and_workload
        (require (employee_language folded) workforce_profiles (
          require (mentions_any ("deadline" ∷ "due" ∷ "overdue" ∷ []) folded) deadlines (
            require (mentions_any ("blocked" ∷ "blocker" ∷ "dependency" ∷ []) folded)
              dependencies_and_blockers
              (require (task_language folded || prior) jira_issues planned))))))

abbrev pub is_task_entity : String → EvidenceEntity → Bool
is_task_entity key e = e.kind == "task" && e.identifier == key

-- the entities with a task added, unless it is there
unfoldable pub add_task : List EvidenceEntity → String → List EvidenceEntity
add_task entities key =
    if any (is_task_entity key) entities
    then entities
    else entities ++ record { kind = "task"; identifier = key } ∷ []

unfoldable pub add_tasks : List EvidenceEntity → List String → List EvidenceEntity
add_tasks entities [] = entities
add_tasks entities (key ∷ keys) = add_tasks (add_task entities key) keys

module _ {F : Type 0} (u : Unicode) where
  unfoldable pub normalize_evidence_plan :
      String → EvidencePlan → Option (GroundedAnswerContext F) → EvidencePlan
  normalize_evidence_plan question planned previous =
      let folded = u.casefold question in
      let prior = refers_to_tasks folded previous in
      let exhaustive = planned.exhaustive || asks_for_all folded in
      let project_wide =
        exhaustive
        && employee_language folded
        && not (task_language folded)
        && asks_for_employees folded in
      let entities =
        add_tasks
          (add_tasks (if project_wide then [] else planned.entities)
            (issue_keys u (u.upper question)))
          (if prior then map (λ i. i.key) (prior_issues previous) else []) in
      record {
        scope =
            if any (λ e. e.kind == "task") entities
            then task_scope
            else scope_by_words prior folded planned.scope;
        entities = entities;
        evidence_categories = required_categories prior folded planned.evidence_categories;
        exhaustive = exhaustive;
      }
