-- ===== src/Agent/Focus.antt =====
-- services/agent-api/src/agent_api/evidence/focus.py: the facts that an answer to one question must use.
pub mod Employees
pub mod Answer
pub mod Required
use tasks_management.Base.{
  Bool, List, Option, String, [], any, concat_map, contains, eqb, false, find_first, first_rows,
  has_text, has_value, if◌then◌else◌, leb, list_eq, ltb, map, nat_eq, none, not, option_eq, reverse,
  select, some, sort, starts_with, string_eq, string_lt, to_list, true, ℕ, ◌&&◌, ◌+◌, ◌/◌, ◌==◌,
  ◌||◌, ◌∷◌,
}
use tasks_management.Agent.{
  EvidenceEntity, EvidencePlan, EvidenceScope, GroundedAnswerContext, HourFloats, TaskSummary,
  Unicode, category_eq, employee_scope, mixed_scope, or_zero, project_scope, task_scope,
}
use tasks_management.Agent.Patterns.{mentions_any}

abbrev pub done_statuses : List String
done_statuses = "done" ∷ "closed" ∷ "resolved" ∷ "complete" ∷ "completed" ∷ []

-- `_PRIORITY_RANK.get(priority, 5)`
unfoldable pub priority_rank : String → ℕ
priority_rank p =
    if p == "highest" || p == "critical"
    then 0
    else if p == "high"
    then 1
    else if p == "medium"
    then 2
    else if p == "low"
    then 3
    else if p == "lowest"
    then 4
    else 5

abbrev pub or_empty : Option String → String
or_empty none = ""
or_empty (some s) = s

-- `bool(text)`
abbrev pub is_text : Option String → Bool
is_text none = false
is_text (some s) = not (s == "")

-- the date of an instant, in UTC
abbrev pub date_of : ℕ → ℕ
date_of t = t / 86_400

abbrev pub is_before : Option ℕ → ℕ → Bool
is_before none day = false
is_before (some due) day = ltb due day

abbrev pub is_within_week : Option ℕ → ℕ → Bool
is_within_week none day = false
is_within_week (some due) day = leb day due && leb due (day + 7)

-- the order of tuples: by the first parts, and then by the rest
abbrev pub lex : Bool → Bool → Bool → Bool
lex less same rest = less || (same && rest)

abbrev pub flag_rank : Bool → ℕ
flag_rank true = 0
flag_rank false = 1

unfoldable pub asks_blocked : String → Bool
asks_blocked folded = has_text "blocked" folded || has_text "blocker" folded

unfoldable pub refers_to_prior : String → Bool
refers_to_prior folded =
    mentions_any ("that task" ∷ "those tasks" ∷ "these tasks" ∷ "them" ∷ []) folded

-- the identifiers of the entities of a kind
unfoldable pub identifiers : String → List EvidenceEntity → List String
identifiers kind entities = map (λ e. e.identifier) (select (λ e. e.kind == kind) entities)

-- the tasks that are selected for an answer, and those that it must name
pub record Selection (F : Type 0) : Type 0 where
  pub selected : List (TaskSummary F)
  pub required : List (TaskSummary F)

abbrev pub all_required : {F : Type 0} → List (TaskSummary F) → Selection F
all_required tasks = record { selected = tasks; required = tasks }

module _ {F : Type 0} (u : Unicode) (fl : HourFloats F) where
  unfoldable pub is_done : TaskSummary F → Bool
  is_done t = contains (u.casefold t.status) done_statuses

  unfoldable pub is_blocked : TaskSummary F → Bool
  is_blocked t =
      is_text t.blocker || any (λ d. starts_with "is blocked by:" (u.casefold d)) t.dependencies

  abbrev pub due_or_zero : Option ℕ → ℕ
  due_or_zero none = 0
  due_or_zero (some d) = d

  abbrev pub rank_of_priority : TaskSummary F → ℕ
  rank_of_priority t = priority_rank (u.casefold (or_empty t.priority))

  -- `<` of the tuples of `_deadline_rank`; the tasks that are compared have a due date
  unfoldable pub deadline_before : ℕ → TaskSummary F → TaskSummary F → Bool
  deadline_before today a b =
      let late_a = flag_rank (is_before a.due_date today) in
      let late_b = flag_rank (is_before b.due_date today) in
      let blocked_a = flag_rank (is_blocked a) in
      let blocked_b = flag_rank (is_blocked b) in
      let due_a = due_or_zero a.due_date in
      let due_b = due_or_zero b.due_date in
      let hours_a = or_zero fl a.remaining_hours in
      let hours_b = or_zero fl b.remaining_hours in
      lex (ltb late_a late_b) (eqb late_a late_b) (
        lex (ltb blocked_a blocked_b) (eqb blocked_a blocked_b) (
          lex (ltb due_a due_b) (eqb due_a due_b) (
            lex (ltb (rank_of_priority a) (rank_of_priority b))
              (eqb (rank_of_priority a) (rank_of_priority b))
              (lex (fl.lt hours_b hours_a) (fl.same hours_a hours_b) (string_lt a.key b.key)))))

  -- `[task_by_key[key] for key in explicit_keys if key in task_by_key]`; of two tasks with one key the dict has the later
  unfoldable pub tasks_with_keys : List String → List (TaskSummary F) → List (TaskSummary F)
  tasks_with_keys explicit_keys tasks =
      concat_map (λ key. to_list (find_first (λ t. t.key == key) (reverse tasks))) explicit_keys

  -- the tasks that a question about deadlines is answered from
  unfoldable pub deadline_selection : String → ℕ → List (TaskSummary F) → Selection F
  deadline_selection folded today tasks =
      let open_tasks =
        sort (deadline_before today)
          (select (λ t. not (is_done t) && has_value t.due_date) tasks) in
      if mentions_any ("most likely" ∷ "highest risk" ∷ "riskiest" ∷ "top " ∷ []) folded
      then all_required (first_rows 5 open_tasks)
      else if has_text "overdue" folded
      then record {
        selected = open_tasks;
        required = select (λ t. is_before t.due_date today) open_tasks;
      }
      else if has_text "due soon" folded
      then record {
        selected = open_tasks;
        required = select (λ t. is_within_week t.due_date today) open_tasks;
      }
      else all_required open_tasks

  abbrev pub is_task_scope : EvidenceScope → Bool
  is_task_scope task_scope = true
  is_task_scope project_scope = false
  is_task_scope employee_scope = false
  is_task_scope mixed_scope = false

  -- the keys that the plan or the context before names
  unfoldable pub keys_named : String → EvidencePlan → Option (GroundedAnswerContext F) → List String
  keys_named folded plan previous = keys_or (identifiers "task" plan.entities) previous
    where
      keys_or : List String → Option (GroundedAnswerContext F) → List String
      keys_or (k ∷ ks) previous = k ∷ ks
      keys_or [] none = []
      keys_or [] (some c) = if refers_to_prior folded then map (λ i. i.key) c.issues else []

  unfoldable pub selection_by_words : String → EvidencePlan → ℕ → List (TaskSummary F) → Selection F
  selection_by_words folded plan today tasks =
      if asks_blocked folded
      then all_required (select is_blocked tasks)
      else if has_text "missing" folded && has_text "estimate" folded
      then all_required (select (λ t. not (is_done t) && not (has_value t.remaining_hours)) tasks)
      else if mentions_any ("deadline" ∷ "due" ∷ "overdue" ∷ []) folded
      then deadline_selection folded today tasks
      else if is_task_scope plan.scope
      then all_required tasks
      else all_required []

  unfoldable pub task_selection :
      List String → String → EvidencePlan → ℕ → List (TaskSummary F) → Selection F
  task_selection [] folded plan today tasks = selection_by_words folded plan today tasks
  task_selection (k ∷ ks) folded plan today tasks = all_required (tasks_with_keys (k ∷ ks) tasks)
