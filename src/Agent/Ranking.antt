-- ===== src/Agent/Ranking.antt =====
-- services/agent-api/src/agent_api/evidence/derivation.py: who could take over the tasks of an employee.
pub mod Order
pub mod Suitable
use tasks_management.Base.{
  Bool, List, Option, String, [], any, concat, concat_map, contains, eqb, false, find_first,
  has_text, has_value, if◌then◌else◌, join, length, list_eq, ltb, map, nat_eq, none, not, one_if,
  option_eq, select, some, sort, string_eq, string_lt, ℕ, ◌&&◌, ◌++◌, ◌+◌, ◌==◌, ◌||◌, ◌∷◌,
}
use tasks_management.Agent.{
  CapacityEvidence, DashboardSnapshot, EmployeeSummary, HourFloats, MissingData, TaskSummary,
  Unicode, calculate_capacity, capacity_and_workload, category_eq, skills_and_seniority,
}
use tasks_management.Agent.Focus.{lex, or_empty}
use tasks_management.Agent.Focus.Answer.{is_one_of, missing}

pub record RankedCandidate (F : Type 0) : Type 0 where
  pub employee_id : String
  pub display_name : String
  pub role : Option String
  pub seniority : Option String
  pub rank : ℕ
  pub capacity_headroom_hours : Option F
  pub matching_skills : List String
  pub missing_required_skills : List String
  pub eligible : Bool
  pub reasons : List String

pub record CandidateRankingResult (F : Type 0) : Type 0 where
  pub status : String
  pub candidates : List (RankedCandidate F)
  pub missing_data : List MissingData

-- the elements of a set of texts, each once
unfoldable pub distinct : List String → List String
distinct [] = []
distinct (x ∷ xs) = if contains x xs then distinct xs else x ∷ distinct xs

abbrev pub levels : List String
levels = "lead" ∷ "senior" ∷ "mid" ∷ "junior" ∷ []

-- `min_hours` is the float -10000
module _ {F : Type 0} (u : Unicode) (lower : String → String) (fl : HourFloats F)
    (min_hours : F) where
  abbrev pub casefolded_name : Option (EmployeeSummary F) → Option String
  casefolded_name none = none
  casefolded_name (some e) = some (u.casefold e.display_name)

  abbrev is_named : Option String → TaskSummary F → Bool
  is_named none t = false
  is_named (some name) t = u.casefold (or_empty t.assignee_name) == name

  -- `required`: the skills of the tasks of the employee, who is known by id or by name
  unfoldable pub required_skills_of : DashboardSnapshot F → String → List String
  required_skills_of s source_id =
      let source_name =
        casefolded_name (find_first (λ e. e.employee_id == source_id) s.employees) in
      concat_map (λ t. map lower t.required_skills)
        (select (λ t. is_one_of t.assignee_id (source_id ∷ []) || is_named source_name t) s.tasks)

  abbrev pub documented : EmployeeSummary F → List String
  documented e = map lower e.skills

  unfoldable pub matching_of : List String → EmployeeSummary F → List String
  matching_of required e =
      sort string_lt (distinct (select (λ skill. contains skill (documented e)) required))

  unfoldable pub lacking_of : List String → EmployeeSummary F → List String
  lacking_of required e =
      sort string_lt (distinct (select (λ skill. not (contains skill (documented e))) required))

  abbrev headroom : Option (CapacityEvidence F) → Option F
  headroom none = none
  headroom (some c) = some c.capacity_headroom_hours

  abbrev pub headroom_of : EmployeeSummary F → Option F
  headroom_of e =
      headroom (calculate_capacity fl e.capacity_hours e.remaining_hours (some e.employee_id))

  abbrev pub is_positive : Option F → Bool
  is_positive none = false
  is_positive (some h) = fl.lt fl.zero h

  abbrev pub is_empty : List String → Bool
  is_empty skills = eqb (length skills) 0

  unfoldable pub is_eligible : List String → EmployeeSummary F → Bool
  is_eligible required e = is_positive (headroom_of e) && is_empty (lacking_of required e)

  abbrev pub seniority_of : EmployeeSummary F → Option String
  seniority_of e = find_first (λ level. has_text level (u.casefold (or_empty e.role))) levels

  abbrev capacity_reason : Option F → List String
  capacity_reason none = "configured capacity is unavailable" ∷ []
  capacity_reason (some h) =
      one_if (fl.lt h fl.zero || fl.same h fl.zero) "no positive capacity headroom"

  unfoldable pub reasons_of : List String → EmployeeSummary F → List String
  reasons_of required e =
      capacity_reason (headroom_of e)
      ++ one_if (not (is_empty (lacking_of required e)))
          (concat "missing required skills: " (join ", " (lacking_of required e)))
      ++ one_if (is_eligible required e) "documented skills match and capacity headroom is positive"

  -- that MissingData refuses an employee id of more than 119 characters is not modelled
  unfoldable pub missing_data_of : List String → EmployeeSummary F → List MissingData
  missing_data_of required e =
      one_if (not (has_value (headroom_of e))) (record {
        category = capacity_and_workload;
        reason = "configured candidate capacity is unavailable";
        entity = concat "employee:" e.employee_id;
        required_for_claim = false;
      })
      ++ one_if (not (is_empty required) && is_empty (documented e)) (record {
        category = skills_and_seniority;
        reason = "documented candidate skills are unavailable";
        entity = concat "employee:" e.employee_id;
        required_for_claim = false;
      })

  unfoldable pub candidate_of : List String → EmployeeSummary F → RankedCandidate F
  candidate_of required e = record {
    employee_id = e.employee_id;
    display_name = e.display_name;
    role = e.role;
    seniority = seniority_of e;
    rank = 1;
    capacity_headroom_hours = headroom_of e;
    matching_skills = matching_of required e;
    missing_required_skills = lacking_of required e;
    eligible = is_eligible required e;
    reasons = reasons_of required e;
  }

  abbrev hours_or_min : Option F → F
  hours_or_min none = min_hours
  hours_or_min (some h) = h

  -- `<` of the first four parts of the tuples: eligible first, then more skills, more hours and the smaller id
  unfoldable pub ranked_before : RankedCandidate F → RankedCandidate F → Bool
  ranked_before a b =
      let hours_a = hours_or_min a.capacity_headroom_hours in
      let hours_b = hours_or_min b.capacity_headroom_hours in
      let skills_a = length a.matching_skills in
      let skills_b = length b.matching_skills in
      lex (a.eligible && not b.eligible)
        (not (a.eligible || b.eligible) || (a.eligible && b.eligible))
        (lex (ltb skills_b skills_a) (eqb skills_a skills_b) (
          lex (fl.lt hours_b hours_a) (fl.same hours_a hours_b)
            (string_lt a.employee_id b.employee_id)))

  -- `enumerate(candidates, start)`
  unfoldable pub with_ranks : ℕ → List (RankedCandidate F) → List (RankedCandidate F)
  with_ranks start [] = []
  with_ranks start (c ∷ cs) = record c { rank = start } ∷ with_ranks (start + 1) cs

  unfoldable pub ranking_of : List (RankedCandidate F) → List MissingData → CandidateRankingResult F
  ranking_of ranked missing =
      if any (λ c. c.eligible) ranked
      then record { status = "success"; candidates = ranked; missing_data = missing }
      else if eqb (length missing) 0
      then record { status = "no_candidates"; candidates = ranked; missing_data = missing }
      else record { status = "insufficient_data"; candidates = []; missing_data = missing }

  unfoldable pub rank_reassignment_candidates :
      DashboardSnapshot F → String → CandidateRankingResult F
  rank_reassignment_candidates s source_id =
      let required = required_skills_of s source_id in
      let others = select (λ e. not (e.employee_id == source_id)) s.employees in
      ranking_of (with_ranks 1 (sort ranked_before (map (candidate_of required) others)))
        (concat_map (missing_data_of required) others)
