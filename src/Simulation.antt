-- ===== src/Simulation.antt =====
-- domain/workforce_risk/simulation: the candidates for a reassignment (candidates.py) and the simulation of
-- one (service.py). Of a profile only what they read is modelled.
pub mod Candidates
use mathlib.Core.Option
use tasks_management.Base.{
  Bool, List, Option, Result, String, [], contains, err, false, find_first, if◌then◌else◌, leb,
  list_eq, map, nat_eq, none, not, ok, one_if, option_eq, select, some, sort, string_eq, string_lt,
  true, value_error, ℕ, ◌&&◌, ◌++◌, ◌==◌, ◌||◌, ◌∷◌,
}
use tasks_management.Risk.{ConfidenceLevel, confidence_eq, level_eq}
use tasks_management.Scoring.{RiskResult}

-- the operations on floats that rank candidates; `round_2 x` is `round(x, 2)`
pub record RankingFloats (F : Type 0) : Type 0 where
  pub half : F
  pub three_tenths : F
  pub fifth : F
  pub of_score : ℕ → F
  pub add : F → F → F
  pub mul : F → F → F
  pub round_2 : F → F
  pub lt : F → F → Bool
  pub same : F → F → Bool

-- what is read of a `WorkforceProfile`
pub record WorkforceProfile : Type 0 where
  pub employee_id : String
  pub jira_account_id : Option String

pub record CandidateEvidence (F : Type 0) : Type 0 where
  pub profile : WorkforceProfile
  pub has_jira_project_access : Bool
  pub overload_risk : RiskResult F
  pub task_fit_risk : RiskResult F
  pub predicted_project_risk : RiskResult F

pub record CandidateAssessment (F : Type 0) : Type 0 where
  pub employee_id : String
  pub eligible : Bool
  pub reasons : List String
  pub ranking_score : Option F

-- `result.confidence not in ACCEPTABLE_CONFIDENCE`
abbrev pub is_unsure : {F : Type 0} → RiskResult F → Bool
is_unsure r = not (contains r.confidence (ConfidenceLevel.medium ∷ ConfidenceLevel.high ∷ []))

abbrev pub is_none {ℓ} : {A : Type ℓ} → Option A → Bool
is_none none = true
is_none (some a) = false

-- `score is not None and score >= 75`
abbrev pub is_overloaded : Option ℕ → Bool
is_overloaded none = false
is_overloaded (some s) = leb 75 s

-- `reasons`, in the order in which they are appended
unfoldable pub reasons_against : {F : Type 0} → CandidateEvidence F → List String
reasons_against c =
    one_if (is_none c.profile.jira_account_id || not c.has_jira_project_access)
      "jira_access_unavailable"
    ++ one_if
        (is_unsure c.overload_risk
          || is_unsure c.task_fit_risk
          || is_unsure c.predicted_project_risk)
        "confidence_below_minimum"
    ++ one_if
        (is_none c.overload_risk.score
          || is_none c.task_fit_risk.score
          || is_none c.predicted_project_risk.score)
        "incomplete_structured_evidence"
    ++ one_if (is_overloaded c.overload_risk.score) "candidate_overloaded"

pub record ScoreFamilies (F : Type 0) : Type 0 where
  pub employee_overload : RiskResult F
  pub task_fit : RiskResult F
  pub project_delivery : RiskResult F

pub record ReassignmentSimulation (F : Type 0) : Type 0 where
  pub task_id : String
  pub current_assignee_id : String
  pub proposed_assignee_id : String
  pub current : ScoreFamilies F
  pub proposed : ScoreFamilies F
  pub candidate_ids : List String
  pub evidence_fingerprint : String

-- the model validator of `ReassignmentSimulation`
unfoldable pub same_scoring_rules :
    {F : Type 0} → ReassignmentSimulation F → Result (ReassignmentSimulation F)
same_scoring_rules s =
    let differs : RiskResult _ → RiskResult _ → Bool =
      λ a b. not (a.scoring_model_version == b.scoring_model_version) in
    if differs s.current.employee_overload s.proposed.employee_overload
      || differs s.current.task_fit s.proposed.task_fit
      || differs s.current.project_delivery s.proposed.project_delivery
    then err (value_error "what-if states must use identical scoring versions")
    else if not (contains s.proposed_assignee_id s.candidate_ids)
    then err (value_error "proposed assignee is not a selected candidate")
    else ok s

module _ {F : Type 0} (fl : RankingFloats F) where
  abbrev pub ranking : ℕ → ℕ → ℕ → F
  ranking task_fit overload project = fl.round_2 (
      fl.add
        (fl.add (fl.mul (fl.of_score task_fit) fl.half)
          (fl.mul (fl.of_score overload) fl.three_tenths))
        (fl.mul (fl.of_score project) fl.fifth))

  -- the ranking score of a candidate without reasons against it
  abbrev pub ranking_of : Option ℕ → Option ℕ → Option ℕ → Option F
  ranking_of (some task_fit) (some overload) (some project) =
      some (ranking task_fit overload project)
  ranking_of _ _ _ = none

  abbrev pub assessed : CandidateEvidence F → List String → CandidateAssessment F
  assessed c [] = record {
    employee_id = c.profile.employee_id;
    eligible = true;
    reasons = [];
    ranking_score =
        ranking_of c.task_fit_risk.score c.overload_risk.score c.predicted_project_risk.score;
  }
  assessed c (r ∷ rs) = record {
    employee_id = c.profile.employee_id;
    eligible = false;
    reasons = r ∷ rs;
    ranking_score = none;
  }

  unfoldable pub assess_candidate : CandidateEvidence F → CandidateAssessment F
  assess_candidate c = assessed c (reasons_against c)

  -- the comparison of two ranking scores, a missing one as infinity
  abbrev pub score_lt : Option F → Option F → Bool
  score_lt (some a) (some b) = fl.lt a b
  score_lt (some a) none = true
  score_lt none o = false

  abbrev pub score_same : Option F → Option F → Bool
  score_same (some a) (some b) = fl.same a b
  score_same none none = true
  score_same (some a) none = false
  score_same none (some b) = false

  -- the order of the sorting keys, which are tuples
  unfoldable pub ranks_before : CandidateAssessment F → CandidateAssessment F → Bool
  ranks_before a b =
      if a.eligible && not b.eligible
      then true
      else if b.eligible && not a.eligible
      then false
      else if score_same a.ranking_score b.ranking_score
      then string_lt a.employee_id b.employee_id
      else score_lt a.ranking_score b.ranking_score

  unfoldable pub select_candidates : List (CandidateEvidence F) → List (CandidateAssessment F)
  select_candidates candidates = sort ranks_before (map assess_candidate candidates)

  -- `eligible_ids`
  unfoldable pub eligible_ids : List (CandidateEvidence F) → List String
  eligible_ids candidates =
      map (λ a. a.employee_id) (select (λ a. a.eligible) (select_candidates candidates))

  abbrev pub is_employee : String → CandidateEvidence F → Bool
  is_employee id c = c.profile.employee_id == id

  abbrev pub proposed_scores : CandidateEvidence F → ScoreFamilies F
  proposed_scores c = record {
    employee_overload = c.overload_risk;
    task_fit = c.task_fit_risk;
    project_delivery = c.predicted_project_risk;
  }

  -- `simulate_reassignment`, with `digest` for the SHA-256 of the JSON of the simulation's material
  unfoldable pub simulate_with :
      (ReassignmentSimulation F → String)
      → String
      → String
      → List String
      → String
      → ScoreFamilies F
      → Option (CandidateEvidence F)
      → Result (ReassignmentSimulation F)
  simulate_with digest task_id current_assignee_id ids id current none =
      err (value_error "selected employee is not an eligible candidate")
  simulate_with digest task_id current_assignee_id ids id current (some selected) =
      let material : ReassignmentSimulation F = record {
        task_id = task_id;
        current_assignee_id = current_assignee_id;
        proposed_assignee_id = id;
        current = current;
        proposed = proposed_scores selected;
        candidate_ids = ids;
        evidence_fingerprint = "";
      } in
      if not (contains id ids)
      then err (value_error "selected employee is not an eligible candidate")
      else same_scoring_rules (record material { evidence_fingerprint = digest material })

  unfoldable pub simulate_reassignment :
      (ReassignmentSimulation F → String)
      → String
      → String
      → List (CandidateEvidence F)
      → String
      → ScoreFamilies F
      → Result (ReassignmentSimulation F)
  simulate_reassignment digest task_id current_assignee_id candidates id current =
      simulate_with digest task_id current_assignee_id (eligible_ids candidates) id current
        (find_first (is_employee id) candidates)
