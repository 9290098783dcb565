-- ===== src/Tests/Simulation.antt =====
-- Two candidates, of whom one is overloaded.
use tasks_management.Base.{
  List, String, [], arith, contains, count_where, eqb, find_first, insert, ltb, nat_eq, none, ok,
  option_eq, refl, select, some, sort, string_eq, true, ℕ, ◌*◌, ◌+◌, ◌∷◌, ◌≡◌,
}
use tasks_management.Risk.{ConfidenceLevel}
use tasks_management.Scoring.{RiskResult}
use tasks_management.Simulation.{
  CandidateEvidence, RankingFloats, ReassignmentSimulation, ScoreFamilies, assess_candidate,
  eligible_ids, is_employee, proposed_scores, ranks_before, reasons_against, same_scoring_rules,
  select_candidates, simulate_reassignment, simulate_with,
}
use tasks_management.Simulation.Candidates.{IsEligible, simulate_reassignment-IsEligible}

abbrev whole : RankingFloats ℕ
whole = record {
  half = 5;
  three_tenths = 3;
  fifth = 2;
  of_score = λ n. n;
  add = λ a b. a + b;
  mul = λ a b. a * b;
  round_2 = λ a. a;
  lt = ltb;
  same = eqb;
}

abbrev result : ℕ → RiskResult ℕ
result score = record {
  subject_id = "x";
  environment = "dev";
  score = some score;
  level = none;
  confidence = ConfidenceLevel.high;
  scored_at = 1;
  evidence_timestamp = 1;
  scoring_model_version = "v1";
  factors = [];
  thresholds = [];
  evidence_references = [];
  missing_evidence = [];
  excluded_evidence = [];
}

abbrev candidate : String → ℕ → CandidateEvidence ℕ
candidate id overload = record {
  profile = record { employee_id = id; jira_account_id = some "account" };
  has_jira_project_access = true;
  overload_risk = result overload;
  task_fit_risk = result 20;
  predicted_project_risk = result 30;
}

abbrev candidates : List (CandidateEvidence ℕ)
candidates = candidate "ann" 80 ∷ candidate "bob" 40 ∷ []

abbrev current : ScoreFamilies ℕ
current = record {
  employee_overload = result 80;
  task_fit = result 60;
  project_delivery = result 50;
}

abbrev digest : ReassignmentSimulation ℕ → String
digest s = "d"

simulation_run :
    (s : ReassignmentSimulation ℕ) × (simulate_reassignment whole digest "WRD-7" "ann" candidates
        "bob" current
      ≡ ok s)
unfolding simulate_reassignment simulate_with same_scoring_rules eligible_ids select_candidates
    assess_candidate reasons_against ranks_before sort insert select find_first contains
simulation_run = (_, refl)

simulate_reassignment-IsEligible_example :
    (c : CandidateEvidence ℕ) × (find_first (is_employee whole "bob") candidates ≡ some c)
    × IsEligible c
    × (simulation_run.0.proposed_assignee_id ≡ "bob")
    × (simulation_run.0.proposed ≡ proposed_scores whole c)
    × ("v1" ≡ c.overload_risk.scoring_model_version)
unfolding count_where
simulate_reassignment-IsEligible_example =
    simulate_reassignment-IsEligible whole digest "WRD-7" "ann" candidates "bob" current
      simulation_run.0 simulation_run.1 (omega arith)
