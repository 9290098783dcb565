-- ===== src/Proposals/Models.antt =====
-- domain/workforce_risk/proposals/models.py: the commands of the proposal component and their
-- validators, and packages/persistence/src/workforce_persistence/simulation_repository.py.
use tasks_management.Base.{
  Bool, List, Option, Payload, Result, String, [], contains, err, find_first, if◌then◌else◌, leb,
  list_eq, nat_eq, none, not, ok, option_eq, some, string_eq, value_error, ℕ, ◌&&◌, ◌==◌, ◌>>=◌,
  ◌∷◌,
}
use tasks_management.Risk.{ConfidenceLevel, confidence_eq, confidence_of_value, level_eq}

-- the pattern, length and values that the model demands of single fields hold of every simulation that has been built
pub record StoredSimulation : Type 0 where
  pub simulation_id : String
  pub environment : String
  pub project_key : String
  pub task_id : String
  pub current_assignee_id : String
  pub proposed_assignee_id : String
  pub candidate_ids : List String
  pub confidence : ConfidenceLevel
  pub evidence_fingerprint : String
  pub scoring_model_versions : List String
  pub simulated_at : ℕ
  pub safe_payload : Payload

-- the model validator, which runs whenever a `StoredSimulation` is built
unfoldable pub validate_candidate : StoredSimulation → Result StoredSimulation
unfolding contains
validate_candidate s =
    if s.current_assignee_id == s.proposed_assignee_id
    then err (value_error "proposal must change the assignee")
    else if not (contains s.proposed_assignee_id s.candidate_ids)
    then err (value_error "proposed assignee is not in deterministic candidates")
    else if not (contains s.confidence (ConfidenceLevel.medium ∷ ConfidenceLevel.high ∷ []))
    then err (value_error "proposal confidence is below minimum")
    else ok s

pub record ProposalCreateCommand : Type 0 where
  pub simulation : StoredSimulation
  pub idempotency_key : String
  pub expires_at : ℕ
  pub requested_at : ℕ

unfoldable pub validate_expiry : ProposalCreateCommand → Result ProposalCreateCommand
validate_expiry c =
    if leb c.expires_at c.requested_at
    then err (value_error "proposal expiry must be in the future")
    else ok c

pub data DecisionKind : Type 0 where
  approve reject : DecisionKind

unfoldable pub decision_value : DecisionKind → String
decision_value approve = "approve"
decision_value reject = "reject"

pub record ProposalDecisionCommand : Type 0 where
  pub proposal_id : String
  pub expected_version : ℕ
  pub decision : DecisionKind
  pub idempotency_key : String
  pub current_evidence_fingerprint : String
  pub decided_at : ℕ

pub record ProposalActor : Type 0 where
  pub actor_id : String
  pub role : String
  pub environment : String
  pub project_scopes : List String
  pub correlation_id : String

unfoldable pub is_expired : ℕ → ℕ → Bool
is_expired expires_at now = leb expires_at now

-- a row of `reassignment_simulations`; the identifier is a generated one
pub record SimulationRow : Type 0 where
  pub id : String
  pub environment : String
  pub created_at : ℕ
  pub simulation_id : String
  pub project_key : String
  pub task_key : String
  pub current_assignee : String
  pub proposed_assignee : String
  pub candidate_ids : List String
  pub confidence : String
  pub evidence_fingerprint : String
  pub scoring_versions : List String
  pub safe_payload : Payload

-- the lookup of `SimulationRepository.get`
abbrev pub is_stored : String → String → SimulationRow → Bool
is_stored env simulation_id r = r.environment == env && r.simulation_id == simulation_id

-- the model of a row, which is validated
unfoldable pub read_row : SimulationRow → Result StoredSimulation
read_row r = do
  confidence ← confidence_of_value r.confidence
  validate_candidate (record {
    simulation_id = r.simulation_id;
    environment = r.environment;
    project_key = r.project_key;
    task_id = r.task_key;
    current_assignee_id = r.current_assignee;
    proposed_assignee_id = r.proposed_assignee;
    candidate_ids = r.candidate_ids;
    confidence = confidence;
    evidence_fingerprint = r.evidence_fingerprint;
    scoring_model_versions = r.scoring_versions;
    simulated_at = r.created_at;
    safe_payload = r.safe_payload;
  })

unfoldable pub read_simulation : Option SimulationRow → Result (Option StoredSimulation)
read_simulation none = ok none
read_simulation (some r) = do s ← read_row r; ok (some s)

-- SimulationRepository.get
unfoldable pub get_simulation :
    String → String → List SimulationRow → Result (Option StoredSimulation)
get_simulation env simulation_id rows =
    read_simulation (find_first (is_stored env simulation_id) rows)
