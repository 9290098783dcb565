-- ===== src/Proposals/Repository.antt =====
-- packages/persistence/src/workforce_persistence/proposal_repository.py: creating a proposal and
-- deciding on it. Each method runs in one transaction, so an error leaves the database as it was.
use tasks_management.Base.{
  Bool, Call, List, Option, Payload, Platform, Result, String, [], concat, contains, count_where,
  err, find_first, if◌then◌else◌, list_eq, nat_eq, none, not, number, ok, option_eq,
  permission_error, runtime_error, some, string, string_eq, strings, update_where, value_error, ℕ,
  ◌&&◌, ◌++◌, ◌+◌, ◌==◌, ◌>>=◌, ◌∷◌,
}
use tasks_management.Risk.{confidence_eq, confidence_value, level_eq}
use tasks_management.Proposals.{
  ProposalState, executing, expired, pending, rejected, stale, state_eq, state_value,
  validate_transition,
}
use tasks_management.Proposals.Models.{
  ProposalActor, ProposalCreateCommand, ProposalDecisionCommand, SimulationRow, approve,
  decision_value, get_simulation, is_expired, reject, validate_expiry,
}
use tasks_management.Store.{Db, Decision, Proposal}
use tasks_management.Store.Audit.{AuditEntry, append_audit}

pub record StoredProposal : Type 0 where
  pub proposal_id : String
  pub state : ProposalState
  pub version : ℕ
  pub task_id : String
  pub current_assignee_id : String
  pub proposed_assignee_id : String
  pub evidence_fingerprint : String
  pub expires_at : ℕ
  pub project_key : String
  pub confidence : String
  pub scoring_versions : List String
  pub simulation_payload : Payload

unfoldable pub view : Proposal → StoredProposal
view r = record {
  proposal_id = r.id;
  state = r.state;
  version = r.version;
  task_id = r.task_key;
  current_assignee_id = r.expected_assignee;
  proposed_assignee_id = r.proposed_assignee;
  evidence_fingerprint = r.evidence_fingerprint;
  expires_at = r.expires_at;
  project_key = r.project_key;
  confidence = r.confidence;
  scoring_versions = r.scoring_versions;
  simulation_payload = r.simulation_payload;
}

-- the row that a query by id and environment finds
abbrev pub is_proposal : String → String → Proposal → Bool
is_proposal id env r = r.id == id && r.environment == env

-- `record is None or record.project_key not in actor.project_scopes`
abbrev pub in_scope : ProposalActor → Option Proposal → Option Proposal
in_scope actor none = none
in_scope actor (some r) = if contains r.project_key actor.project_scopes then some r else none

unfoldable pub get_authorized : String → ProposalActor → Db → Option StoredProposal
get_authorized proposal_id actor db =
    elim (in_scope actor (find_first (is_proposal proposal_id actor.environment) db.proposals)) [
      | none ↦ none
      | some r ↦ some (view r)
    ]

unfoldable pub new_proposal : Call → ProposalCreateCommand → ProposalActor → Proposal
unfolding confidence_value
new_proposal call command actor =
    let simulation = command.simulation in
    record {
      id = call.uuid 0;
      environment = actor.environment;
      created_at = command.requested_at;
      simulation_id = simulation.simulation_id;
      project_key = simulation.project_key;
      task_key = simulation.task_id;
      expected_assignee = simulation.current_assignee_id;
      proposed_assignee = simulation.proposed_assignee_id;
      state = pending;
      idempotency_key = command.idempotency_key;
      evidence_fingerprint = simulation.evidence_fingerprint;
      confidence = confidence_value simulation.confidence;
      scoring_versions = simulation.scoring_model_versions;
      simulation_payload = simulation.safe_payload;
      requested_by = actor.actor_id;
      expires_at = command.expires_at;
      version = 1;
    }

unfoldable pub created_entry : Call → ProposalCreateCommand → ProposalActor → AuditEntry
created_entry call command actor = record {
  action_type = "proposal.created";
  actor_type = actor.role;
  actor_id = actor.actor_id;
  subject_ids = call.uuid 0 ∷ command.simulation.task_id ∷ [];
  correlation_id = actor.correlation_id;
  prior_state = none;
  new_state = some (("state", string (state_value pending)) ∷ ("version", number 1) ∷ []);
  safe_metadata =
      ("simulation_id", string command.simulation.simulation_id)
      ∷ ("scoring_versions", strings command.simulation.scoring_model_versions)
      ∷ [];
}

-- the branches of `decide` that choose the target state
unfoldable pub decision_target : Proposal → ProposalDecisionCommand → ProposalState
unfolding is_expired
decision_target r command =
    if is_expired r.expires_at command.decided_at
    then expired
    else if not (r.evidence_fingerprint == command.current_evidence_fingerprint)
    then stale
    else elim command.decision [ reject ↦ rejected | approve ↦ executing ]

-- `r` is the loaded row once the update has set its version: an update through the session sets it in memory as well
unfoldable pub decided_entry : ProposalActor → ProposalState → Proposal → ProposalState → AuditEntry
unfolding state_value
decided_entry actor current r target = record {
  action_type = concat "proposal." (state_value target);
  actor_type = actor.role;
  actor_id = actor.actor_id;
  subject_ids = r.id ∷ r.task_key ∷ [];
  correlation_id = actor.correlation_id;
  prior_state = some (("state", string (state_value current)) ∷ ("version", number r.version) ∷ []);
  new_state =
      some (("state", string (state_value target)) ∷ ("version", number (r.version + 1)) ∷ []);
  safe_metadata = [];
}

unfoldable pub new_decision : Call → ProposalDecisionCommand → ProposalActor → Proposal → Decision
unfolding decision_value
new_decision call command actor r = record {
  id = call.uuid 0;
  environment = actor.environment;
  created_at = command.decided_at;
  proposal_id = r.id;
  actor_id = actor.actor_id;
  decision = decision_value command.decision;
  correlation_id = actor.correlation_id;
  idempotency_key = command.idempotency_key;
}

-- the `where` of the conditional update, and its values
abbrev pub decidable_row : Proposal → ProposalDecisionCommand → Proposal → Bool
decidable_row r command row =
    row.id == r.id && row.version == command.expected_version && row.state == pending

abbrev pub moved_to : ProposalState → Proposal → Proposal
moved_to target row = record row { state = target; version = row.version + 1 }

-- `record.state = target.value; record.version += 1`
abbrev pub assigned : ProposalState → Proposal → Proposal
assigned target row = record row { state = target; version = row.version + 1 }

-- the row after the update, and after the flush of the loaded row, which has the same primary key
abbrev pub decided_row : ProposalState → Proposal → Proposal
decided_row target row = assigned target (moved_to target row)

module _ (platform : Platform) where
  unfoldable pub create :
      Call → ProposalCreateCommand → ProposalActor → Db → Result (StoredProposal × Db)
  create call command actor db =
      let simulation = command.simulation in
      if not (actor.environment == simulation.environment)
      then err (permission_error "proposal environment mismatch")
      else if not (contains simulation.project_key actor.project_scopes)
      then err (permission_error "proposal project scope mismatch")
      else elim (find_first
          (λ r. r.environment == actor.environment && r.idempotency_key == command.idempotency_key)
          db.proposals) [
            | some existing ↦ ok (view existing, db)
            | none ↦
                let row = new_proposal call command actor in
                ok (
                  view row,
                  record db {
                    proposals = db.proposals ++ row ∷ [];
                    audit =
                        append_audit platform call 1 actor.environment
                          (created_entry call command actor) db.audit;
                  },
                )
          ]

  unfoldable pub create_from_stored_simulation :
      Call
      → String
      → String
      → ℕ
      → ℕ
      → ProposalActor
      → List SimulationRow
      → Db
      → Result (StoredProposal × Db)
  create_from_stored_simulation call simulation_id key expires_at requested_at actor simulations
        db =
      do
        found ← get_simulation actor.environment simulation_id simulations
        elim found [
          | none ↦ err (value_error "stored simulation not found")
          | some simulation ↦ do
            command ← validate_expiry (record {
              simulation = simulation;
              idempotency_key = key;
              expires_at = expires_at;
              requested_at = requested_at;
            })
            create call command actor db
        ]

  -- the writes of `decide`, once the target is chosen
  unfoldable pub apply_decision :
      Call
      → ProposalDecisionCommand
      → ProposalActor
      → Proposal
      → ProposalState
      → Db
      → Result (StoredProposal × Db)
  apply_decision call command actor r target db =
      if not (count_where (decidable_row r command) db.proposals == 1)
      then err (value_error "proposal concurrent transition conflict")
      else ok (
        view (decided_row target r),
        record db {
          proposals = update_where (decidable_row r command) (decided_row target) db.proposals;
          decisions = db.decisions ++ new_decision call command actor r ∷ [];
          audit =
              append_audit platform call 1 actor.environment
                (decided_entry actor r.state (moved_to target r) target) db.audit;
        },
      )

  -- `decide` after the duplicate check, on the locked row
  unfoldable pub decide_row :
      Call
      → ProposalDecisionCommand
      → ProposalActor
      → Option Proposal
      → Db
      → Result (StoredProposal × Db)
  decide_row call command actor none db =
      err (permission_error "proposal not found in authorized scope")
  decide_row call command actor (some r) db =
      if not (r.version == command.expected_version)
      then err (value_error "proposal version conflict")
      else if not (r.state == pending)
      then err (value_error "proposal is not pending")
      else let target = decision_target r command in
        (do
          done ← validate_transition r.state target
          apply_decision call command actor r target db)

  -- a decision with this key has been taken: the proposal as it is now
  unfoldable pub decided_before : Option Proposal → Db → Result (StoredProposal × Db)
  decided_before none db = err (runtime_error "AssertionError")
  decided_before (some r) db = ok (view r, db)

  unfoldable pub decide :
      Call → ProposalDecisionCommand → ProposalActor → Db → Result (StoredProposal × Db)
  decide call command actor db =
      elim (find_first
        (λ d. d.environment == actor.environment && d.idempotency_key == command.idempotency_key)
        db.decisions) [
          | some duplicate ↦
              decided_before (find_first (λ r. r.id == duplicate.proposal_id) db.proposals) db
          | none ↦
              decide_row call command actor
                (in_scope actor
                  (find_first (is_proposal command.proposal_id actor.environment) db.proposals))
                db
        ]
