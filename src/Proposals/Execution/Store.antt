-- ===== src/Proposals/Execution/Store.antt =====
-- packages/persistence/src/workforce_persistence/execution_repository.py, class
-- DatabaseExecutionStore, with the claims and results of
-- domain/workforce_risk/proposals/execution.py. An error rolls its transaction back.
use tasks_management.Base.{
  Bool, Call, Option, Platform, Result, String, [], concat, err, false, find_first, flag,
  if◌then◌else◌, nat_eq, none, not, ok, option_eq, some, string, string_eq, string_or_null, true,
  update_where, value_error, ℕ, ◌&&◌, ◌++◌, ◌+◌, ◌==◌, ◌>>=◌, ◌∷◌,
}
use tasks_management.Proposals.{
  ProposalState, executing, state_eq, state_value, uncertain, validate_transition,
}
use tasks_management.Store.{Db, Execution, Proposal}
use tasks_management.Store.Audit.{AuditEntry, append_audit}
use tasks_management.Store.Outbox.{append_outbox}

pub record ExecutionClaim : Type 0 where
  pub execution_id : String
  pub proposal_id : String
  pub environment : String
  pub project_key : String
  pub issue_key : String
  pub expected_assignee_id : String
  pub proposed_assignee_id : String
  pub idempotency_key : String
  pub correlation_id : String

pub record ExecutionResult : Type 0 where
  pub execution_id : String
  pub proposal_id : String
  pub state : ProposalState
  pub correlation_id : String
  pub observed_assignee_id : Option String
  pub safe_error_code : Option String

-- `ExecutionClaim | ExecutionResult`
pub data Prepared : Type 0 where
  claimed : ExecutionClaim → Prepared
  finished : ExecutionResult → Prepared

-- `value or "unknown"`
abbrev pub or_unknown : Option String → String
or_unknown none = "unknown"
or_unknown (some s) = if s == "" then "unknown" else s

unfoldable pub result_of : Execution → ExecutionResult
result_of r = record {
  execution_id = r.id;
  proposal_id = r.proposal_id;
  state = r.state;
  correlation_id = or_unknown r.external_correlation_id;
  observed_assignee_id = r.result.observed_assignee_id;
  safe_error_code = r.result.safe_error_code;
}

abbrev pub is_execution_of : String → String → Execution → Bool
is_execution_of env proposal_id r = r.environment == env && r.proposal_id == proposal_id

abbrev pub is_execution : String → String → Execution → Bool
is_execution env id r = r.id == id && r.environment == env

abbrev pub has_proposal_id : String → Proposal → Bool
has_proposal_id id r = r.id == id

unfoldable pub new_execution : Call → String → Proposal → String → Execution
new_execution call env proposal correlation_id = record {
  id = call.uuid 0;
  environment = env;
  created_at = call.now;
  proposal_id = proposal.id;
  state = executing;
  external_correlation_id = some correlation_id;
  result = record { observed_assignee_id = none; safe_error_code = none; write_attempted = false };
  write_attempted = false;
  lease_owner = none;
  leased_at = none;
}

unfoldable pub started_entry : String → Proposal → String → AuditEntry
unfolding state_value
started_entry proposal_id proposal correlation_id = record {
  action_type = "proposal.execution_started";
  actor_type = "service";
  actor_id = "workforce-risk-mcp";
  subject_ids = proposal_id ∷ proposal.task_key ∷ [];
  correlation_id = correlation_id;
  prior_state = none;
  new_state = some (("state", string (state_value executing)) ∷ []);
  safe_metadata = [];
}

unfoldable pub claim_of : Execution → String → String → Proposal → String → ExecutionClaim
claim_of execution env proposal_id proposal correlation_id = record {
  execution_id = execution.id;
  proposal_id = proposal_id;
  environment = env;
  project_key = proposal.project_key;
  issue_key = proposal.task_key;
  expected_assignee_id = proposal.expected_assignee;
  proposed_assignee_id = proposal.proposed_assignee;
  idempotency_key = concat "execute-" proposal_id;
  correlation_id = correlation_id;
}

-- the columns that `mark_write_attempted` writes
unfoldable pub marked : Execution → Execution
marked r = record r {
  write_attempted = true;
  result = record { observed_assignee_id = none; safe_error_code = none; write_attempted = true };
}

-- the row that `mark_write_attempted` accepts
abbrev pub is_active : Option Execution → Bool
is_active none = false
is_active (some r) = r.state == executing

unfoldable pub mark_write_attempted : String → ExecutionClaim → Db → Result Db
unfolding marked find_first update_where
mark_write_attempted env claim db =
    if is_active (find_first (is_execution env claim.execution_id) db.executions)
    then ok (record db {
      executions = update_where (is_execution env claim.execution_id) marked db.executions;
    })
    else err (value_error "execution is not active")

unfoldable pub settled : ExecutionResult → Execution → Execution
settled result r = record r {
  state = result.state;
  result = record {
    observed_assignee_id = result.observed_assignee_id;
    safe_error_code = result.safe_error_code;
    write_attempted = r.write_attempted;
  };
}

abbrev pub moved_to : ProposalState → Proposal → Proposal
moved_to state r = record r { state = state; version = r.version + 1 }

unfoldable pub finalized_entry : ExecutionClaim → ExecutionResult → Execution → AuditEntry
unfolding state_value
finalized_entry claim result execution = record {
  action_type = concat "proposal." (state_value result.state);
  actor_type = "service";
  actor_id = "workforce-risk-mcp";
  subject_ids = claim.proposal_id ∷ claim.issue_key ∷ [];
  correlation_id = claim.correlation_id;
  prior_state = some (("state", string (state_value executing)) ∷ []);
  new_state = some (("state", string (state_value result.state)) ∷ []);
  safe_metadata =
      ("observed_assignee_id", string_or_null result.observed_assignee_id)
      ∷ ("safe_error_code", string_or_null result.safe_error_code)
      ∷ ("write_attempted", flag execution.write_attempted)
      ∷ [];
}

-- the event that tells a manager of an uncertain outcome, if the outcome is uncertain
unfoldable pub with_uncertain_event :
    Call → ℕ → String → ProposalState → String → String → String → String → Db → Db
unfolding append_outbox
with_uncertain_event call n env state execution_id proposal_id issue_key correlation_id db =
    if state == uncertain
    then record db {
      outbox =
          append_outbox call n env (concat "uncertain-execution:" execution_id)
            "manager.uncertain_reassignment"
            (("proposal_id", string proposal_id)
              ∷ ("issue_key", string issue_key)
              ∷ ("correlation_id", string correlation_id)
              ∷ [])
            call.now db.outbox;
    }
    else db

module _ (platform : Platform) (env : String) where
  -- `prepare` on the row of the proposal, when there is no execution of it
  unfoldable pub start_execution :
      Call → String → String → Option Proposal → Db → Result (Prepared × Db)
  start_execution call proposal_id correlation_id none db = err (value_error "proposal not found")
  start_execution call proposal_id correlation_id (some proposal) db =
      let execution = new_execution call env proposal correlation_id in
      if not (proposal.state == executing)
      then err (value_error "proposal is not executing")
      else ok (
        claimed (claim_of execution env proposal_id proposal correlation_id),
        record db {
          executions = db.executions ++ execution ∷ [];
          audit =
              append_audit platform call 1 env (started_entry proposal_id proposal correlation_id)
                db.audit;
        },
      )

  unfoldable pub prepare : Call → String → String → Db → Result (Prepared × Db)
  prepare call proposal_id correlation_id db =
      elim (find_first (is_execution_of env proposal_id) db.executions) [
        | some existing ↦ ok (finished (result_of existing), db)
        | none ↦
            start_execution call proposal_id correlation_id
              (find_first (λ r. r.id == proposal_id && r.environment == env) db.proposals) db
      ]

  -- `finalize` on the locked rows
  unfoldable pub finalize_rows :
      Call
      → ExecutionClaim
      → ExecutionResult
      → Option Execution
      → Option Proposal
      → Db
      → Result (ExecutionResult × Db)
  finalize_rows call claim result (some execution) (some proposal) db =
      if not (execution.state == executing) then ok (result_of execution, db) else do
        done ← validate_transition proposal.state result.state
        ok (
          result,
          with_uncertain_event call 1 env result.state claim.execution_id claim.proposal_id
              claim.issue_key claim.correlation_id
              (record db {
                executions =
                    update_where (is_execution env claim.execution_id) (settled result)
                      db.executions;
                proposals =
                    update_where (has_proposal_id claim.proposal_id) (moved_to result.state)
                      db.proposals;
                audit =
                    append_audit platform call 0 env (finalized_entry claim result execution)
                      db.audit;
              }),
        )
  finalize_rows call claim result _ _ db = err (value_error "execution state not found")

  unfoldable pub finalize :
      Call → ExecutionClaim → ExecutionResult → Db → Result (ExecutionResult × Db)
  finalize call claim result db =
      finalize_rows call claim result
        (find_first (is_execution env claim.execution_id) db.executions)
        (find_first (has_proposal_id claim.proposal_id) db.proposals) db
