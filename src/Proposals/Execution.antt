-- ===== src/Proposals/Execution.antt =====
-- domain/workforce_risk/proposals/execution.py and class DatabaseExecutionStore of
-- packages/persistence/src/workforce_persistence/execution_repository.py: carrying out an approved
-- proposal, as short transactions around the Jira client.
pub mod Store
pub mod Rows
pub mod Once
pub mod Requests
use tasks_management.Base.{Call, Platform, Result, String, err, ok}
use tasks_management.Proposals.{
  ProposalState, executed_verified, execution_failed, stale, uncertain,
}
use tasks_management.Jira.Mutation.{
  ClientConfig, MutationOutcome, MutationReceipt, ReassignmentMutation, Remote, Transport, call,
  execute_mutation,
}
use tasks_management.Store.{Db}
use tasks_management.Proposals.Execution.Store.{
  ExecutionClaim, ExecutionResult, Prepared, claimed, finalize, finished, mark_write_attempted,
  prepare,
}

-- the database and the tool server that the service works on
pub record World (S : Type 0) : Type 0 where
  pub db : Db
  pub remote : Remote S

-- `ProposalState(receipt.outcome.value)`
unfoldable pub state_of_outcome : MutationOutcome → ProposalState
state_of_outcome MutationOutcome.executed_verified = executed_verified
state_of_outcome MutationOutcome.execution_failed = execution_failed
state_of_outcome MutationOutcome.uncertain = uncertain
state_of_outcome MutationOutcome.stale = stale

unfoldable pub mutation_of : ExecutionClaim → ReassignmentMutation
mutation_of claim = record {
  environment = claim.environment;
  project_key = claim.project_key;
  issue_key = claim.issue_key;
  expected_assignee_id = claim.expected_assignee_id;
  proposed_assignee_id = claim.proposed_assignee_id;
  proposal_id = claim.proposal_id;
  idempotency_key = claim.idempotency_key;
  correlation_id = claim.correlation_id;
}

unfoldable pub result_of_receipt : ExecutionClaim → MutationReceipt → ExecutionResult
unfolding state_of_outcome
result_of_receipt claim receipt = record {
  execution_id = claim.execution_id;
  proposal_id = claim.proposal_id;
  state = state_of_outcome receipt.outcome;
  correlation_id = claim.correlation_id;
  observed_assignee_id = receipt.observed_assignee_id;
  safe_error_code = receipt.safe_error_code;
}

-- what the service is built with: the store's environment and the mutation client
pub record Service (S : Type 0) : Type 0 where
  pub platform : Platform
  pub environment : String
  pub config : ClientConfig
  pub transport : Transport S

-- a transaction on the world's database: an error rolls it back
unfoldable pub in_transaction : {S A : Type 0} → Result (A × Db) → World S → Result A × World S
in_transaction (ok (a, db')) w = (ok a, record w { db = db' })
in_transaction (err e) w = (err e, w)

module _ {S : Type 0} (service : Service S) where
  -- `return await self._store.finalize(prepared, result)`
  unfoldable pub finish :
      Call → ExecutionClaim → Result MutationReceipt → World S → Result ExecutionResult × World S
  finish call claim (err e) w = (err e, w)
  finish call claim (ok receipt) w =
      in_transaction
        (finalize service.platform service.environment call claim (result_of_receipt claim receipt)
          w.db)
        w

  -- the client is called only after the mark is committed
  unfoldable pub carry_out :
      Call → ExecutionClaim → Result Db → World S → Result ExecutionResult × World S
  carry_out call claim (err e) w = (err e, w)
  carry_out call claim (ok db') w =
      let (receipt, remote') =
        execute_mutation service.transport service.config (mutation_of claim) w.remote in
      finish call claim receipt (record { db = db'; remote = remote' })

  -- `if isinstance(prepared, ExecutionResult): return prepared`
  unfoldable pub after_prepare :
      Call → Result (Prepared × Db) → World S → Result ExecutionResult × World S
  after_prepare call (err e) w = (err e, w)
  after_prepare call (ok (finished result, db')) w = (ok result, record w { db = db' })
  after_prepare call (ok (claimed claim, db')) w =
      carry_out call claim (mark_write_attempted service.environment claim db')
        (record w { db = db' })

  -- the first call serves `prepare`, the second `finalize`
  unfoldable pub execute :
      Call → Call → String → String → World S → Result ExecutionResult × World S
  execute first second proposal_id correlation_id w =
      after_prepare second
        (prepare service.platform service.environment first proposal_id correlation_id w.db) w
