-- ===== src/Proposals/Reconciliation.antt =====
-- domain/workforce_risk/proposals/reconciliation.py, class ReconciliationService: reading Jira to
-- settle executions whose outcome is not known. The reader is the Jira client's `read_assignee`.
pub mod Store
pub mod Verdict
use tasks_management.Base.{
  Call, List, Option, Platform, Result, String, [], err, if◌then◌else◌, nat_eq, none, not, ok,
  on_success, option_eq, some, string_eq, ℕ, ◌&&◌, ◌==◌, ◌∷◌,
}
use tasks_management.Proposals.{
  ProposalState, executed_verified, execution_failed, state_eq, uncertain,
}
use tasks_management.Store.{Db, ExecutionRecord}
use tasks_management.Jira.Mutation.{Transport, call, read_assignee}
use tasks_management.Proposals.Execution.{World}
use tasks_management.Proposals.Reconciliation.Store.{
  LeaseConfig, ReconciliationClaim, lease_abandoned, lease_proposal, resolve,
}

pub record ReconciliationResult : Type 0 where
  pub execution_id : String
  pub state : ProposalState
  pub observed_assignee_id : Option String
  pub safe_error_code : Option String

-- `observed` and `error_code` after the `try`
abbrev pub observed_of : Result (Option String) → Option String
observed_of (ok observed) = observed
observed_of (err e) = none

abbrev pub read_error : Result (Option String) → Option String
read_error (ok observed) = none
read_error (err e) = some "jira_reconciliation_read_failed"

-- `error_code or "jira_reconciliation_ambiguous"`
abbrev pub or_ambiguous : Option String → Option String
or_ambiguous none = some "jira_reconciliation_ambiguous"
or_ambiguous (some code) = some code

-- the state and the error code that the observation leads to
unfoldable pub verdict :
    ReconciliationClaim → Result (Option String) → ProposalState × Option String
verdict claim answer =
    let observed = observed_of answer in
    if observed == some claim.proposed_assignee_id
    then (executed_verified, read_error answer)
    else if observed == some claim.expected_assignee_id && not claim.write_attempted
    then (execution_failed, read_error answer)
    else (uncertain, or_ambiguous (read_error answer))

unfoldable pub evidence_of :
    ReconciliationClaim → Result (Option String) → Option String → ExecutionRecord
evidence_of claim answer code = record {
  observed_assignee_id = observed_of answer;
  safe_error_code = code;
  write_attempted = claim.write_attempted;
}

unfoldable pub result_of_verdict :
    ReconciliationClaim
    → Result (Option String)
    → ProposalState × Option String
    → ReconciliationResult
result_of_verdict claim answer (state, code) = record {
  execution_id = claim.execution_id;
  state = state;
  observed_assignee_id = observed_of answer;
  safe_error_code = code;
}

module _ {S : Type 0} (platform : Platform) (config : LeaseConfig) (transport : Transport S) where
  -- `resolve` runs in its own transaction: an error rolls it back and is raised
  unfoldable pub settle :
      ReconciliationResult → Result Db → World S → Result ReconciliationResult × World S
  settle result (ok db') w = (ok result, record w { db = db' })
  settle result (err e) w = (err e, w)

  unfoldable pub reconcile :
      Call → ReconciliationClaim → World S → Result ReconciliationResult × World S
  reconcile call claim w =
      let (answer, remote') = read_assignee transport claim.issue_key w.remote in
      let (state, code) = verdict claim answer in
      settle (result_of_verdict claim answer (state, code))
        (resolve platform config.environment call claim state (evidence_of claim answer code) w.db)
        (record w { remote = remote' })

  -- the loop of `run_once`: an exception ends it
  unfoldable pub reconcile_all :
      Call → List ReconciliationClaim → World S → Result (List ReconciliationResult) × World S
  reconcile_all call [] w = (ok [], w)
  reconcile_all call (claim ∷ claims) w =
      let (result, w') = reconcile call claim w in
      let (rest, w'') = reconcile_all call claims w' in
      elim result [ err e ↦ (err e, w') | ok r ↦ (on_success (λ rs. ok (r ∷ rs)) rest, w'') ]

  unfoldable pub run_once :
      Call → String → ℕ → World S → Result (List ReconciliationResult) × World S
  run_once call worker_id limit w =
      let (claims, db') = lease_abandoned config call.now worker_id limit w.db in
      reconcile_all call claims (record w { db = db' })

  unfoldable pub run_proposal :
      Call → String → String → World S → Result (Option ReconciliationResult) × World S
  run_proposal call proposal_id worker_id w =
      let (claim, db') = lease_proposal config call.now proposal_id worker_id w.db in
      let w' = record w { db = db' } in
      elim claim [
        | none ↦ (ok none, w')
        | some c ↦
            let (result, w'') = reconcile call c w' in (on_success (λ r. ok (some r)) result, w'')
      ]
