-- ===== src/Proposals/Reconciliation/Store.antt =====
-- packages/persistence/src/workforce_persistence/execution_repository.py, class
-- DatabaseReconciliationStore: leasing executions that were left behind, and settling them.
use tasks_management.Base.{
  Bool, Call, List, Option, Platform, Result, String, [], any, concat, err, find_first, flag,
  if◌then◌else◌, leb, ltb, map, nat_eq, none, not, ok, option_eq, select, some, sort, string,
  string_eq, string_or_null, suc, true, update_where, value_error, zero, ℕ, ◌&&◌, ◌+◌, ◌==◌, ◌>>=◌,
  ◌||◌, ◌∷◌,
}
use tasks_management.Proposals.{
  ProposalState, executing, state_eq, state_value, uncertain, validate_transition,
}
use tasks_management.Store.{Db, Execution, ExecutionRecord, Proposal}
use tasks_management.Store.Audit.{AuditEntry, append_audit}
use tasks_management.Proposals.Execution.Store.{
  has_proposal_id, is_execution, moved_to, or_unknown, with_uncertain_event,
}

pub record ReconciliationClaim : Type 0 where
  pub execution_id : String
  pub proposal_id : String
  pub issue_key : String
  pub expected_assignee_id : String
  pub proposed_assignee_id : String
  pub correlation_id : String
  pub write_attempted : Bool

-- the store's construction arguments
pub record LeaseConfig : Type 0 where
  pub environment : String
  pub abandoned_after : ℕ
  pub lease_duration : ℕ

-- `leased_at IS NULL OR leased_at < now - lease_duration`
unfoldable pub lease_is_free : LeaseConfig → ℕ → Option ℕ → Bool
lease_is_free config now none = true
lease_is_free config now (some t) = ltb (t + config.lease_duration) now

unfoldable pub is_abandoned : LeaseConfig → ℕ → Execution → Bool
unfolding lease_is_free
is_abandoned config now e =
    e.environment == config.environment
    && (e.state == executing || e.state == uncertain)
    && leb (e.created_at + config.abandoned_after) now
    && lease_is_free config now e.leased_at

-- `join(ReassignmentProposal, ReassignmentProposal.id == ProposalExecution.proposal_id)`
unfoldable pub join_proposals : List Proposal → List Execution → List (Execution × Proposal)
join_proposals proposals [] = []
join_proposals proposals (e ∷ es) =
    let rest = join_proposals proposals es in
    elim (find_first (has_proposal_id e.proposal_id) proposals) [
      | none ↦ rest
      | some p ↦ (e, p) ∷ rest
    ]

unfoldable pub take {ℓ} : {A : Type ℓ} → ℕ → List A → List A
take zero xs = []
take (suc n) [] = []
take (suc n) (x ∷ xs) = x ∷ take n xs

unfoldable pub reconciliation_claim : Execution × Proposal → ReconciliationClaim
reconciliation_claim (e, p) = record {
  execution_id = e.id;
  proposal_id = p.id;
  issue_key = p.task_key;
  expected_assignee_id = p.expected_assignee;
  proposed_assignee_id = p.proposed_assignee;
  correlation_id = or_unknown e.external_correlation_id;
  write_attempted = e.write_attempted;
}

unfoldable pub leased : String → ℕ → Execution → Execution
leased worker_id now e = record e { lease_owner = some worker_id; leased_at = some now }

-- the rows of `lease_abandoned`: filtered, in order of creation, at most `limit`
unfoldable pub abandoned_rows : LeaseConfig → ℕ → ℕ → Db → List (Execution × Proposal)
abandoned_rows config now limit db = take limit (
    sort (λ a b. ltb a.0.created_at b.0.created_at)
      (join_proposals db.proposals (select (is_abandoned config now) db.executions)))

unfoldable pub lease_abandoned : LeaseConfig → ℕ → String → ℕ → Db → List ReconciliationClaim × Db
lease_abandoned config now worker_id limit db =
    let rows = abandoned_rows config now limit db in
    (
      map reconciliation_claim rows,
      record db {
        executions =
            update_where (λ e. any (λ row. row.0.id == e.id) rows) (leased worker_id now)
              db.executions;
      },
    )

-- `one_or_none()` on the uncertain execution of a proposal, which is unique in its environment
unfoldable pub lease_proposal :
    LeaseConfig → ℕ → String → String → Db → Option ReconciliationClaim × Db
lease_proposal config now proposal_id worker_id db =
    elim (join_proposals db.proposals (
      select
        (λ e.
          e.environment == config.environment
          && e.proposal_id == proposal_id
          && e.state == uncertain)
        db.executions)) [
          | [] ↦ (none, db)
          | row ∷ _ ↦ (
            some (reconciliation_claim row),
            record db {
              executions =
                  update_where (λ e. e.id == row.0.id) (leased worker_id now) db.executions;
            },
          )
        ]

-- the columns that `resolve` writes
unfoldable pub resolved : ProposalState → ExecutionRecord → Execution → Execution
resolved state evidence e = record e {
  state = state;
  result = evidence;
  lease_owner = none;
  leased_at = none;
}

unfoldable pub resolved_entry :
    ReconciliationClaim → ProposalState → ProposalState → ExecutionRecord → AuditEntry
unfolding state_value
resolved_entry claim current state evidence = record {
  action_type = concat "proposal.reconciled_" (state_value state);
  actor_type = "service";
  actor_id = "reconciliation-worker";
  subject_ids = claim.proposal_id ∷ claim.issue_key ∷ [];
  correlation_id = claim.correlation_id;
  prior_state = some (("state", string (state_value current)) ∷ []);
  new_state = some (("state", string (state_value state)) ∷ []);
  safe_metadata =
      ("observed_assignee_id", string_or_null evidence.observed_assignee_id)
      ∷ ("safe_error_code", string_or_null evidence.safe_error_code)
      ∷ ("write_attempted", flag evidence.write_attempted)
      ∷ [];
}

module _ (platform : Platform) (env : String) where
  -- `resolve` on the locked rows
  unfoldable pub resolve_rows :
      Call
      → ReconciliationClaim
      → ProposalState
      → ExecutionRecord
      → Option Execution
      → Option Proposal
      → Db
      → Result Db
  resolve_rows call claim state evidence (some execution) (some proposal) db =
      if execution.state == state
      then ok db
      else if not (execution.state == executing || execution.state == uncertain)
      then ok db
      else do
        done ← validate_transition proposal.state state
        ok (
            with_uncertain_event call 1 env state claim.execution_id claim.proposal_id
              claim.issue_key claim.correlation_id
              (record db {
                executions =
                    update_where (is_execution env claim.execution_id) (resolved state evidence)
                      db.executions;
                proposals =
                    update_where (has_proposal_id claim.proposal_id) (moved_to state) db.proposals;
                audit =
                    append_audit platform call 0 env
                      (resolved_entry claim execution.state state evidence) db.audit;
              }))
  resolve_rows _ _ _ _ _ _ _ = err (value_error "reconciliation state not found")

  unfoldable pub resolve :
      Call → ReconciliationClaim → ProposalState → ExecutionRecord → Db → Result Db
  resolve call claim state evidence db =
      resolve_rows call claim state evidence
        (find_first (is_execution env claim.execution_id) db.executions)
        (find_first (has_proposal_id claim.proposal_id) db.proposals) db
