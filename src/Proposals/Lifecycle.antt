-- ===== src/Proposals/Lifecycle.antt =====
-- The life of a proposal: the transactions of ProposalRepository, DatabaseExecutionStore and
-- DatabaseReconciliationStore as a step relation on the database, in any interleaving.
pub mod Rows
pub mod Transactions
pub mod History
use tasks_management.Base.{
  Call, Option, Platform, String, contains, find_first, list_eq, nat_eq, ok, option_eq, some,
  string_eq, true, ℕ, ◌+◌, ◌≡◌, ◌≤◌, ◌⊎◌,
}
use tasks_management.Proposals.{ProposalState, allowed_transitions, state_eq}
use tasks_management.Proposals.Models.{
  ProposalActor, ProposalCreateCommand, ProposalDecisionCommand,
}
use tasks_management.Store.{Db, ExecutionRecord, Proposal}
use tasks_management.Proposals.Repository.{StoredProposal, create, decide}
use tasks_management.Proposals.Execution.Store.{
  ExecutionClaim, ExecutionResult, Prepared, finalize, has_proposal_id, mark_write_attempted,
  prepare,
}
use tasks_management.Proposals.Reconciliation.Store.{
  LeaseConfig, ReconciliationClaim, lease_abandoned, lease_proposal, resolve,
}
use mathlib.Core.Option

-- a row stays as it is, or makes a legal transition that raises its version by one or two
abbrev pub Evolves : Proposal → Proposal → Type 0
Evolves r r' =
    (r' ≡ r)
    ⊎ ((target : ProposalState) × (contains target (allowed_transitions r.state) ≡ true)
        × (by : ℕ) × (1 ≤ by)
        × (by ≤ 2)
        × (r' ≡ record r { state = target; version = r.version + by }))

-- the row that has the identifier
abbrev pub row_of : String → Db → Option Proposal
row_of id db = find_first (has_proposal_id id) db.proposals

-- the row evolves from one database to the next
abbrev pub RowEvolves : String → Db → Db → Type 0
RowEvolves id db db' =
    (r : Proposal)
    → row_of id db ≡ some r
    → (r' : Proposal) × (row_of id db' ≡ some r') × Evolves r r'

-- one transaction that succeeds
pub data Step (platform : Platform) (env : String) : Db → Db → Type 0 where
  creates :
      {db db' : Db} (call : Call) (command : ProposalCreateCommand) (actor : ProposalActor)
      (v : StoredProposal)
      → create platform call command actor db ≡ ok (v, db')
      → Step platform env db db'
  decides :
      {db db' : Db} (call : Call) (command : ProposalDecisionCommand) (actor : ProposalActor)
      (v : StoredProposal)
      → decide platform call command actor db ≡ ok (v, db')
      → Step platform env db db'
  prepares :
      {db db' : Db} (call : Call) (id correlation : String) (x : Prepared)
      → prepare platform env call id correlation db ≡ ok (x, db')
      → Step platform env db db'
  marks :
      {db db' : Db} (claim : ExecutionClaim)
      → mark_write_attempted env claim db ≡ ok db'
      → Step platform env db db'
  finalizes :
      {db db' : Db} (call : Call) (claim : ExecutionClaim) (result x : ExecutionResult)
      → finalize platform env call claim result db ≡ ok (x, db')
      → Step platform env db db'
  leases :
      {db db' : Db} (config : LeaseConfig) (now : ℕ) (worker : String) (limit : ℕ)
      → (lease_abandoned config now worker limit db).1 ≡ db'
      → Step platform env db db'
  leases_one :
      {db db' : Db} (config : LeaseConfig) (now : ℕ) (id worker : String)
      → (lease_proposal config now id worker db).1 ≡ db'
      → Step platform env db db'
  resolves :
      {db db' : Db} (call : Call) (claim : ReconciliationClaim) (state : ProposalState)
      (evidence : ExecutionRecord)
      → resolve platform env call claim state evidence db ≡ ok db'
      → Step platform env db db'

-- any number of transactions, of any number of workers
pub data Run (platform : Platform) (env : String) : Db → Db → Type 0 where
  no_steps : {db : Db} → Run platform env db db
  first_step :
      {db db' db'' : Db}
      → Step platform env db db'
      → Run platform env db' db''
      → Run platform env db db''
