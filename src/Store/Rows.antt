-- ===== src/Store/Rows.antt =====
-- packages/persistence/src/workforce_persistence/models.py: the rows of the tables, with a state
-- column as the enumeration that its check constraint allows, and the database.
use tasks_management.Base.{ℕ, String, Bool, Option, List, [], Payload}
use tasks_management.Proposals.{ProposalState}

pub record Proposal : Type 0 where
  pub id : String
  pub environment : String
  pub created_at : ℕ
  pub simulation_id : String
  pub project_key : String
  pub task_key : String
  pub expected_assignee : String
  pub proposed_assignee : String
  pub state : ProposalState
  pub idempotency_key : String
  pub evidence_fingerprint : String
  pub confidence : String
  pub scoring_versions : List String
  pub simulation_payload : Payload
  pub requested_by : String
  pub expires_at : ℕ
  pub version : ℕ

pub record Decision : Type 0 where
  pub id : String
  pub environment : String
  pub created_at : ℕ
  pub proposal_id : String
  pub actor_id : String
  pub decision : String
  pub correlation_id : String
  pub idempotency_key : String

-- the keys of the JSON column `result` that the code writes and reads
pub record ExecutionRecord : Type 0 where
  pub observed_assignee_id : Option String
  pub safe_error_code : Option String
  pub write_attempted : Bool

pub record Execution : Type 0 where
  pub id : String
  pub environment : String
  pub created_at : ℕ
  pub proposal_id : String
  pub state : ProposalState
  pub external_correlation_id : Option String
  pub result : ExecutionRecord
  pub write_attempted : Bool
  pub lease_owner : Option String
  pub leased_at : Option ℕ

pub record AuditEvent : Type 0 where
  pub id : String
  pub environment : String
  pub created_at : ℕ
  pub sequence_number : ℕ
  pub previous_hash : Option String
  pub event_hash : String
  pub action_type : String
  pub actor_type : String
  pub actor_id : String
  pub subject_ids : List String
  pub correlation_id : String
  pub prior_state : Option Payload
  pub new_state : Option Payload
  pub safe_metadata : Payload

pub record OutboxEvent : Type 0 where
  pub id : String
  pub environment : String
  pub created_at : ℕ
  pub consumer_key : String
  pub event_type : String
  pub payload : Payload
  pub delivery_attempts : ℕ
  pub published_at : Option ℕ
  pub last_error : Option String

-- the tables that the proposal and execution repositories share
pub record Db : Type 0 where
  pub proposals : List Proposal
  pub decisions : List Decision
  pub executions : List Execution
  pub audit : List AuditEvent
  pub outbox : List OutboxEvent

abbrev pub empty_db : Db
empty_db = record { proposals = []; decisions = []; executions = []; audit = []; outbox = [] }
