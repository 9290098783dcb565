-- ===== src/Tests/Proposals.antt =====
-- A proposal that is decided on and carried out, on a tool server that holds one issue.
use tasks_management.Base.{
  Call, Error, Platform, String, [], contains, count_where, err, find_first, has_char, list_eq,
  nat_eq, ok, option_eq, partition_head, permission_error, refl, some, string_eq, true, ◌+◌, ◌<◌,
  ◌∷◌, ◌≡◌, ◌≢◌, ◌≤◌, ◌⊎◌,
}
use tasks_management.Proposals.Execution.Requests.{Request, at_most_one_write, writes_for}
use tasks_management.Proposals.Execution.{Service, World}
use tasks_management.Jira.Mutation.Writes.{
  Verified, attempted, edits, edits-execute_mutation, execute_mutation-IsPermitted,
  execute_mutation-Verified,
}
use tasks_management.Jira.Mutation.Guard.{IsPermitted}
use tasks_management.Jira.Mutation.{
  ClientConfig, MutationReceipt, ReassignmentMutation, Transport, after_edit, after_read,
  edit_jira_issue, execute_mutation, get_jira_issue, is_error_answer, mutation_refused,
  read_assignee, verified_receipt,
}
use tasks_management.Jira.{Mapping, assignee_from_response, end, entry, get, mapping, string_value}
use tasks_management.Proposals.Decisions.Once.{decide_again, decide_once}
use tasks_management.Proposals.Decisions.{decide_to_executing}
use tasks_management.Proposals.Lifecycle.{RowEvolves, decides, first_step, no_steps, row_of}
use tasks_management.Proposals.Lifecycle.History.{Step-Evolves, proposals_are_kept}
use tasks_management.Risk.{ConfidenceLevel, confidence_eq, level_eq}
use tasks_management.Proposals.Creation.{IsAllowed, create_again}
use tasks_management.Proposals.{
  approved, executing, pending, state_eq, terminal_states, validate_transition,
}
use tasks_management.Proposals.Models.{
  ProposalActor, ProposalCreateCommand, ProposalDecisionCommand, approve, is_expired,
}
use tasks_management.Store.{Db, Proposal, empty_db}
use tasks_management.Proposals.Repository.{
  StoredProposal, apply_decision, create, decide, decide_row, decision_target, new_decision, view,
}

abbrev pub platform : Platform
platform = record { sha256 = λ s. s; dumps = λ d. "" }

abbrev pub call : Call
call = record { now = 20; uuid = λ n. "id" }

abbrev pub proposal : Proposal
proposal = record {
  id = "p1";
  environment = "dev";
  created_at = 10;
  simulation_id = "sim-1";
  project_key = "WRD";
  task_key = "WRD-7";
  expected_assignee = "ann";
  proposed_assignee = "bob";
  state = pending;
  idempotency_key = "create-p1";
  evidence_fingerprint = "f";
  confidence = "high";
  scoring_versions = [];
  simulation_payload = [];
  requested_by = "manager-1";
  expires_at = 30;
  version = 1;
}

abbrev pub db : Db
db = record empty_db { proposals = proposal ∷ [] }

abbrev command : ProposalDecisionCommand
command = record {
  proposal_id = "p1";
  expected_version = 1;
  decision = approve;
  idempotency_key = "decide-p1";
  current_evidence_fingerprint = "f";
  decided_at = 20;
}

abbrev second_command : ProposalDecisionCommand
second_command = record command { idempotency_key = "decide-p1-again" }

abbrev actor : ProposalActor
actor = record {
  actor_id = "manager-1";
  role = "manager";
  environment = "dev";
  project_scopes = "WRD" ∷ [];
  correlation_id = "c1";
}

-- the decision, evaluated
decision_run :
    (v : StoredProposal) × (db' : Db) × (decide platform call command actor db ≡ ok (v, db'))
unfolding decide decide_row apply_decision decision_target find_first contains validate_transition
    count_where is_expired
decision_run = (_, _, refl)

decide_to_executing_example :
    (command.decision ≡ approve)
    × (command.decided_at < decision_run.0.expires_at)
    × (decision_run.0.evidence_fingerprint ≡ command.current_evidence_fingerprint)
    × (contains decision_run.0.project_key actor.project_scopes ≡ true)
    × (decision_run.0.version ≡ command.expected_version + 2)
unfolding decision_run view find_first decision_target
decide_to_executing_example =
    decide_to_executing platform call command actor db refl decision_run.2 refl

-- the same version is decided on again by the same manager, under another key
decide_once_example :
    (e : Error) × (decide platform call second_command actor decision_run.1 ≡ err e)
unfolding decision_run decide find_first new_decision
decide_once_example =
    decide_once platform call command actor db refl decision_run.2 call second_command actor refl
      refl refl refl

decide_again_example :
    decide platform call command actor decision_run.1 ≡ ok (decision_run.0, decision_run.1)
unfolding find_first
decide_again_example = decide_again platform call command actor db refl decision_run.2 refl call

Step-Evolves_example : RowEvolves "p1" db decision_run.1
Step-Evolves_example =
    Step-Evolves platform "dev" "p1" db decision_run.1
      (decides call command actor decision_run.0 decision_run.2)

proposals_are_kept_example :
    (r' : Proposal) × (row_of "p1" decision_run.1 ≡ some r')
    × (1 ≤ r'.version)
    × (contains pending terminal_states ≡ true → r' ≡ proposal)
    × (pending ≢ approved → r'.state ≢ approved)
unfolding find_first
proposals_are_kept_example =
    proposals_are_kept platform "dev" "p1" db decision_run.1 proposal
      (first_step (decides call command actor decision_run.0 decision_run.2) no_steps) refl

abbrev create_command : ProposalCreateCommand
create_command = record {
  simulation = record {
    simulation_id = "sim-1";
    environment = "dev";
    project_key = "WRD";
    task_id = "WRD-7";
    current_assignee_id = "ann";
    proposed_assignee_id = "bob";
    candidate_ids = "bob" ∷ [];
    confidence = ConfidenceLevel.high;
    evidence_fingerprint = "f";
    scoring_model_versions = [];
    simulated_at = 5;
    safe_payload = [];
  };
  idempotency_key = "create-p2";
  expires_at = 30;
  requested_at = 10;
}

creation_run :
    (v : StoredProposal) × (db' : Db) × (create platform call create_command actor db ≡ ok (v, db'))
unfolding create find_first contains
creation_run = (_, _, refl)

create_again_example :
    IsAllowed actor create_command
    × (create platform call create_command actor creation_run.1
        ≡ ok (creation_run.0, creation_run.1))
create_again_example =
    create_again platform call call create_command actor creation_run.0 db creation_run.1
      creation_run.2

-- a server that holds the assignee of one issue
answer_with : String → Mapping
answer_with assignee =
    entry "fields"
      (mapping (entry "assignee" (mapping (entry "accountId" (string_value assignee) end)) end)) end

pub one_issue : Transport String
unfolding answer_with
one_issue = record {
  call_tool = λ c s. elim c [
    | get_jira_issue i ↦ (ok (answer_with s), s)
    | edit_jira_issue i a ↦ (ok end, a)
  ];
}

abbrev pub config : ClientConfig
config = record { environment = "dev"; allowed_projects = "WRD" ∷ [] }

abbrev service : Service String
service = record {
  platform = platform;
  environment = "dev";
  config = config;
  transport = one_issue;
}

abbrev pub world : World String
world = record {
  db = record db { proposals = record proposal { state = executing; version = 2 } ∷ [] };
  remote = record { server = "ann"; calls = [] };
}

abbrev request : Request
request = record { proposal_id = "p1"; correlation_id = "c2"; first = call; second = call }

at_most_one_write_example : writes_for service "p1" (request ∷ request ∷ []) world ≤ 1
at_most_one_write_example = at_most_one_write service "p1" (request ∷ request ∷ []) world

abbrev mutation : ReassignmentMutation
mutation = record {
  environment = "dev";
  project_key = "WRD";
  issue_key = "WRD-7";
  expected_assignee_id = "ann";
  proposed_assignee_id = "bob";
  proposal_id = "p1";
  idempotency_key = "execute-p1";
  correlation_id = "c2";
}

edits-execute_mutation_example :
    let (result, w') = execute_mutation one_issue config mutation world.remote in
    edits w'.calls ≡ edits world.remote.calls + attempted result
edits-execute_mutation_example = edits-execute_mutation one_issue config mutation world.remote

mutation_run :
    (r : MutationReceipt) × ((execute_mutation one_issue config mutation world.remote).0 ≡ ok r)
unfolding execute_mutation mutation_refused after_read after_edit read_assignee verified_receipt
    is_error_answer assignee_from_response get contains partition_head has_char one_issue
mutation_run = (_, refl)

execute_mutation-Verified_example :
    Verified one_issue mutation mutation_run.0
      (execute_mutation one_issue config mutation world.remote).1
execute_mutation-Verified_example =
    execute_mutation-Verified one_issue config mutation world.remote mutation_run.0 mutation_run.1

execute_mutation-IsPermitted_example :
    let (result, w') = execute_mutation one_issue config mutation world.remote in
    ((¬ IsPermitted config mutation)
      × (result
          ≡ err (permission_error "Jira mutation is disabled for this environment or project"))
      × (w' ≡ world.remote))
    ⊎ (IsPermitted config mutation × ((r : MutationReceipt) × (result ≡ ok r)))
execute_mutation-IsPermitted_example =
    execute_mutation-IsPermitted one_issue config mutation world.remote
