-- ===== src/Jira/Mutation.antt =====
-- packages/jira-mcp-client/src/jira_mcp_client/mutation.py, class JiraAssigneeMutationClient: a
-- single write with a read before and after it. The transport is a parameter; the calls made over
-- it are recorded, oldest first, so that statements can count them.
pub mod Guard
pub mod Writes
use tasks_management.Base.{
  Bool, List, Option, Result, String, [], contains, err, false, has_char, if◌then◌else◌, nat_eq,
  none, not, ok, option_eq, partition_head, permission_error, some, string_eq, true, ◌++◌, ◌==◌,
  ◌||◌, ◌∷◌,
}
use tasks_management.Jira.Response.{Mapping, Value, string_value, get, assignee_from_response}

pub data MutationOutcome : Type 0 where
  executed_verified execution_failed uncertain stale : MutationOutcome

unfoldable pub outcome_value : MutationOutcome → String
outcome_value executed_verified = "executed_verified"
outcome_value execution_failed = "execution_failed"
outcome_value uncertain = "uncertain"
outcome_value stale = "stale"

pub record ReassignmentMutation : Type 0 where
  pub environment : String
  pub project_key : String
  pub issue_key : String
  pub expected_assignee_id : String
  pub proposed_assignee_id : String
  pub proposal_id : String
  pub idempotency_key : String
  pub correlation_id : String

pub record MutationReceipt : Type 0 where
  pub outcome : MutationOutcome
  pub observed_assignee_id : Option String
  pub edit_attempted : Bool
  pub safe_error_code : Option String

-- the two tools that the client calls, with their arguments
pub data ToolCall : Type 0 where
  get_jira_issue : String → ToolCall
  edit_jira_issue : String → String → ToolCall

-- the external tool server: an answer, or an exception, and its next state
pub record Transport (S : Type 0) : Type 0 where
  pub call_tool : ToolCall → S → Result Mapping × S

pub record Remote (S : Type 0) : Type 0 where
  pub server : S
  pub calls : List ToolCall

pub record ClientConfig : Type 0 where
  pub environment : String
  pub allowed_projects : List String

abbrev receipt : MutationOutcome → Option String → Bool → Option String → MutationReceipt
receipt outcome observed attempted code = record {
  outcome = outcome;
  observed_assignee_id = observed;
  edit_attempted = attempted;
  safe_error_code = code;
}

unfoldable pub mutation_refused : ClientConfig → ReassignmentMutation → Bool
mutation_refused config command =
    not (config.environment == "dev")
    || not (command.environment == config.environment)
    || not (has_char b'-' command.issue_key)
    || not (command.project_key == partition_head b'-' command.issue_key)
    || not (contains command.project_key config.allowed_projects)

-- the receipt of the read-back after a write that was not refused
unfoldable pub verified_receipt : ReassignmentMutation → Result (Option String) → MutationReceipt
verified_receipt command (err e) =
    receipt uncertain none true (some "jira_verification_read_failed")
verified_receipt command (ok observed) =
    if observed == some command.proposed_assignee_id
    then receipt executed_verified observed true none
    else receipt uncertain observed true (some "jira_verification_mismatch")

-- `edit_response.get("status") == "error"`
unfoldable pub is_error_answer : Mapping → Bool
unfolding get
is_error_answer m = elim (get "status" m) [ some (string_value s) ↦ s == "error" | _ ↦ false ]

module _ {S : Type 0} (transport : Transport S) where
  unfoldable pub call : ToolCall → Remote S → Result Mapping × Remote S
  call tool w =
      let (answer, server') = transport.call_tool tool w.server in
      (answer, record { server = server'; calls = w.calls ++ tool ∷ [] })

  abbrev pub assignee_of : Result Mapping → Result (Option String)
  assignee_of (ok m) = ok (assignee_from_response m)
  assignee_of (err e) = err e

  unfoldable pub read_assignee : String → Remote S → Result (Option String) × Remote S
  read_assignee issue_key w =
      let (answer, w') = call (get_jira_issue issue_key) w in (assignee_of answer, w')

  -- from the answer of `editJiraIssue` on
  unfoldable pub after_edit :
      ReassignmentMutation → Result Mapping → Remote S → MutationReceipt × Remote S
  after_edit command (err e) w =
      (receipt uncertain none true (some "jira_write_outcome_unknown"), w)
  after_edit command (ok answer) w =
      let (observed, w') = read_assignee command.issue_key w in
      if is_error_answer answer
      then (receipt execution_failed none true (some "jira_write_rejected"), w)
      else (verified_receipt command observed, w')

  -- from the result of the precondition read on
  unfoldable pub after_read :
      ReassignmentMutation → Result (Option String) → Remote S → MutationReceipt × Remote S
  after_read command (err e) w =
      (receipt execution_failed none false (some "jira_precondition_read_failed"), w)
  after_read command (ok current) w =
      let (answer, w') = call (edit_jira_issue command.issue_key command.proposed_assignee_id) w in
      if not (current == some command.expected_assignee_id)
      then (receipt stale current false none, w)
      else after_edit command answer w'

  unfoldable pub execute_mutation :
      ClientConfig → ReassignmentMutation → Remote S → Result MutationReceipt × Remote S
  execute_mutation config command w =
      let (current, w') = read_assignee command.issue_key w in
      let (result, w'') = after_read command current w' in
      if mutation_refused config command
      then (err (permission_error "Jira mutation is disabled for this environment or project"), w)
      else (ok result, w'')
