-- ===== src/Tests/Reconciliation.antt =====
-- An execution that was left uncertain, and is settled by reading Jira.
use tasks_management.Base.{
  Option, Result, String, [], false, none, ok, some, true, ◌↔◌, ◌∷◌, ◌≡◌, ◌≢◌, ◌⊎◌,
}
use tasks_management.Store.{Execution}
use tasks_management.Proposals.{executed_verified, execution_failed, uncertain}
use tasks_management.Jira.Mutation.Writes.{edits}
use tasks_management.Proposals.Execution.{World}
use tasks_management.Proposals.Reconciliation.{run_once, verdict}
use tasks_management.Proposals.Reconciliation.Store.{LeaseConfig, ReconciliationClaim}
use tasks_management.Proposals.Reconciliation.Verdict.{edits-run_once, verdict_exact}
use tasks_management.Tests.Proposals.{call, db, one_issue, platform, proposal}

abbrev lease_config : LeaseConfig
lease_config = record { environment = "dev"; abandoned_after = 5; lease_duration = 5 }

abbrev claim : ReconciliationClaim
claim = record {
  execution_id = "x1";
  proposal_id = "p1";
  issue_key = "WRD-7";
  expected_assignee_id = "ann";
  proposed_assignee_id = "bob";
  correlation_id = "c1";
  write_attempted = true;
}

abbrev execution : Execution
execution = record {
  id = "x1";
  environment = "dev";
  created_at = 10;
  proposal_id = "p1";
  state = uncertain;
  external_correlation_id = some "c1";
  result = record { observed_assignee_id = none; safe_error_code = none; write_attempted = true };
  write_attempted = true;
  lease_owner = none;
  leased_at = none;
}

abbrev world : World String
world = record {
  db = record db {
    proposals = record proposal { state = uncertain } ∷ [];
    executions = execution ∷ [];
  };
  remote = record { server = "bob"; calls = [] };
}

abbrev answer : Result (Option String)
answer = ok (some "bob")

verdict_exact_example :
    let (s, code) = verdict claim answer in
    ((s ≡ executed_verified) ↔ (answer ≡ ok (some claim.proposed_assignee_id)))
    × ((s ≡ execution_failed) ↔ (
        (answer ≡ ok (some claim.expected_assignee_id))
        × (claim.expected_assignee_id ≢ claim.proposed_assignee_id)
        × (claim.write_attempted ≡ false)))
    × ((s ≡ uncertain) ⊎ (code ≡ none))
    × (s ≡ uncertain → code ≢ none)
verdict_exact_example = verdict_exact claim answer

edits-run_once_example :
    edits (run_once platform lease_config one_issue call "w1" 5 world).1.remote.calls
    ≡ edits world.remote.calls
edits-run_once_example = edits-run_once platform lease_config one_issue call "w1" 5 world
