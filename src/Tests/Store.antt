-- ===== src/Tests/Store.antt =====
-- A log with an event of each of two environments.
use tasks_management.Base.{List, String, [], none, refl, select, sort, true, ◌∷◌, ◌≡◌}
use tasks_management.Store.{AuditEvent}
use tasks_management.Store.Audit.{AuditEntry, append_audit, verify_chain, verify_from}
use tasks_management.Store.Audit.Chain.{verify_chain-append_audit}
use tasks_management.Tests.Proposals.{call, platform}

abbrev entry : AuditEntry
entry = record {
  action_type = "proposal.created";
  actor_type = "manager";
  actor_id = "m";
  subject_ids = "p1" ∷ [];
  correlation_id = "c1";
  prior_state = none;
  new_state = none;
  safe_metadata = [];
}

abbrev one_event : List AuditEvent
one_event = append_audit platform call 0 "prod" entry []

abbrev log : List AuditEvent
log = append_audit platform call 0 "dev" entry one_event

empty_is_valid : (env : String) → verify_chain platform env [] ≡ true
unfolding verify_chain verify_from select sort
empty_is_valid env = refl

one_event_is_valid : (env : String) → verify_chain platform env one_event ≡ true
one_event_is_valid env =
    verify_chain-append_audit platform call 0 "prod" env entry [] (empty_is_valid "prod")
      (empty_is_valid env)

log_is_valid : (env : String) → verify_chain platform env log ≡ true
log_is_valid env =
    verify_chain-append_audit platform call 0 "dev" env entry one_event (one_event_is_valid "dev")
      (one_event_is_valid env)

verify_chain-append_audit_example :
    verify_chain platform "prod" (append_audit platform call 1 "dev" entry log) ≡ true
verify_chain-append_audit_example =
    verify_chain-append_audit platform call 1 "dev" "prod" entry log (log_is_valid "dev")
      (log_is_valid "prod")
