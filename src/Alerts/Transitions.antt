-- ===== src/Alerts/Transitions.antt =====
-- packages/persistence/src/workforce_persistence/alert_repository.py, AlertRepository.transition: moving
-- an alert that still has the version its manager saw. An error rolls the transaction back.
use tasks_management.Base.{
  Bool, Call, Option, Platform, Result, String, [], concat, count_where, false, find_first,
  if◌then◌else◌, nat_eq, none, not, number, ok, option_eq, some, string, string_eq, string_or_null,
  true, update_where, ℕ, ◌&&◌, ◌+◌, ◌==◌, ◌>>=◌, ◌∷◌,
}
use tasks_management.Risk.{confidence_eq, level_eq}
use tasks_management.Alerts.{AlertState, alert_eq, alert_value, validate_transition}
use tasks_management.Alerts.Repository.{Alert, AlertDb, has_id}
use tasks_management.Store.Audit.{AuditEntry, append_audit}

unfoldable pub transition_entry :
    Alert → AlertState → String → String → ℕ → Option String → AuditEntry
unfolding alert_value
transition_entry a target actor_id correlation_id expected_version dismissal_reason = record {
  action_type = concat "alert." (alert_value target);
  actor_type = "manager";
  actor_id = actor_id;
  subject_ids = a.id ∷ a.subject_id ∷ [];
  correlation_id = correlation_id;
  prior_state =
      some (("state", string (alert_value a.state)) ∷ ("version", number expected_version) ∷ []);
  new_state =
      some
        (("state", string (alert_value target)) ∷ ("version", number (expected_version + 1)) ∷ []);
  safe_metadata = ("dismissal_reason", string_or_null dismissal_reason) ∷ [];
}

abbrev pub alert_moved : AlertState → Alert → Alert
alert_moved target a = record a { state = target; version = a.version + 1 }

abbrev pub at_version : String → ℕ → Alert → Bool
at_version id version a = a.id == id && a.version == version

module _ (platform : Platform) where
  -- `transition` on the row that `session.get` finds
  unfoldable pub transition_row :
      Call
      → ℕ
      → AlertState
      → String
      → String
      → Option String
      → Option Alert
      → AlertDb
      → Result (Bool × AlertDb)
  transition_row call expected_version target actor_id correlation_id dismissal_reason none db =
      ok (false, db)
  transition_row call expected_version target actor_id correlation_id dismissal_reason (some a) db =
      if not (a.version == expected_version) then ok (false, db) else do
        done ← validate_transition a.state target dismissal_reason
        if not (count_where (at_version a.id expected_version) db.alerts == 1)
            then ok (false, db)
            else ok (
              true,
              record db {
                alerts =
                    update_where (at_version a.id expected_version) (alert_moved target) db.alerts;
                audit =
                    append_audit platform call 0 a.environment
                      (transition_entry a target actor_id correlation_id expected_version
                        dismissal_reason)
                      db.audit;
              },
            )

  unfoldable pub transition :
      Call
      → String
      → ℕ
      → AlertState
      → String
      → String
      → Option String
      → AlertDb
      → Result (Bool × AlertDb)
  transition call alert_id expected_version target actor_id correlation_id dismissal_reason db =
      transition_row call expected_version target actor_id correlation_id dismissal_reason
        (find_first (has_id alert_id) db.alerts) db
