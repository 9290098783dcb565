-- ===== src/Tests/Alerts.antt =====
-- An alert that is recorded, moved and resolved.
use tasks_management.Base.{
  Call, Platform, String, [], contains, count_where, false, find_first, list_eq, nat_eq, none, ok,
  option_eq, refl, some, string_eq, true, update_where, ℕ, ◌∷◌, ◌≡◌,
}
use tasks_management.Risk.{confidence_eq, high, level_eq, medium}
use tasks_management.Alerts.{
  acknowledged, alert_eq, allowed_transitions, dismissed, new, validate_transition,
}
use tasks_management.Alerts.Repository.{Alert, AlertDb, RiskReport, has_id, record_risk}
use tasks_management.Alerts.Transitions.{alert_moved, transition, transition_row}
use tasks_management.Alerts.Recording.{is_quiet, record_risk_again}
use tasks_management.Alerts.Lifecycle.{transition_once}

abbrev platform : Platform
platform = record { sha256 = λ s. s; dumps = λ d. "" }

abbrev call : Call
call = record { now = 20; uuid = λ n. "id" }

abbrev show : ℕ → String
show n = "1"

abbrev report : RiskReport
report = record {
  environment = "dev";
  subject_id = "ann";
  risk_type = "overload";
  scoring_window = "2026-W10";
  risk_result_id = "risk-1";
  level = high;
  evidence_fingerprint = "f";
  correlation_id = "c1";
  now = 20;
  cooldown = 10;
  important_new_evidence = false;
}

abbrev alert : Alert
alert = record {
  id = "a1";
  environment = "dev";
  created_at = 5;
  subject_id = "ann";
  risk_type = "overload";
  scoring_window = "2026-W10";
  dedup_key = "ann:overload:2026-W10";
  state = new;
  severity = medium;
  evidence_fingerprint = "e";
  last_notified_at = none;
  version = 3;
}

abbrev db : AlertDb
db = record { alerts = alert ∷ []; occurrences = []; audit = []; outbox = [] }

record_risk_again_example :
    let db' = (record_risk platform show call report db).1 in
    let (result, db'') = record_risk platform show call report db' in
    (is_quiet result ≡ true) × (db'' ≡ db')
record_risk_again_example = record_risk_again platform show call call report db

-- the alert is acknowledged
transition_run :
    (db' : AlertDb) × (transition platform call "a1" 3 acknowledged "m" "c1" none db
      ≡ ok (true, db'))
unfolding transition transition_row find_first count_where update_where validate_transition
    allowed_transitions contains
transition_run = (_, refl)

transition_once_example :
    ((a : Alert) × (find_first (has_id "a1") db.alerts ≡ some a)
      × (a.version ≡ 3)
      × (validate_transition a.state acknowledged none ≡ ok tt)
      × (find_first (has_id "a1") transition_run.0.alerts ≡ some (alert_moved acknowledged a)))
    × (transition platform call "a1" 3 dismissed "n" "c2" (some "noise") transition_run.0
        ≡ ok (false, transition_run.0))
transition_once_example =
    transition_once platform call call "a1" 3 acknowledged dismissed "m" "n" "c1" "c2" none
      (some "noise") db transition_run.0 transition_run.1
