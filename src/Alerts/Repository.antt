-- ===== src/Alerts/Repository.antt =====
-- packages/persistence/src/workforce_persistence/alert_repository.py: recording a risk as an alert,
-- and resolving the alerts of a subject.
use tasks_management.Base.{
  Bool, Call, List, Option, Platform, String, [], concat, contains, count_where, false, find_first,
  if◌then◌else◌, nat_eq, none, not, option_eq, some, string, string_eq, true, update_where, ℕ, ◌&&◌,
  ◌++◌, ◌+◌, ◌==◌, ◌||◌, ◌∷◌,
}
use tasks_management.Risk.{RiskLevel, confidence_eq, level_eq, level_value}
use tasks_management.Alerts.{
  AlertState, acknowledged, alert_dedup_key, alert_eq, dismissed, investigating, new, resolved,
  route_risk, should_notify,
}
use tasks_management.Store.{AuditEvent, OutboxEvent}
use tasks_management.Store.Outbox.{append_outbox}

pub record Alert : Type 0 where
  pub id : String
  pub environment : String
  pub created_at : ℕ
  pub subject_id : String
  pub risk_type : String
  pub scoring_window : String
  pub dedup_key : String
  pub state : AlertState
  pub severity : RiskLevel
  pub evidence_fingerprint : String
  pub last_notified_at : Option ℕ
  pub version : ℕ

pub record AlertOccurrence : Type 0 where
  pub id : String
  pub environment : String
  pub created_at : ℕ
  pub alert_id : String
  pub risk_result_id : String
  pub sequence_number : ℕ
  pub severity : RiskLevel
  pub evidence_fingerprint : String

-- the tables that the repository works on
pub record AlertDb : Type 0 where
  pub alerts : List Alert
  pub occurrences : List AlertOccurrence
  pub audit : List AuditEvent
  pub outbox : List OutboxEvent

-- the keyword arguments of `record_risk`
pub record RiskReport : Type 0 where
  pub environment : String
  pub subject_id : String
  pub risk_type : String
  pub scoring_window : String
  pub risk_result_id : String
  pub level : RiskLevel
  pub evidence_fingerprint : String
  pub correlation_id : String
  pub now : ℕ
  pub cooldown : ℕ
  pub important_new_evidence : Bool

pub record AlertRecordResult : Type 0 where
  pub alert_id : String
  pub occurrence_created : Bool
  pub notification_created : Bool
  pub version : ℕ

unfoldable pub is_active : AlertState → Bool
unfolding contains
is_active s = contains s (new ∷ acknowledged ∷ investigating ∷ [])

abbrev pub is_active_risk : String → String → String → Alert → Bool
is_active_risk env subject_id risk_type a =
    a.environment == env
    && a.subject_id == subject_id
    && a.risk_type == risk_type
    && is_active a.state

abbrev pub resolve_alert : Alert → Alert
resolve_alert a = record a { state = resolved; version = a.version + 1 }

unfoldable pub resolve_active_risk : String → String → String → AlertDb → ℕ × AlertDb
resolve_active_risk env subject_id risk_type db = (
  count_where (is_active_risk env subject_id risk_type) db.alerts,
  record db {
    alerts = update_where (is_active_risk env subject_id risk_type) resolve_alert db.alerts;
  },
)

unfoldable pub new_alert : Platform → Call → RiskReport → Alert
new_alert platform call report = record {
  id = call.uuid 0;
  environment = report.environment;
  created_at = report.now;
  subject_id = report.subject_id;
  risk_type = report.risk_type;
  scoring_window = report.scoring_window;
  dedup_key = alert_dedup_key platform report.subject_id report.risk_type report.scoring_window;
  state = new;
  severity = report.level;
  evidence_fingerprint = report.evidence_fingerprint;
  last_notified_at = none;
  version = 1;
}

-- the assignments to an alert that is recorded again; a closed one is opened again
unfoldable pub reopened : RiskReport → Alert → Alert
reopened report a = record a {
  state = if a.state == resolved || a.state == dismissed then new else a.state;
  severity = report.level;
  evidence_fingerprint = report.evidence_fingerprint;
  version = a.version + 1;
}

unfoldable pub new_occurrence : Call → RiskReport → Alert → ℕ → AlertOccurrence
new_occurrence call report a count = record {
  id = call.uuid 1;
  environment = report.environment;
  created_at = report.now;
  alert_id = a.id;
  risk_result_id = report.risk_result_id;
  sequence_number = count + 1;
  severity = report.level;
  evidence_fingerprint = report.evidence_fingerprint;
}

abbrev pub notified_at : ℕ → Alert → Alert
notified_at now a = record a { last_notified_at = some now }

abbrev pub has_id : String → Alert → Bool
has_id id a = a.id == id

-- `f"alert:{alert.id}:v{alert.version}"`, with `show` for the printing of a number
unfoldable pub notification_key : (ℕ → String) → Alert → String
notification_key show a = concat "alert:" (concat a.id (concat ":v" (show a.version)))

module _ (platform : Platform) (show : ℕ → String) where
  -- the outbox event and the notification time, if a mail is due
  unfoldable pub notify_if : Bool → Call → RiskReport → Alert → AlertDb → AlertDb
  notify_if false call report a db = db
  notify_if true call report a db = record db {
    outbox =
        append_outbox call 2 report.environment (notification_key show a)
          "risk_alert.notification_requested"
          (("alert_id", string a.id)
            ∷ ("severity", string (level_value report.level))
            ∷ ("correlation_id", string report.correlation_id)
            ∷ [])
          report.now db.outbox;
    alerts = update_where (has_id a.id) (notified_at report.now) db.alerts;
  }

  -- the occurrence and the notification of an alert that has been written
  unfoldable pub record_occurrence :
      Call → RiskReport → Option RiskLevel → Alert → AlertDb → AlertRecordResult × AlertDb
  record_occurrence call report previous a db =
      let notify =
        should_notify previous report.level a.last_notified_at report.now report.cooldown
          report.important_new_evidence in
      let count = count_where (λ o. o.alert_id == a.id) db.occurrences in
      (
        record {
          alert_id = a.id;
          occurrence_created = true;
          notification_created = notify;
          version = a.version;
        },
        notify_if notify call report a
            (record db { occurrences = db.occurrences ++ new_occurrence call report a count ∷ [] }),
      )

  unfoldable pub record_on :
      Call → RiskReport → Option Alert → AlertDb → AlertRecordResult × AlertDb
  record_on call report none db =
      let a = new_alert platform call report in
      record_occurrence call report none a (record db { alerts = db.alerts ++ a ∷ [] })
  record_on call report (some a) db =
      let a' = reopened report a in
      let again =
        record_occurrence call report (some a.severity) a'
          (record db { alerts = update_where (has_id a.id) (reopened report) db.alerts }) in
      if a.evidence_fingerprint == report.evidence_fingerprint && a.severity == report.level
      then (
        record {
          alert_id = a.id;
          occurrence_created = false;
          notification_created = false;
          version = a.version;
        },
        db,
      )
      else again

  unfoldable pub record_risk : Call → RiskReport → AlertDb → Option AlertRecordResult × AlertDb
  record_risk call report db =
      let dedup =
        alert_dedup_key platform report.subject_id report.risk_type report.scoring_window in
      let (result, db') =
        record_on call report
          (find_first (λ a. a.environment == report.environment && a.dedup_key == dedup) db.alerts)
          db in
      if not (route_risk (some report.level)).create_inbox_alert
      then (none, db)
      else (some result, db')
