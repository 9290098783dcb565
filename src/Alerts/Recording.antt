-- ===== src/Alerts/Recording.antt =====
-- AlertRepository.record_risk: recording a risk a second time.
use tasks_management.Base.{
  ==_eq, ==_refl, Bool, Bool-cases, Call, Option, Platform, String, [], and_intro, and_left,
  and_right, ap, false, find_first, find_first-append, find_first-single, find_first-update_where,
  if◌then◌else◌, inl, inr, nat_eq, none, not, option_eq, refl, some, string_eq, true, ℕ, ◌&&◌, ◌==◌,
  ◌∙◌, ◌∷◌, ◌≡◌,
}
use tasks_management.Risk.{RiskLevel, confidence_eq, level_eq}
use tasks_management.Alerts.{alert_dedup_key, alert_eq, route_risk}
use tasks_management.Alerts.Repository.{
  Alert, AlertDb, AlertRecordResult, RiskReport, has_id, new_alert, notified_at, notify_if,
  record_occurrence, record_on, record_risk, reopened,
}
use mathlib.Core.Option

-- no occurrence and no notification was written
abbrev pub is_quiet : Option AlertRecordResult → Bool
is_quiet none = true
is_quiet (some r) = not r.occurrence_created && not r.notification_created

-- the row that `record_risk` looks up
abbrev is_alert_of : String → String → Alert → Bool
is_alert_of env dedup a = a.environment == env && a.dedup_key == dedup

-- what a report is compared with
abbrev compared : Option Alert → Option (String × RiskLevel)
compared none = none
compared (some a) = some (a.evidence_fingerprint, a.severity)

compared-notified :
    (id : String) (now : ℕ) (o : Option Alert)
    → compared (Option.map (λ x. if has_id id x then notified_at now x else x) o) ≡ compared o
compared-notified id now none = refl
compared-notified id now (some a) = elim (Bool-cases (a.id == id)) [ inl t ↦ rw t | inr f ↦ rw f ]

module _ (platform : Platform) (show : ℕ → String) where
  compared-notify_if :
      (b : Bool) (call : Call) (report : RiskReport) (a : Alert) (db : AlertDb) (env dedup : String)
      → compared
          (find_first (is_alert_of env dedup) (notify_if platform show b call report a db).alerts)
        ≡ compared (find_first (is_alert_of env dedup) db.alerts)
  unfolding notify_if
  compared-notify_if false call report a db env dedup = refl
  compared-notify_if true call report a db env dedup =
      ap compared (
        find_first-update_where (is_alert_of env dedup) (has_id a.id) (notified_at report.now)
          (λ y. refl) db.alerts)
      ∙ compared-notified a.id report.now (find_first (is_alert_of env dedup) db.alerts)

  abbrev key : RiskReport → String
  key report = alert_dedup_key platform report.subject_id report.risk_type report.scoring_window

  new_alert_found :
      (call : Call) (report : RiskReport)
      → compared (
          find_first
            (is_alert_of report.environment (key report))
            (new_alert platform call report ∷ []))
        ≡ some (report.evidence_fingerprint, report.level)
  unfolding find_first new_alert
  new_alert_found call report =
      let a = new_alert platform call report in
      ap compared (
        find_first-single (is_alert_of report.environment (key report)) a
          (and_intro _ _ (==_refl report.environment) (==_refl (key report))))

  reopened_found :
      (report : RiskReport) (a : Alert)
      → compared (Option.map (λ x. if has_id a.id x then reopened report x else x) (some a))
        ≡ some (report.evidence_fingerprint, report.level)
  unfolding reopened
  reopened_found report a = rw (==_refl a.id) refl

  same_found :
      (report : RiskReport) (a : Alert)
      → (a.evidence_fingerprint == report.evidence_fingerprint && a.severity == report.level) ≡ true
      → compared (some a) ≡ some (report.evidence_fingerprint, report.level)
  same_found report a t =
      let same = a.evidence_fingerprint == report.evidence_fingerprint in
      let level = a.severity == report.level in
      cc (
        ==_eq {a = a.evidence_fingerprint} (and_left same level t),
        ==_eq {a = a.severity} (and_right same level t),
      )

  compared-record_on :
      (call : Call) (report : RiskReport) (o : Option Alert) (db : AlertDb)
      → find_first (is_alert_of report.environment (key report)) db.alerts ≡ o
      → compared (
          find_first
            (is_alert_of report.environment (key report))
            (record_on platform show call report o db).1.alerts)
        ≡ some (report.evidence_fingerprint, report.level)
  unfolding record_on record_occurrence
  compared-record_on call report none db h =
      let a = new_alert platform call report in
      let found = is_alert_of report.environment (key report) in
      let appended = find_first-append found db.alerts (a ∷ []) in
      compared-notify_if _ call report a _ report.environment (key report)
      ∙ ap compared appended
      ∙ rw h (new_alert_found call report)
  compared-record_on call report (some a) db h =
      let found = is_alert_of report.environment (key report) in
      let moved =
        find_first-update_where found (has_id a.id) (reopened report) (λ y. unfold reopened in refl)
          db.alerts in
      elim (Bool-cases
        (a.evidence_fingerprint == report.evidence_fingerprint && a.severity == report.level)) [
          | inl t ↦ rw t (ap compared h ∙ same_found report a t)
          | inr f ↦ rw f (
              compared-notify_if _ call report (reopened report a) _ report.environment (key report)
              ∙ ap compared moved
              ∙ ap
                  (λ o.
                    compared (Option.map (λ x. if has_id a.id x then reopened report x else x) o))
                  h
              ∙ reopened_found report a)
        ]

  record_on_quiet :
      (call : Call) (report : RiskReport) (a : Alert) (db : AlertDb)
      → compared (some a) ≡ some (report.evidence_fingerprint, report.level)
      → (is_quiet (some (record_on platform show call report (some a) db).0) ≡ true)
        × ((record_on platform show call report (some a) db).1 ≡ db)
  unfolding record_on
  record_on_quiet call report a db f =
      let fp : a.evidence_fingerprint ≡ report.evidence_fingerprint = cc f in
      let level : a.severity ≡ report.level = cc f in
      let both =
        and_intro _ _ ((string_eq.same_iff a.evidence_fingerprint report.evidence_fingerprint).1 fp)
          ((level_eq.same_iff a.severity report.level).1 level) in
      (rw both refl, rw both refl)

  compared_quiet :
      (call : Call) (report : RiskReport) (o : Option Alert) (db : AlertDb)
      → compared o ≡ some (report.evidence_fingerprint, report.level)
      → (is_quiet (some (record_on platform show call report o db).0) ≡ true)
        × ((record_on platform show call report o db).1 ≡ db)
  compared_quiet call report none db f = cc
  compared_quiet call report (some a) db f = record_on_quiet call report a db f

  -- Recording the same risk a second time, with the same level and evidence, writes nothing: no
  -- occurrence, no notification and no change of an alert, whenever it is done and whatever the
  -- database held before the first time.
  pub record_risk_again :
      (call call' : Call) (report : RiskReport) (db : AlertDb)
      → let db' = (record_risk platform show call report db).1 in
        let (result, db'') = record_risk platform show call' report db' in
        (is_quiet result ≡ true) × (db'' ≡ db')
  unfolding record_risk
  record_risk_again call call' report db =
      elim (Bool-cases (route_risk (some report.level)).create_inbox_alert) [
        | inl alert ↦
            rw alert (compared_quiet call' report _ _ (compared-record_on call report _ db refl))
        | inr silent ↦ rw silent (refl, refl)
      ]
