-- ===== src/Alerts/Lifecycle.antt =====
-- AlertRepository: moving an alert twice from one version, and resolving the alerts of a risk.
use tasks_management.Base.{
  ==_eq, ==_refl, Bool, Bool-cases, Call, List, Option, Platform, String, and_intro, ap, arith,
  contains, count_where, count_where-update_where, false, find_first, find_first-update_where,
  if◌then◌else◌, inl, inr, nat_eq, none, ok, ok-injective, on_success_inv, option_eq, refl, some,
  string_eq, subst, true, update_where, update_where_idle, ℕ, ◌==◌, ◌∙◌, ◌≡◌,
}
use tasks_management.Risk.{confidence_eq, level_eq}
use tasks_management.Alerts.{AlertState, alert_eq, validate_transition}
use tasks_management.Alerts.Transitions.{alert_moved, at_version, transition, transition_row}
use tasks_management.Alerts.Repository.{
  Alert, AlertDb, has_id, is_active, is_active_risk, resolve_active_risk, resolve_alert,
}
use mathlib.Core.Option

moved_found :
    (id : String) (version : ℕ) (target : AlertState) (alerts : List Alert) (a : Alert)
    → find_first (has_id id) alerts ≡ some a
    → (a.version == version) ≡ true
    → find_first (has_id id) (update_where (at_version a.id version) (alert_moved target) alerts)
      ≡ some (alert_moved target a)
moved_found id version target alerts a found same =
    find_first-update_where (has_id id) (at_version a.id version) (alert_moved target) (λ y. refl)
      alerts
    ∙ ap (Option.map (λ x. if at_version a.id version x then alert_moved target x else x)) found
    ∙ rw (and_intro _ _ (==_refl a.id) same) refl

module _ (platform : Platform) where
  moved_row :
      (call : Call) (id : String) (version : ℕ) (target : AlertState) (actor correlation : String)
      (reason : Option String) (o : Option Alert) (db db' : AlertDb)
      → transition_row platform call version target actor correlation reason o db ≡ ok (true, db')
      → find_first (has_id id) db.alerts ≡ o
      → (a : Alert) × (find_first (has_id id) db.alerts ≡ some a)
        × (a.version ≡ version)
        × (validate_transition a.state target reason ≡ ok tt)
        × (find_first (has_id id) db'.alerts ≡ some (alert_moved target a))
  unfolding transition_row
  moved_row call id version target actor correlation reason none db db' h found = cc
  moved_row call id version target actor correlation reason (some a) db db' h found =
      elim (Bool-cases (a.version == version)) [
        | inl same ↦
            let (_, legal, written) =
              on_success_inv _ (validate_transition a.state target reason) _ (rw same at h) in
            elim (Bool-cases (count_where (at_version a.id version) db.alerts == 1)) [
              | inl one ↦
                  let after = ok-injective (rw one at written) in
                  (
                    a,
                    found,
                    ==_eq {a = a.version} same,
                    legal,
                    subst
                        (λ (r : Bool × AlertDb).
                          find_first (has_id id) r.1.alerts ≡ some (alert_moved target a))
                        after (moved_found id version target db.alerts a found same),
                  )
              | inr lost ↦ absurd (cc (rw lost at written))
            ]
        | inr stale ↦ absurd (cc (rw stale at h))
      ]

  stale_row :
      (call : Call) (version : ℕ) (target : AlertState) (actor correlation : String)
      (reason : Option String) (a : Alert) (db : AlertDb)
      → (a.version == version) ≡ false
      → transition_row platform call version target actor correlation reason (some a) db
        ≡ ok (false, db)
  unfolding transition_row
  stale_row call version target actor correlation reason a db stale = rw stale refl

  -- A move that succeeds was made on an alert at the named version, is a legal one and carries a
  -- reason if it dismisses the alert. Naming that version again then has no effect, so that of several
  -- moves from one version at most one succeeds.
  pub transition_once :
      (call call' : Call) (alert_id : String) (version : ℕ) (target target' : AlertState)
      (actor actor' correlation correlation' : String) (reason reason' : Option String)
      (db db' : AlertDb)
      → transition platform call alert_id version target actor correlation reason db
        ≡ ok (true, db')
      → ((a : Alert) × (find_first (has_id alert_id) db.alerts ≡ some a)
          × (a.version ≡ version)
          × (validate_transition a.state target reason ≡ ok tt)
          × (find_first (has_id alert_id) db'.alerts ≡ some (alert_moved target a)))
        × (transition platform call' alert_id version target' actor' correlation' reason' db'
            ≡ ok (false, db'))
  unfolding transition
  transition_once call call' alert_id version target target' actor actor' correlation correlation'
        reason reason' db db' h =
      let (a, found, same, legal, after) =
        moved_row call alert_id version target actor correlation reason _ db db' h refl in
      (
        (a, found, same, legal, after),
        rw after (
            stale_row call' version target' actor' correlation' reason' (alert_moved target a) db'
              (ground arith)),
      )

resolved_is_inactive :
    (env subject_id risk_type : String) (x : Alert)
    → is_active_risk env subject_id risk_type (resolve_alert x) ≡ false
unfolding is_active contains
resolved_is_inactive env subject_id risk_type x = ground arith

-- After the alerts of a risk have been resolved none of them is active, and resolving them again counts
-- none and changes nothing.
resolve_active_risk_again :
    (env subject_id risk_type : String) (db : AlertDb)
    → let db' = (resolve_active_risk env subject_id risk_type db).1 in
      resolve_active_risk env subject_id risk_type db' ≡ (0, db')
unfolding resolve_active_risk
resolve_active_risk_again env subject_id risk_type db =
    let risk = is_active_risk env subject_id risk_type in
    let none_left =
      count_where-update_where risk resolve_alert (resolved_is_inactive env subject_id risk_type)
        db.alerts in
    cc (none_left, update_where_idle risk resolve_alert _ none_left)
