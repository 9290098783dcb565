-- ===== src/Alerts.antt =====
-- domain/workforce_risk/alerts: which risks raise an alert and a mail (rules.py), and the states of an
-- alert (state.py).
pub mod Repository
pub mod Transitions
pub mod Recording
pub mod Lifecycle
use tasks_management.Base.{
  Bool, EqTest, List, Option, Platform, Result, String, [], arith, concat, contains, eqb, err,
  false, if◌then◌else◌, leb, ltb, nat_eq, none, not, ok, option_eq, some, string_eq, true,
  value_error, ℕ, ◌&&◌, ◌+◌, ◌==◌, ◌↔◌, ◌∷◌, ◌≡◌,
}
use tasks_management.Risk.{RiskLevel, confidence_eq, critical, high, level_eq, low, medium}

pub record AlertRouting : Type 0 where
  pub create_inbox_alert : Bool
  pub send_email : Bool
  pub prominent : Bool

unfoldable pub route_risk : Option RiskLevel → AlertRouting
route_risk (some critical) = record {
  create_inbox_alert = true;
  send_email = true;
  prominent = true;
}
route_risk (some high) = record { create_inbox_alert = true; send_email = true; prominent = false }
route_risk (some medium) = record {
  create_inbox_alert = true;
  send_email = false;
  prominent = false;
}
route_risk _ = record { create_inbox_alert = false; send_email = false; prominent = false }

-- `hashlib.sha256(f"{subject_id}:{risk_type}:{scoring_window}".encode()).hexdigest()`
unfoldable pub alert_dedup_key : Platform → String → String → String → String
alert_dedup_key platform subject_id risk_type scoring_window =
    platform.sha256 (concat subject_id (concat ":" (concat risk_type (concat ":" scoring_window))))

unfoldable pub rank : RiskLevel → ℕ
rank low = 1
rank medium = 2
rank high = 3
rank critical = 4

-- `previous_level is None or rank[current_level] > rank[previous_level]`
abbrev pub has_risen : Option RiskLevel → RiskLevel → Bool
has_risen none current = true
has_risen (some previous) current = ltb (rank previous) (rank current)

-- `last_notified_at is None or now - last_notified_at >= cooldown`
abbrev pub cooled_down : Option ℕ → ℕ → ℕ → Bool
cooled_down none now cooldown = true
cooled_down (some last) now cooldown = leb (last + cooldown) now

unfoldable pub should_notify : Option RiskLevel → RiskLevel → Option ℕ → ℕ → ℕ → Bool → Bool
unfolding route_risk rank
should_notify previous current last_notified_at now cooldown important_new_evidence =
    if not (route_risk (some current)).send_email
    then false
    else if has_risen previous current
    then true
    else if important_new_evidence
    then true
    else cooled_down last_notified_at now cooldown

pub data AlertState : Type 0 where
  new acknowledged investigating resolved dismissed : AlertState

unfoldable pub alert_value : AlertState → String
alert_value new = "new"
alert_value acknowledged = "acknowledged"
alert_value investigating = "investigating"
alert_value resolved = "resolved"
alert_value dismissed = "dismissed"

abbrev pub alert_index : AlertState → ℕ
alert_index new = 0
alert_index acknowledged = 1
alert_index investigating = 2
alert_index resolved = 3
alert_index dismissed = 4

pub alert_index_iff : (a b : AlertState) → (eqb (alert_index a) (alert_index b) ≡ true) ↔ (a ≡ b)
alert_index_iff a b = (λ h. ground arith, λ h. ground arith)

instance abbrev pub alert_eq : EqTest AlertState
alert_eq = record { same = λ a b. eqb (alert_index a) (alert_index b); same_iff = alert_index_iff }

-- ALLOWED_TRANSITIONS
unfoldable pub allowed_transitions : AlertState → List AlertState
allowed_transitions new = acknowledged ∷ investigating ∷ resolved ∷ dismissed ∷ []
allowed_transitions acknowledged = investigating ∷ resolved ∷ dismissed ∷ []
allowed_transitions investigating = resolved ∷ dismissed ∷ []
allowed_transitions resolved = new ∷ []
allowed_transitions dismissed = new ∷ []

-- `not dismissal_reason`: none or empty
abbrev pub is_blank : Option String → Bool
is_blank none = true
is_blank (some s) = s == ""

unfoldable pub validate_transition : AlertState → AlertState → Option String → Result (Unit {0})
unfolding alert_value allowed_transitions contains
validate_transition current target dismissal_reason =
    if not (contains target (allowed_transitions current))
    then err (
        value_error (
          concat "illegal alert transition: "
            (concat (alert_value current) (concat " -> " (alert_value target)))))
    else if target == dismissed && is_blank dismissal_reason
    then err (value_error "dismissal requires a reason")
    else ok tt
