-- ===== src/Risk.antt =====
-- domain/workforce_risk/models.py: risk and confidence levels.
use tasks_management.Base.{
  EqTest, Result, String, arith, eqb, err, if◌then◌else◌, list_eq, nat_eq, ok, option_eq, string_eq,
  true, value_error, ℕ, ◌==◌, ◌↔◌, ◌≡◌,
}

pub data RiskLevel : Type 0 where
  low medium high critical : RiskLevel

pub data ConfidenceLevel : Type 0 where
  high medium low insufficient_data : ConfidenceLevel

-- the values of the two `StrEnum`s
unfoldable pub level_value : RiskLevel → String
level_value RiskLevel.low = "low"
level_value RiskLevel.medium = "medium"
level_value RiskLevel.high = "high"
level_value critical = "critical"

unfoldable pub confidence_value : ConfidenceLevel → String
confidence_value ConfidenceLevel.high = "high"
confidence_value ConfidenceLevel.medium = "medium"
confidence_value ConfidenceLevel.low = "low"
confidence_value insufficient_data = "insufficient-data"

-- `ConfidenceLevel(value)`
unfoldable pub confidence_of_value : String → Result ConfidenceLevel
confidence_of_value value =
    if value == "high"
    then ok ConfidenceLevel.high
    else if value == "medium"
    then ok ConfidenceLevel.medium
    else if value == "low"
    then ok ConfidenceLevel.low
    else if value == "insufficient-data"
    then ok insufficient_data
    else err (value_error "not a valid ConfidenceLevel")

abbrev pub level_index : RiskLevel → ℕ
level_index RiskLevel.low = 0
level_index RiskLevel.medium = 1
level_index RiskLevel.high = 2
level_index critical = 3

pub level_index_iff : (a b : RiskLevel) → (eqb (level_index a) (level_index b) ≡ true) ↔ (a ≡ b)
level_index_iff a b = (λ h. ground arith, λ h. ground arith)

instance abbrev pub level_eq : EqTest RiskLevel
level_eq = record { same = λ a b. eqb (level_index a) (level_index b); same_iff = level_index_iff }

abbrev pub confidence_index : ConfidenceLevel → ℕ
confidence_index ConfidenceLevel.high = 0
confidence_index ConfidenceLevel.medium = 1
confidence_index ConfidenceLevel.low = 2
confidence_index insufficient_data = 3

pub confidence_index_iff :
    (a b : ConfidenceLevel) → (eqb (confidence_index a) (confidence_index b) ≡ true) ↔ (a ≡ b)
confidence_index_iff a b = (λ h. ground arith, λ h. ground arith)

instance abbrev pub confidence_eq : EqTest ConfidenceLevel
confidence_eq = record {
  same = λ a b. eqb (confidence_index a) (confidence_index b);
  same_iff = confidence_index_iff;
}
