-- ===== src/Scoring.antt =====
-- domain/workforce_risk/scoring: the numbers and limits that every score uses (common.py, confidence.py,
-- config.py, and the thresholds of overload.py), with the results of domain/workforce_risk/models.py.
-- Python's floats are the interface `Floats`, whose laws hold of IEEE doubles.
pub mod Family
pub mod Overload
pub mod Bounds
pub mod OverloadBounds
pub mod Inputs
use tasks_management.Base.{
  Bool, List, Option, Result, String, [], concat_map, contains, err, false, if◌then◌else◌, leb,
  list_eq, map, nat_eq, not, ok, option_eq, runtime_error, sort, string_eq, string_lt, true,
  value_error, ℕ, ◌&&◌, ◌==◌, ◌∷◌, ◌≡◌, ◌≤◌,
}
use tasks_management.Risk.{
  ConfidenceLevel, RiskLevel, confidence_eq, critical, insufficient_data, level_eq,
}

-- The operations on floats that the scores use, and what is relied on. `hours_between` is
-- `(later - earlier).total_seconds() / 3600`, `sum` the built-in, `round` is applied to clamped scores only.
pub record Floats (F : Type 0) : Type 0 where
  pub zero : F
  pub one : F
  pub hundred : F
  pub nine_tenths : F
  pub three_quarters : F
  pub six_tenths : F
  pub lt : F → F → Bool
  pub le : F → F → Bool
  pub add : F → F → F
  pub sub : F → F → F
  pub mul : F → F → F
  pub div : F → F → F
  pub is_zero : F → Bool
  pub sum : List F → F
  pub of_count : ℕ → F
  pub hours_between : ℕ → ℕ → F
  pub round : F → ℕ
  pub zero_le_zero : le zero zero ≡ true
  pub zero_le_one : le zero one ≡ true
  pub one_le_one : le one one ≡ true
  pub lt_le : (a b : F) → lt a b ≡ true → le a b ≡ true
  pub lt_not_le : (a b : F) → lt a b ≡ true → le b a ≡ false
  -- what is larger than a float is not NaN, so it compares with one
  pub le_one : (a v : F) → lt a v ≡ true → lt one v ≡ false → le v one ≡ true
  pub sub_one :
      (v : F)
      → le zero v ≡ true
      → le v one ≡ true
      → (le zero (sub one v) ≡ true) × (le (sub one v) one ≡ true)
  pub positive_is_not_zero : (v : F) → lt zero v ≡ true → is_zero v ≡ false
  pub round_zero : round zero ≡ 0
  pub round_hundred : round hundred ≡ 100
  pub round_le : (v : F) → lt zero v ≡ true → lt hundred v ≡ false → round v ≤ 100

pub data Direction : Type 0 where
  increases_risk inverse_risk protective : Direction

pub record FactorConfiguration (F : Type 0) : Type 0 where
  pub weight : F
  pub direction : Direction
  pub normalization_cap : F

-- OverloadConfiguration and ScoreFamilyConfiguration; the dict of factors in its order
pub record ScoreFamilyConfiguration (F : Type 0) : Type 0 where
  pub version : String
  pub max_evidence_age_hours : F
  pub factors : List (String × FactorConfiguration F)

-- `abs(x)`
abbrev distance : {F : Type 0} → Floats F → F → F
distance fl x = if fl.lt x fl.zero then fl.sub fl.zero x else x

-- `validate_weights` of either configuration, with its tolerance and its message
unfoldable pub validate_weights :
    {F : Type 0}
    → Floats F
    → F
    → String
    → ScoreFamilyConfiguration F
    → Result (ScoreFamilyConfiguration F)
validate_weights fl tolerance message config =
    if fl.lt tolerance (distance fl (fl.sub (fl.sum (map (λ f. f.1.weight) config.factors)) fl.one))
    then err (value_error message)
    else ok config

pub record FactorContribution (F : Type 0) : Type 0 where
  pub name : String
  pub raw_value : F
  pub normalized_value : F
  pub weight : F
  pub direction : Direction
  pub contribution_points : F
  pub evidence_references : List String

pub record RiskResult (F : Type 0) : Type 0 where
  pub subject_id : String
  pub environment : String
  pub score : Option ℕ
  pub level : Option RiskLevel
  pub confidence : ConfidenceLevel
  pub scored_at : ℕ
  pub evidence_timestamp : ℕ
  pub scoring_model_version : String
  pub factors : List (FactorContribution F)
  pub thresholds : List (String × ℕ)
  pub evidence_references : List String
  pub missing_evidence : List String
  pub excluded_evidence : List String

-- `d.get(name, default)` on a dict
unfoldable pub get_or {ℓ} : {A : Type ℓ} → A → String → List (String × A) → A
get_or d name [] = d
get_or d name ((key, a) ∷ rest) = if key == name then a else get_or d name rest

unfoldable pub risk_level_for_score : ℕ → Result RiskLevel
risk_level_for_score score =
    if not (leb score 100)
    then err (value_error "risk score must be between 0 and 100")
    else if leb score 29
    then ok RiskLevel.low
    else if leb score 54
    then ok RiskLevel.medium
    else if leb score 74
    then ok RiskLevel.high
    else ok critical

-- the elements of a set
unfoldable pub unique : List String → List String
unfolding contains
unique [] = []
unique (x ∷ xs) = let rest = unique xs in if contains x rest then rest else x ∷ rest

module _ {F : Type 0} (fl : Floats F) where
  -- Python's `min` and `max` keep the first argument unless the second is smaller, or larger
  unfoldable pub clamp : F → F → F → F
  clamp value minimum maximum =
      let capped = if fl.lt maximum value then maximum else value in
      if fl.lt minimum capped then capped else minimum

  unfoldable pub normalize_capped : F → F → Result F
  normalize_capped value cap =
      if fl.le cap fl.zero
      then err (value_error "normalization cap must be positive")
      else ok (clamp (fl.div value cap) fl.zero fl.one)

  unfoldable pub confidence_for_coverage : F → ConfidenceLevel
  confidence_for_coverage coverage =
      if fl.le fl.nine_tenths coverage
      then ConfidenceLevel.high
      else if fl.le fl.three_quarters coverage
      then ConfidenceLevel.medium
      else if fl.le fl.six_tenths coverage
      then ConfidenceLevel.low
      else insufficient_data

  -- `a / b`
  unfoldable pub quotient : F → F → Result F
  quotient a b = if fl.is_zero b then err (runtime_error "ZeroDivisionError") else ok (fl.div a b)

  -- the limits that `FactorContribution` checks
  unfoldable pub checked : FactorContribution F → Result (FactorContribution F)
  checked c =
      if fl.le fl.zero c.normalized_value
        && fl.le c.normalized_value fl.one
        && fl.le fl.zero c.weight
        && fl.le c.weight fl.one
      then ok c
      else err (value_error "ValidationError")

  -- `sorted({reference for factor in factors for reference in factor.evidence_references})`
  unfoldable pub references_of : List (FactorContribution F) → List String
  references_of factors = sort string_lt (unique (concat_map (λ f. f.evidence_references) factors))

  -- `round(clamp(sum(points), 0, 100))`
  unfoldable pub score_of : List (FactorContribution F) → ℕ
  score_of factors =
      fl.round (clamp (fl.sum (map (λ f. f.contribution_points) factors)) fl.zero fl.hundred)
