-- ===== src/Scoring/Family.antt =====
-- domain/workforce_risk/scoring/family.py, score_normalized_family.
use tasks_management.Base.{
  List, Option, Result, String, [], if◌then◌else◌, nat_eq, none, ok, option_eq, some, string_eq, ℕ,
  ◌++◌, ◌==◌, ◌>>=◌, ◌∷◌,
}
use tasks_management.Risk.{ConfidenceLevel, RiskLevel, confidence_eq, insufficient_data, level_eq}
use tasks_management.Scoring.{
  Direction, FactorConfiguration, FactorContribution, Floats, RiskResult, ScoreFamilyConfiguration,
  checked, confidence_for_coverage, get_or, increases_risk, inverse_risk, protective, references_of,
  risk_level_for_score, score_of,
}

-- the arguments of a score that its result repeats
pub record Subject : Type 0 where
  pub subject_id : String
  pub environment : String
  pub evidence_timestamp : ℕ
  pub scored_at : ℕ
  pub thresholds : List (String × ℕ)

-- `factors`, `missing` and `coverage`
pub record Tally (F : Type 0) : Type 0 where
  pub factors : List (FactorContribution F)
  pub missing : List String
  pub coverage : F

unfoldable pub insufficient :
    {F : Type 0} → Subject → String → List String → List String → RiskResult F
insufficient s version missing excluded = record {
  subject_id = s.subject_id;
  environment = s.environment;
  score = none;
  level = none;
  confidence = insufficient_data;
  scored_at = s.scored_at;
  evidence_timestamp = s.evidence_timestamp;
  scoring_model_version = version;
  factors = [];
  thresholds = s.thresholds;
  evidence_references = [];
  missing_evidence = missing;
  excluded_evidence = excluded;
}

-- `value is None or not references`: nothing to count, or the value
unfoldable pub counted {ℓ} : {A : Type ℓ} → Option A → List String → Option A
counted none refs = none
counted (some v) [] = none
counted (some v) (r ∷ rs) = some v

module _ {F : Type 0} (fl : Floats F) where
  -- `1 - value if settings.direction in {...} else value`
  unfoldable pub risk_value : Direction → F → F
  risk_value increases_risk v = v
  risk_value inverse_risk v = fl.sub fl.one v
  risk_value protective v = fl.sub fl.one v

  unfoldable pub contribution :
      String → F → F → FactorConfiguration F → List String → FactorContribution F
  contribution name raw normalized settings references = record {
    name = name;
    raw_value = raw;
    normalized_value = normalized;
    weight = settings.weight;
    direction = settings.direction;
    contribution_points = fl.mul (fl.mul normalized settings.weight) fl.hundred;
    evidence_references = references;
  }

  abbrev pub with_missing : String → Tally F → Tally F
  with_missing name t = record t { missing = t.missing ++ name ∷ [] }

  abbrev pub with_factor : FactorContribution F → Tally F → Tally F
  with_factor c t = record t {
    factors = t.factors ++ c ∷ [];
    coverage = fl.add t.coverage c.weight;
  }

  abbrev pub empty_tally : Tally F
  empty_tally = record { factors = []; missing = []; coverage = fl.zero }

  -- one round of the loop
  unfoldable pub family_step :
      String → FactorConfiguration F → Option F → List String → Tally F → Result (Tally F)
  family_step name settings none references t = ok (with_missing name t)
  family_step name settings (some v) references t = do
    c ← checked fl (contribution name v (risk_value settings.direction v) settings references)
    ok (with_factor c t)

  unfoldable pub family_loop :
      List (String × Option F)
      → List (String × List String)
      → List (String × FactorConfiguration F)
      → Tally F
      → Result (Tally F)
  family_loop values refs [] t = ok t
  family_loop values refs ((name, settings) ∷ rest) t =
      let references = get_or [] name refs in
      do
        t' ← family_step name settings (counted (get_or none name values) references) references t
        family_loop values refs rest t'

  -- the result of a tally with enough coverage
  unfoldable pub scored_result :
      Subject → String → ConfidenceLevel → RiskLevel → Tally F → RiskResult F
  scored_result s version confidence level t = record {
    subject_id = s.subject_id;
    environment = s.environment;
    score = some (score_of fl t.factors);
    level = some level;
    confidence = confidence;
    scored_at = s.scored_at;
    evidence_timestamp = s.evidence_timestamp;
    scoring_model_version = version;
    factors = t.factors;
    thresholds = s.thresholds;
    evidence_references = references_of fl t.factors;
    missing_evidence = t.missing;
    excluded_evidence = [];
  }

  -- what follows the loop, once the confidence is known
  unfoldable pub scored : Subject → String → ConfidenceLevel → Tally F → Result (RiskResult F)
  scored s version confidence t =
      if confidence == insufficient_data then ok (insufficient s version t.missing []) else do
        level ← risk_level_for_score (score_of fl t.factors)
        ok (scored_result s version confidence level t)

  unfoldable pub score_normalized_family :
      Subject
      → List (String × Option F)
      → List (String × List String)
      → ScoreFamilyConfiguration F
      → Result (RiskResult F)
  score_normalized_family s values refs config =
      if fl.lt config.max_evidence_age_hours (fl.hours_between s.evidence_timestamp s.scored_at)
      then ok (insufficient s config.version [] ("stale_evidence" ∷ []))
      else do
        t ← family_loop values refs config.factors empty_tally
        scored s config.version (confidence_for_coverage fl t.coverage) t
