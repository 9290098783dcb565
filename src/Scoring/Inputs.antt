-- ===== src/Scoring/Inputs.antt =====
-- domain/workforce_risk/scoring/task_fit.py and project_delivery.py: the scores of a task and of a project,
-- with their inputs from domain/workforce_risk/models.py.
use tasks_management.Base.{
  All, Bool-cases, List, Option, Result, String, [], err, if◌then◌else◌, inl, inr, length, nat_eq,
  ok, ok-injective, option_eq, refl, runtime_error, string_eq, subst, ℕ, ◌==◌, ◌>>=◌, ◌∷◌, ◌≡◌,
}
use tasks_management.Scoring.{FactorConfiguration, Floats, RiskResult, ScoreFamilyConfiguration}
use tasks_management.Scoring.Family.{Subject, score_normalized_family}
use tasks_management.Scoring.Bounds.{
  AreShares, AreWeights, IsShare, IsSound, score_normalized_family-IsSound,
}

pub record TaskFitInput (F : Type 0) : Type 0 where
  pub task_id : String
  pub environment : String
  pub required_skill_gap : Option F
  pub difficulty_seniority_mismatch : Option F
  pub deadline_pressure : Option F
  pub dependency_impact : Option F
  pub task_criticality : Option F
  pub similar_task_evidence : Option F
  pub mentoring_review_support : Option F
  pub evidence_timestamp : ℕ
  pub evidence_references : List (String × List String)

pub record ProjectDeliveryInput (F : Type 0) : Type 0 where
  pub project_id : String
  pub environment : String
  pub schedule_gap : Option F
  pub remaining_capacity_pressure : Option F
  pub blocked_overdue_work : Option F
  pub workload_concentration : Option F
  pub unplanned_work : Option F
  pub critical_weak_fit : Option F
  pub evidence_timestamp : ℕ
  pub evidence_references : List (String × List String)

module _ {F : Type 0} where
  -- the attributes that a factor can name
  unfoldable pub task_fit_attributes : TaskFitInput F → List (String × Option F)
  task_fit_attributes i =
      ("required_skill_gap", i.required_skill_gap)
      ∷ ("difficulty_seniority_mismatch", i.difficulty_seniority_mismatch)
      ∷ ("deadline_pressure", i.deadline_pressure)
      ∷ ("dependency_impact", i.dependency_impact)
      ∷ ("task_criticality", i.task_criticality)
      ∷ ("similar_task_evidence", i.similar_task_evidence)
      ∷ ("mentoring_review_support", i.mentoring_review_support)
      ∷ []

  unfoldable pub project_attributes : ProjectDeliveryInput F → List (String × Option F)
  project_attributes i =
      ("schedule_gap", i.schedule_gap)
      ∷ ("remaining_capacity_pressure", i.remaining_capacity_pressure)
      ∷ ("blocked_overdue_work", i.blocked_overdue_work)
      ∷ ("workload_concentration", i.workload_concentration)
      ∷ ("unplanned_work", i.unplanned_work)
      ∷ ("critical_weak_fit", i.critical_weak_fit)
      ∷ []

  -- `getattr(input_data, name)`; a factor that names no attribute raises
  unfoldable pub attribute : String → List (String × Option F) → Result (Option F)
  attribute name [] = err (runtime_error "AttributeError")
  attribute name ((key, v) ∷ rest) = if key == name then ok v else attribute name rest

  -- `{name: getattr(input_data, name) for name in factors}`
  unfoldable pub values_of :
      List (String × Option F)
      → List (String × FactorConfiguration F)
      → Result (List (String × Option F))
  values_of attributes [] = ok []
  values_of attributes ((name, settings) ∷ rest) = do
    v ← attribute name attributes
    values ← values_of attributes rest
    ok ((name, v) ∷ values)

module _ {F : Type 0} (fl : Floats F) where
  unfoldable pub score_task_fit :
      TaskFitInput F → ScoreFamilyConfiguration F → List (String × ℕ) → ℕ → Result (RiskResult F)
  score_task_fit i config thresholds scored_at = do
    values ← values_of (task_fit_attributes i) config.factors
    score_normalized_family fl
        (record {
          subject_id = i.task_id;
          environment = i.environment;
          evidence_timestamp = i.evidence_timestamp;
          scored_at = scored_at;
          thresholds = thresholds;
        })
        values i.evidence_references config

  unfoldable pub score_project_delivery :
      ProjectDeliveryInput F
      → ScoreFamilyConfiguration F
      → List (String × ℕ)
      → ℕ
      → Result (RiskResult F)
  score_project_delivery i config thresholds scored_at = do
    values ← values_of (project_attributes i) config.factors
    score_normalized_family fl
        (record {
          subject_id = i.project_id;
          environment = i.environment;
          evidence_timestamp = i.evidence_timestamp;
          scored_at = scored_at;
          thresholds = thresholds;
        })
        values i.evidence_references config

  -- the factors name attributes
  abbrev pub AreNamed : List (String × Option F) → List (String × FactorConfiguration F) → Type 0
  AreNamed attributes = All (λ factor. (v : Option F) × (attribute factor.0 attributes ≡ ok v))

  attribute-IsShare :
      (name : String) (attributes : List (String × Option F)) (v : Option F)
      → AreShares fl attributes
      → attribute name attributes ≡ ok v
      → IsShare fl v
  unfolding attribute
  attribute-IsShare name [] v h k = cc
  attribute-IsShare name ((key, u) ∷ rest) v (here, there) k = elim (Bool-cases (key == name)) [
    | inl t ↦ subst (IsShare fl) (ok-injective (rw t at k)) here
    | inr f ↦ attribute-IsShare name rest v there (rw f at k)
  ]

  values_of-AreShares :
      (attributes : List (String × Option F)) (factors : List (String × FactorConfiguration F))
      → AreShares fl attributes
      → AreNamed attributes factors
      → (values : List (String × Option F)) × (values_of attributes factors ≡ ok values)
        × AreShares fl values
  unfolding values_of
  values_of-AreShares attributes [] shares named = ([], refl, tt)
  values_of-AreShares attributes ((name, settings) ∷ rest) shares ((v, found), named) =
      let (values, read, valid) = values_of-AreShares attributes rest shares named in
      (
        (name, v) ∷ values,
        rw (found, read) refl,
        (attribute-IsShare name attributes v shares found, valid),
      )

  -- Scoring the fit of a task whose values are between 0 and 1, by a configuration whose factors are
  -- attributes of the input and whose weights are between 0 and 1, raises nothing and gives a sound result.
  score_task_fit-IsSound :
      (i : TaskFitInput F) (config : ScoreFamilyConfiguration F) (thresholds : List (String × ℕ))
      (scored_at : ℕ)
      → AreShares fl (task_fit_attributes i)
      → AreNamed (task_fit_attributes i) config.factors
      → AreWeights fl config.factors
      → (r : RiskResult F) × (score_task_fit i config thresholds scored_at ≡ ok r)
        × IsSound fl (length config.factors) r
  unfolding score_task_fit
  score_task_fit-IsSound i config thresholds scored_at shares named weights =
      let (values, read, valid) =
        values_of-AreShares (task_fit_attributes i) config.factors shares named in
      let subject : Subject = record {
        subject_id = i.task_id;
        environment = i.environment;
        evidence_timestamp = i.evidence_timestamp;
        scored_at = scored_at;
        thresholds = thresholds;
      } in
      let (r, done, sound) =
        score_normalized_family-IsSound fl subject values i.evidence_references config valid
          weights in
      (r, rw read done, sound)
