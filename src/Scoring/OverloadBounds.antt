-- ===== src/Scoring/OverloadBounds.antt =====
-- The results of score_employee_overload on valid inputs.
use tasks_management.Base.{
  All, Bool-cases, List, Option, String, [], arith, inl, inr, length, none, ok, refl, some, suc,
  true, ℕ, ◌+◌, ◌∷◌, ◌≡◌,
}
use tasks_management.Scoring.{
  FactorConfiguration, Floats, RiskResult, ScoreFamilyConfiguration, clamp, get_or,
  normalize_capped, quotient,
}
use tasks_management.Scoring.Family.{
  Subject, Tally, contribution, counted, empty_tally, insufficient, with_factor, with_missing,
}
use tasks_management.Scoring.Overload.{
  EmployeeOverloadInput, confidence, factor_inputs, missing_mandatory, overload_loop, overload_step,
  raw_values, score_employee_overload, score_hours, score_mandatory, subject_of,
}
use tasks_management.Scoring.Bounds.{
  Counts, IsSound, IsWeight, checked_ok, scored-IsSound, with_factor-Counts, with_missing-Counts,
}

module _ {F : Type 0} (fl : Floats F) where
  clamp-IsWeight : (v : F) → IsWeight fl (clamp fl v fl.zero fl.one)
  unfolding clamp
  clamp-IsWeight v = elim (Bool-cases (fl.lt fl.one v)) [
    | inl over ↦
        rw (over, clamp)
          (elim (Bool-cases (fl.lt fl.zero fl.one)) [
            | inl t ↦ rw t (fl.zero_le_one, fl.one_le_one)
            | inr f ↦ rw f (fl.zero_le_zero, fl.zero_le_one)
          ])
    | inr within ↦
        rw (within, clamp)
          (elim (Bool-cases (fl.lt fl.zero v)) [
            | inl t ↦ rw t (fl.lt_le fl.zero v t, fl.le_one fl.zero v t within)
            | inr f ↦ rw f (fl.zero_le_zero, fl.zero_le_one)
          ])
  ]

  abbrev pub IsPositive : F → Type 0
  IsPositive v = fl.lt fl.zero v ≡ true

  -- the limits of a factor's configuration
  abbrev pub AreFactors : List (String × FactorConfiguration F) → Type 0
  AreFactors = All (λ entry. IsWeight fl entry.1.weight × IsPositive entry.1.normalization_cap)

  overload_step-Counts :
      (name : String) (settings : FactorConfiguration F) (o : Option F) (refs : List String)
      (t : Tally F) (n : ℕ)
      → IsWeight fl settings.weight
      → IsPositive settings.normalization_cap
      → Counts fl n t
      → (t' : Tally F) × (overload_step fl name settings o refs t ≡ ok t') × Counts fl (suc n) t'
  unfolding overload_step
  overload_step-Counts name settings none refs t n weight cap h = (
    with_missing fl (get_or name name factor_inputs) t,
    refl,
    with_missing-Counts fl (get_or name name factor_inputs) t n h,
  )
  overload_step-Counts name settings (some v) refs t n weight cap h =
      let normalized = clamp fl (fl.div v settings.normalization_cap) fl.zero fl.one in
      let capped : normalize_capped fl v settings.normalization_cap ≡ ok normalized =
        unfold normalize_capped in rw (fl.lt_not_le fl.zero settings.normalization_cap cap) refl in
      let c = contribution fl name v normalized settings refs in
      let valid =
        checked_ok fl c
          (unfold contribution in clamp-IsWeight (fl.div v settings.normalization_cap))
          (unfold contribution in weight) in
      (with_factor fl c t, rw (capped, valid) refl, with_factor-Counts fl c t n h)

  overload_loop-Counts :
      (values : List (String × Option F)) (refs : List (String × List String))
      (factors : List (String × FactorConfiguration F)) (t : Tally F) (n : ℕ)
      → AreFactors factors
      → Counts fl n t
      → (t' : Tally F) × (overload_loop fl values refs factors t ≡ ok t')
        × Counts fl (length factors + n) t'
  unfolding overload_loop
  overload_loop-Counts values refs [] t n valid h = (t, refl, omega (arith, h))
  overload_loop-Counts values refs ((name, settings) ∷ rest) t n ((weight, cap), valid) h =
      let references = get_or [] name refs in
      let o = counted (get_or none name values) references in
      let (t1, stepped, h1) = overload_step-Counts name settings o references t n weight cap h in
      let (t2, looped, h2) = overload_loop-Counts values refs rest t1 (suc n) valid h1 in
      (t2, rw stepped looped, omega (arith, h2))

  -- the limits of the hours of capacity
  abbrev pub IsCapacity : Option F → Type 0
  IsCapacity none = Unit
  IsCapacity (some c) = IsPositive c

  score_hours-IsSound :
      (i : EmployeeOverloadInput F) (remaining capacity : F) (config : ScoreFamilyConfiguration F)
      (s : Subject)
      → IsPositive capacity
      → AreFactors config.factors
      → (r : RiskResult F) × (score_hours fl i remaining capacity config s ≡ ok r)
        × IsSound fl (length config.factors) r
  unfolding score_hours insufficient quotient
  score_hours-IsSound i remaining capacity config s positive valid =
      elim (Bool-cases
        (fl.lt config.max_evidence_age_hours (fl.hours_between s.evidence_timestamp s.scored_at))) [
          | inl old ↦ (
            insufficient s config.version [] ("stale_evidence" ∷ []),
            rw old refl,
            inl (refl, refl, refl, refl),
          )
          | inr fresh ↦
              let values = raw_values fl i (fl.div remaining capacity) in
              let (t, looped, h) =
                overload_loop-Counts values i.evidence_references config.factors (empty_tally fl) 0
                  valid refl in
              let (r, done, sound) =
                scored-IsSound fl s config.version (confidence fl t.coverage) t
                  (length config.factors) (omega (arith, h)) in
              (r, rw (fresh, fl.positive_is_not_zero capacity positive, looped) done, sound)
        ]

  score_mandatory-IsSound :
      (i : EmployeeOverloadInput F) (remaining capacity : Option F)
      (config : ScoreFamilyConfiguration F) (s : Subject)
      → IsCapacity capacity
      → AreFactors config.factors
      → (r : RiskResult F) × (score_mandatory fl i remaining capacity config s ≡ ok r)
        × IsSound fl (length config.factors) r
  unfolding insufficient
  score_mandatory-IsSound i (some remaining) (some capacity) config s positive valid =
      score_hours-IsSound i remaining capacity config s positive valid
  score_mandatory-IsSound i (some remaining) none config s positive valid = (
    insufficient s config.version (missing_mandatory (some remaining) none) [],
    refl,
    inl (refl, refl, refl, refl),
  )
  score_mandatory-IsSound i none (some c) config s positive valid = (
    insufficient s config.version (missing_mandatory none (some c)) [],
    refl,
    inl (refl, refl, refl, refl),
  )
  score_mandatory-IsSound i none none config s positive valid = (
    insufficient s config.version (missing_mandatory {A = F} none none) [],
    refl,
    inl (refl, refl, refl, refl),
  )

  -- Scoring an employee whose capacity, if known, is positive, by a configuration with weights between 0
  -- and 1 and positive caps, raises nothing and gives a sound result, whatever the counts are.
  pub score_employee_overload-IsSound :
      (i : EmployeeOverloadInput F) (config : ScoreFamilyConfiguration F)
      (thresholds : List (String × ℕ)) (scored_at : ℕ)
      → IsCapacity i.available_capacity_hours
      → AreFactors config.factors
      → (r : RiskResult F) × (score_employee_overload fl i config thresholds scored_at ≡ ok r)
        × IsSound fl (length config.factors) r
  unfolding score_employee_overload
  score_employee_overload-IsSound i config thresholds scored_at positive valid =
      score_mandatory-IsSound i i.remaining_estimated_hours i.available_capacity_hours config
        (subject_of i thresholds scored_at) positive valid
