-- ===== src/Scoring/Bounds.antt =====
-- The results of score_normalized_family on valid inputs, and the risk levels of scores.
use tasks_management.Base.{
  All, Bool-cases, List, Option, String, [], arith, false, inl, inr, leb, length, length-append,
  map, nat_eq, none, ok, option_eq, refl, some, string_eq, suc, true, ℕ, ◌+◌, ◌==◌, ◌∷◌, ◌≡◌, ◌≤◌,
  ◌⊎◌,
}
use tasks_management.Risk.{
  ConfidenceLevel, RiskLevel, confidence_eq, critical, insufficient_data, level_eq, level_index,
}
use tasks_management.Scoring.{
  Direction, FactorConfiguration, FactorContribution, Floats, RiskResult, ScoreFamilyConfiguration,
  checked, clamp, confidence_for_coverage, get_or, increases_risk, inverse_risk, protective,
  risk_level_for_score, score_of,
}
use tasks_management.Scoring.Family.{
  Subject, Tally, contribution, counted, empty_tally, family_loop, family_step, insufficient,
  risk_value, score_normalized_family, scored, scored_result, with_factor, with_missing,
}

pub risk_level_total : (s : ℕ) → s ≤ 100 → (l : RiskLevel) × (risk_level_for_score s ≡ ok l)
unfolding risk_level_for_score
risk_level_total s h = elim (Bool-cases (leb s 29)) [
  | inl in_low ↦ (RiskLevel.low, ground arith)
  | inr above ↦ elim (Bool-cases (leb s 54)) [
    | inl in_medium ↦ (RiskLevel.medium, ground arith)
    | inr above ↦ elim (Bool-cases (leb s 74)) [
      | inl in_high ↦ (RiskLevel.high, ground arith)
      | inr above ↦ (critical, ground arith)
    ]
  ]
]

-- A higher score never has a lower risk level.
risk_level_monotone :
    (s t : ℕ) (l m : RiskLevel)
    → risk_level_for_score s ≡ ok l
    → risk_level_for_score t ≡ ok m
    → s ≤ t
    → level_index l ≤ level_index m
unfolding risk_level_for_score
risk_level_monotone s t l m h k le = ground arith

module _ {F : Type 0} (fl : Floats F) where
  round-clamp : (total : F) → fl.round (clamp fl total fl.zero fl.hundred) ≤ 100
  unfolding clamp
  round-clamp total = elim (Bool-cases (fl.lt fl.hundred total)) [
    | inl over ↦
        rw (over, clamp)
          (elim (Bool-cases (fl.lt fl.zero fl.hundred)) [
            | inl t ↦ rw t (rw fl.round_hundred (omega arith))
            | inr f ↦ rw f (rw fl.round_zero (omega arith))
          ])
    | inr within ↦
        rw (within, clamp)
          (elim (Bool-cases (fl.lt fl.zero total)) [
            | inl t ↦ rw t (fl.round_le total t within)
            | inr f ↦ rw f (rw fl.round_zero (omega arith))
          ])
  ]

  score_of_le : (factors : List (FactorContribution F)) → score_of fl factors ≤ 100
  unfolding score_of
  score_of_le factors = round-clamp (fl.sum (map (λ f. f.contribution_points) factors))

  -- the limits of a weight
  abbrev pub IsWeight : F → Type 0
  IsWeight w = (fl.le fl.zero w ≡ true) × (fl.le w fl.one ≡ true)

  abbrev pub AreWeights : List (String × FactorConfiguration F) → Type 0
  AreWeights = All (λ entry. IsWeight entry.1.weight)

  -- the limits of the values that are given
  abbrev pub IsShare : Option F → Type 0
  IsShare none = Unit
  IsShare (some v) = IsWeight v

  abbrev pub AreShares : List (String × Option F) → Type 0
  AreShares = All (λ entry. IsShare entry.1)

  pub checked_ok :
      (c : FactorContribution F)
      → IsWeight c.normalized_value
      → IsWeight c.weight
      → checked fl c ≡ ok c
  unfolding checked
  checked_ok c (n0, n1) (w0, w1) = rw (n0, n1, w0, w1) refl

  -- a tally that has counted `n` factors
  abbrev pub Counts : ℕ → Tally F → Type 0
  Counts n t = length t.factors + length t.missing ≡ n

  -- A result is sound: without a score it has no level and no factors and the data were insufficient; with
  -- one, the score is at most 100, its level is that of its band, the data were sufficient, and of `n`
  -- factors each is counted or reported missing.
  abbrev pub IsSound : ℕ → RiskResult F → Type 0
  IsSound n r =
      ((r.score ≡ none) × (r.level ≡ none) × (r.factors ≡ []) × (r.confidence ≡ insufficient_data))
      ⊎ ((s : ℕ) × (l : RiskLevel) × (r.score ≡ some s)
          × (s ≤ 100)
          × (risk_level_for_score s ≡ ok l)
          × (r.level ≡ some l)
          × ((r.confidence == insufficient_data) ≡ false)
          × (length r.factors + length r.missing_evidence ≡ n))

  pub scored-IsSound :
      (s : Subject) (version : String) (c : ConfidenceLevel) (t : Tally F) (n : ℕ)
      → Counts n t
      → (r : RiskResult F) × (scored fl s version c t ≡ ok r) × IsSound n r
  unfolding scored scored_result insufficient
  scored-IsSound s version c t n h = elim (Bool-cases (c == insufficient_data)) [
    | inl lacking ↦
        (insufficient s version t.missing [], rw lacking refl, inl (refl, refl, refl, refl))
    | inr enough ↦
        let (l, band) = risk_level_total (score_of fl t.factors) (score_of_le t.factors) in
        (
          scored_result fl s version c l t,
          rw (enough, band) refl,
          inr (score_of fl t.factors, l, refl, score_of_le t.factors, band, refl, enough, h),
        )
  ]

  get_or-IsShare :
      (name : String) (values : List (String × Option F))
      → AreShares values
      → IsShare (get_or none name values)
  unfolding get_or
  get_or-IsShare name [] h = tt
  get_or-IsShare name ((key, v) ∷ rest) (here, there) = elim (Bool-cases (key == name)) [
    | inl t ↦ rw t here
    | inr f ↦ rw f (get_or-IsShare name rest there)
  ]

  counted-IsShare : (o : Option F) (refs : List String) → IsShare o → IsShare (counted o refs)
  unfolding counted
  counted-IsShare none refs h = tt
  counted-IsShare (some v) [] h = tt
  counted-IsShare (some v) (r ∷ rs) h = h

  risk_value-IsWeight : (d : Direction) (v : F) → IsWeight v → IsWeight (risk_value fl d v)
  unfolding risk_value
  risk_value-IsWeight increases_risk v h = h
  risk_value-IsWeight inverse_risk v (h0, h1) = fl.sub_one v h0 h1
  risk_value-IsWeight protective v (h0, h1) = fl.sub_one v h0 h1

  pub with_missing-Counts :
      (name : String) (t : Tally F) (n : ℕ) → Counts n t → Counts (suc n) (with_missing fl name t)
  with_missing-Counts name t n h = omega (arith, h, length-append t.missing (name ∷ []))

  pub with_factor-Counts :
      (c : FactorContribution F) (t : Tally F) (n : ℕ)
      → Counts n t
      → Counts (suc n) (with_factor fl c t)
  with_factor-Counts c t n h = omega (arith, h, length-append t.factors (c ∷ []))

  family_step-Counts :
      (name : String) (settings : FactorConfiguration F) (o : Option F) (refs : List String)
      (t : Tally F) (n : ℕ)
      → IsShare o
      → IsWeight settings.weight
      → Counts n t
      → (t' : Tally F) × (family_step fl name settings o refs t ≡ ok t') × Counts (suc n) t'
  unfolding family_step
  family_step-Counts name settings none refs t n share weight h =
      (_, refl, with_missing-Counts name t n h)
  family_step-Counts name settings (some v) refs t n share weight h =
      let c = contribution fl name v (risk_value fl settings.direction v) settings refs in
      let valid =
        checked_ok c (unfold contribution in risk_value-IsWeight settings.direction v share)
          (unfold contribution in weight) in
      (with_factor fl c t, rw valid refl, with_factor-Counts c t n h)

  family_loop-Counts :
      (values : List (String × Option F)) (refs : List (String × List String))
      (factors : List (String × FactorConfiguration F)) (t : Tally F) (n : ℕ)
      → AreShares values
      → AreWeights factors
      → Counts n t
      → (t' : Tally F) × (family_loop fl values refs factors t ≡ ok t')
        × Counts (length factors + n) t'
  unfolding family_loop
  family_loop-Counts values refs [] t n shares weights h = (t, refl, omega (arith, h))
  family_loop-Counts values refs ((name, settings) ∷ rest) t n shares (weight, weights) h =
      let references = get_or [] name refs in
      let o = counted (get_or none name values) references in
      let share =
        counted-IsShare (get_or none name values) references (get_or-IsShare name values shares) in
      let (t1, stepped, h1) = family_step-Counts name settings o references t n share weight h in
      let (t2, looped, h2) = family_loop-Counts values refs rest t1 (suc n) shares weights h1 in
      (t2, rw stepped looped, omega (arith, h2))

  -- Scoring values between 0 and 1 by a configuration whose weights are between 0 and 1 raises nothing and
  -- gives a sound result.
  pub score_normalized_family-IsSound :
      (s : Subject) (values : List (String × Option F)) (refs : List (String × List String))
      (config : ScoreFamilyConfiguration F)
      → AreShares values
      → AreWeights config.factors
      → (r : RiskResult F) × (score_normalized_family fl s values refs config ≡ ok r)
        × IsSound (length config.factors) r
  unfolding score_normalized_family insufficient
  score_normalized_family-IsSound s values refs config shares weights =
      elim (Bool-cases
        (fl.lt config.max_evidence_age_hours (fl.hours_between s.evidence_timestamp s.scored_at))) [
          | inl old ↦ (
            insufficient s config.version [] ("stale_evidence" ∷ []),
            rw old refl,
            inl (refl, refl, refl, refl),
          )
          | inr fresh ↦
              let (t, looped, h) =
                family_loop-Counts values refs config.factors (empty_tally fl) 0 shares weights
                  refl in
              let (r, done, sound) =
                scored-IsSound s config.version (confidence_for_coverage fl t.coverage) t
                  (length config.factors) (omega (arith, h)) in
              (r, rw (fresh, looped) done, sound)
        ]
