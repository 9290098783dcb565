-- ===== src/Simulation/Candidates.antt =====
-- Who can be proposed: the eligible candidates, and the scores of the employee who is proposed.
use tasks_management.Base.{
  ==_eq, Bool, Bool-cases, List, Option, String, [], any, ap, arith, contains, count_where, false,
  find_first, inl, inr, insert, list_eq, map, nat_eq, none, not, ok, ok-injective, one_if,
  option_eq, refl, select, some, sort, string_eq, subst, sym, true, ℕ, ◌&&◌, ◌++◌, ◌<◌, ◌==◌, ◌||◌,
  ◌∙◌, ◌∷◌, ◌≡◌, ◌≤◌, ◌⊎◌,
}
use tasks_management.Risk.{ConfidenceLevel, confidence_eq, insufficient_data, level_eq}
use tasks_management.Scoring.{RiskResult, unique}
use tasks_management.Simulation.{
  CandidateAssessment, CandidateEvidence, RankingFloats, ReassignmentSimulation, ScoreFamilies,
  assess_candidate, assessed, eligible_ids, is_employee, is_none, is_overloaded, is_unsure,
  proposed_scores, ranks_before, reasons_against, same_scoring_rules, select_candidates,
  simulate_reassignment, simulate_with,
}

-- a score that is known with at least medium confidence
abbrev pub HasScore : {F : Type 0} → RiskResult F → Type 0
HasScore r =
    ((s : ℕ) × (r.score ≡ some s))
    × ((r.confidence ≡ ConfidenceLevel.medium) ⊎ (r.confidence ≡ ConfidenceLevel.high))

-- who may be proposed
abbrev pub IsEligible : {F : Type 0} → CandidateEvidence F → Type 0
IsEligible c =
    ((account : String) × (c.profile.jira_account_id ≡ some account))
    × (c.has_jira_project_access ≡ true)
    × HasScore c.overload_risk
    × HasScore c.task_fit_risk
    × HasScore c.predicted_project_risk
    × ((s : ℕ) × (c.overload_risk.score ≡ some s) × (s < 75))

no_last_reason : (b : Bool) (reason : String) → one_if b reason ≡ [] → b ≡ false
no_last_reason true reason h = cc
no_last_reason false reason h = refl

no_reason :
    (xs : List String) (b : Bool) (reason : String)
    → (xs ++ one_if b reason) ≡ []
    → (xs ≡ []) × (b ≡ false)
no_reason [] b reason h = (refl, no_last_reason b reason h)
no_reason (x ∷ xs) b reason h = cc

neither : (a b : Bool) → (a || b) ≡ false → (a ≡ false) × (b ≡ false)
neither a b h = (ground arith, ground arith)

given {ℓ} : {A : Type ℓ} (o : Option A) → is_none o ≡ false → (a : A) × (o ≡ some a)
given none h = cc
given (some a) h = (a, refl)

sure :
    (c : ConfidenceLevel)
    → not (contains c (ConfidenceLevel.medium ∷ ConfidenceLevel.high ∷ [])) ≡ false
    → (c ≡ ConfidenceLevel.medium) ⊎ (c ≡ ConfidenceLevel.high)
unfolding contains
sure ConfidenceLevel.high h = inr refl
sure ConfidenceLevel.medium h = inl refl
sure ConfidenceLevel.low h = cc
sure insufficient_data h = cc

below :
    (o : Option ℕ) (s : ℕ)
    → o ≡ some s
    → is_overloaded o ≡ false
    → (t : ℕ) × (o ≡ some t) × (t < 75)
below none s found h = cc
below (some t) s found h = (t, refl, ground arith)

any-insert {ℓ} :
    {A : Type ℓ} (p : A → Bool) (less : A → A → Bool) (x : A) (xs : List A)
    → any p (insert less x xs) ≡ (p x || any p xs)
unfolding any insert
any-insert p less x [] = refl
any-insert p less x (y ∷ ys) = elim (Bool-cases (less y x)) [
  | inl t ↦ rw t (ground (arith, any-insert p less x ys))
  | inr f ↦ rw f refl
]

any-sort {ℓ} :
    {A : Type ℓ} (p : A → Bool) (less : A → A → Bool) (xs : List A)
    → any p (sort less xs) ≡ any p xs
unfolding any sort
any-sort p less [] = refl
any-sort p less (x ∷ xs) =
    any-insert p less x (sort less xs) ∙ ap (λ b. p x || b) (any-sort p less xs)

module _ {F : Type 0} (fl : RankingFloats F) where
  -- an identifier is among the eligible ones exactly if an eligible assessment has it
  contains-ids :
      (id : String) (xs : List (CandidateAssessment F))
      → contains id (map (λ a. a.employee_id) (select (λ a. a.eligible) xs))
        ≡ any (λ a. a.eligible && a.employee_id == id) xs
  unfolding contains any select
  contains-ids id [] = refl
  contains-ids id (a ∷ xs) = elim (Bool-cases a.eligible) [
    | inl t ↦ rw t (ap (λ b. a.employee_id == id || b) (contains-ids id xs))
    | inr f ↦ rw f (contains-ids id xs)
  ]

  assessed_id :
      (c : CandidateEvidence F) (reasons : List String)
      → (assessed fl c reasons).employee_id ≡ c.profile.employee_id
  assessed_id c [] = refl
  assessed_id c (r ∷ rs) = refl

  abbrev chosen : String → CandidateAssessment F → Bool
  chosen id a = a.eligible && a.employee_id == id

  chosen-other :
      (id : String) (c : CandidateEvidence F)
      → is_employee fl id c ≡ false
      → chosen id (assess_candidate fl c) ≡ false
  unfolding assess_candidate
  chosen-other id c h =
      let same : ((assess_candidate fl c).employee_id == id) ≡ false =
        rw (assessed_id c (reasons_against c)) h in
      ground (arith, same)

  none_chosen :
      (id : String) (cs : List (CandidateEvidence F))
      → count_where (is_employee fl id) cs ≡ 0
      → any (chosen id) (map (assess_candidate fl) cs) ≡ false
  unfolding count_where any
  none_chosen id [] h = refl
  none_chosen id (d ∷ cs) h = elim (Bool-cases (is_employee fl id d)) [
    | inl t ↦ absurd (omega (arith, rw t at h))
    | inr f ↦ rw (chosen-other id d f) (none_chosen id cs (omega (arith, rw f at h)))
  ]

  -- the employee that is found, if no other has the identifier, is the eligible one
  found_is_eligible :
      (id : String) (cs : List (CandidateEvidence F)) (c : CandidateEvidence F)
      → find_first (is_employee fl id) cs ≡ some c
      → count_where (is_employee fl id) cs ≤ 1
      → any (chosen id) (map (assess_candidate fl) cs) ≡ true
      → (assess_candidate fl c).eligible ≡ true
  unfolding find_first count_where any
  found_is_eligible id [] c found unique h = cc
  found_is_eligible id (d ∷ cs) c found unique h = elim (Bool-cases (is_employee fl id d)) [
    | inl t ↦
        let no_other = none_chosen id cs (omega (arith, rw t at unique)) in
        let this : d ≡ c = cc (rw t at found) in
        subst (λ x. (assess_candidate fl x).eligible ≡ true) this (ground (arith, no_other, h))
    | inr f ↦
        found_is_eligible id cs c (rw f at found) (omega (arith, rw f at unique))
          (rw (chosen-other id d f) at h)
  ]

  eligible_without_reasons :
      (c : CandidateEvidence F) (reasons : List String)
      → (assessed fl c reasons).eligible ≡ true
      → reasons ≡ []
  eligible_without_reasons c [] h = refl
  eligible_without_reasons c (r ∷ rs) h = cc

  eligible-IsEligible :
      (c : CandidateEvidence F) → (assess_candidate fl c).eligible ≡ true → IsEligible c
  unfolding assess_candidate reasons_against
  eligible-IsEligible c h =
      let no_account = is_none c.profile.jira_account_id in
      let no_access = not c.has_jira_project_access in
      let unsure1 = is_unsure c.overload_risk in
      let unsure2 = is_unsure c.task_fit_risk in
      let unsure3 = is_unsure c.predicted_project_risk in
      let none1 = is_none c.overload_risk.score in
      let none2 = is_none c.task_fit_risk.score in
      let none3 = is_none c.predicted_project_risk.score in
      let reason1 = one_if (no_account || no_access) "jira_access_unavailable" in
      let reason2 = one_if (unsure1 || unsure2 || unsure3) "confidence_below_minimum" in
      let reason3 = one_if (none1 || none2 || none3) "incomplete_structured_evidence" in
      let (rest1, light) =
        no_reason (reason1 ++ reason2 ++ reason3) (is_overloaded c.overload_risk.score)
          "candidate_overloaded" (eligible_without_reasons c (reasons_against c) h) in
      let (rest2, complete) =
        no_reason (reason1 ++ reason2) (none1 || none2 || none3) "incomplete_structured_evidence"
          rest1 in
      let (rest3, confident) =
        no_reason reason1 (unsure1 || unsure2 || unsure3) "confidence_below_minimum" rest2 in
      let (account, allowed) =
        neither no_account no_access
          (no_last_reason (no_account || no_access) "jira_access_unavailable" rest3) in
      let (confident', c3) = neither (unsure1 || unsure2) unsure3 confident in
      let (c1, c2) = neither unsure1 unsure2 confident' in
      let (complete', s3) = neither (none1 || none2) none3 complete in
      let (s1, s2) = neither none1 none2 complete' in
      let overload = given c.overload_risk.score s1 in
      (
        given c.profile.jira_account_id account,
        ground (arith, allowed),
        (overload, sure c.overload_risk.confidence c1),
        (given c.task_fit_risk.score s2, sure c.task_fit_risk.confidence c2),
        (given c.predicted_project_risk.score s3, sure c.predicted_project_risk.confidence c3),
        below c.overload_risk.score overload.0 overload.1 light,
      )

  valid_rules :
      (s s' : ReassignmentSimulation F)
      → same_scoring_rules s ≡ ok s'
      → (s ≡ s')
        × (contains s.proposed_assignee_id s.candidate_ids ≡ true)
        × (s.current.employee_overload.scoring_model_version
            ≡ s.proposed.employee_overload.scoring_model_version)
        × (s.current.task_fit.scoring_model_version ≡ s.proposed.task_fit.scoring_model_version)
        × (s.current.project_delivery.scoring_model_version
            ≡ s.proposed.project_delivery.scoring_model_version)
  unfolding same_scoring_rules
  valid_rules s s' h =
      let same = λ (a b : RiskResult F). a.scoring_model_version == b.scoring_model_version in
      elim (Bool-cases (same s.current.employee_overload s.proposed.employee_overload)) [
        | inr f ↦ absurd (cc (rw f at h))
        | inl t1 ↦ elim (Bool-cases (same s.current.task_fit s.proposed.task_fit)) [
          | inr f ↦ absurd (cc (rw (t1, f) at h))
          | inl t2 ↦
              elim (Bool-cases (same s.current.project_delivery s.proposed.project_delivery)) [
                | inr f ↦ absurd (cc (rw (t1, t2, f) at h))
                | inl t3 ↦ elim (Bool-cases (contains s.proposed_assignee_id s.candidate_ids)) [
                  | inr f ↦ absurd (cc (rw (t1, t2, t3, f) at h))
                  | inl t4 ↦ (
                    ok-injective (rw (t1, t2, t3, t4) at h),
                    t4,
                    ==_eq {a = s.current.employee_overload.scoring_model_version} t1,
                    ==_eq {a = s.current.task_fit.scoring_model_version} t2,
                    ==_eq {a = s.current.project_delivery.scoring_model_version} t3,
                  )
                ]
              ]
        ]
      ]

  simulated :
      (digest : ReassignmentSimulation F → String) (task_id current_id : String) (ids : List String)
      (id : String) (current : ScoreFamilies F) (o : Option (CandidateEvidence F))
      (s : ReassignmentSimulation F)
      → simulate_with fl digest task_id current_id ids id current o ≡ ok s
      → (c : CandidateEvidence F) × (o ≡ some c)
        × (contains id ids ≡ true)
        × (s.proposed_assignee_id ≡ id)
        × (s.proposed ≡ proposed_scores fl c)
        × (current.employee_overload.scoring_model_version ≡ c.overload_risk.scoring_model_version)
  unfolding simulate_with
  simulated digest task_id current_id ids id current none s h = cc
  simulated digest task_id current_id ids id current (some c) s h =
      elim (Bool-cases (contains id ids)) [
        | inr f ↦ absurd (cc (rw f at h))
        | inl t ↦
            let (same, listed, version, _, _) = valid_rules _ s (rw t at h) in
            (
              c,
              refl,
              t,
              sym (ap (λ (x : ReassignmentSimulation F). x.proposed_assignee_id) same),
              sym (ap (λ (x : ReassignmentSimulation F). x.proposed) same),
              version,
            )
      ]

  -- If the identifier of the named employee belongs to one candidate at most, a simulation that succeeds
  -- proposes that employee, who is an eligible candidate - with a Jira
  -- account and access to the project, three known scores of at least medium confidence and an overload
  -- score below 75 - and shows that employee's own scores, the overload scored by the same version as the
  -- current one.
  pub simulate_reassignment-IsEligible :
      (digest : ReassignmentSimulation F → String) (task_id current_id : String)
      (cs : List (CandidateEvidence F)) (id : String) (current : ScoreFamilies F)
      (s : ReassignmentSimulation F)
      → simulate_reassignment fl digest task_id current_id cs id current ≡ ok s
      → count_where (is_employee fl id) cs ≤ 1
      → (c : CandidateEvidence F) × (find_first (is_employee fl id) cs ≡ some c)
        × IsEligible c
        × (s.proposed_assignee_id ≡ id)
        × (s.proposed ≡ proposed_scores fl c)
        × (current.employee_overload.scoring_model_version ≡ c.overload_risk.scoring_model_version)
  unfolding simulate_reassignment eligible_ids select_candidates
  simulate_reassignment-IsEligible digest task_id current_id cs id current s h unique =
      let (c, found, listed, named, shown, version) =
        simulated digest task_id current_id (eligible_ids fl cs) id current
          (find_first (is_employee fl id) cs) s h in
      let assessments = map (assess_candidate fl) cs in
      let eligible : any (chosen id) assessments ≡ true =
        sym (any-sort (chosen id) (ranks_before fl) assessments)
        ∙ sym (contains-ids id (sort (ranks_before fl) assessments))
        ∙ listed in
      (
        c,
        found,
        eligible-IsEligible c (found_is_eligible id cs c found unique eligible),
        named,
        shown,
        version,
      )
