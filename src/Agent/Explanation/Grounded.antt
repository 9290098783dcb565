-- ===== src/Agent/Explanation/Grounded.antt =====
-- services/agent-api/src/agent_api/llm/bedrock.py: a text that is accepted is an answer that rests on the request.
use tasks_management.Base.{
  ==_eq, Bool, Bool-cases, List, Member-contains, Option, Option-cases, String, Within, [], any, ap,
  arith, concat_map, contains, false, inl, inr, list_eq, map, nat_eq, none, option_eq, refl, some,
  string_eq, subst, to_list, true, ℕ, ◌++◌, ◌∷◌, ◌≡◌,
}
use tasks_management.Agent.{HourFloats, Unicode, category_eq}
use tasks_management.Agent.Explanation.{accepted}
use tasks_management.Agent.Explanation.Request.{
  ExplanationRequest, ExplanationResponse, ModelExplanation, expected_level, expected_score,
}
use tasks_management.Agent.Explanation.Facts.{allowed_citations}
use tasks_management.Agent.Explanation.Checks.{
  Check, all_checks, claim_checks, context_checks, exceeds_set, exhaustive_checks, expected_tasks,
  failure, mentioned_keys, result_checks, text_or_empty,
}
use tasks_management.Agent.Explanation.Judge.{judge, judge_result, judged, sanitized}

failure-cons :
    (fails : Bool) (why : String) (rest : List Check)
    → failure ((fails, why) ∷ rest) ≡ none
    → (fails ≡ false) × (failure rest ≡ none)
unfolding failure
failure-cons false why rest h = (refl, h)
failure-cons true why rest h = cc

failure-append :
    (xs ys : List Check) → failure (xs ++ ys) ≡ none → (failure xs ≡ none) × (failure ys ≡ none)
unfolding failure
failure-append [] ys h = (refl, h)
failure-append ((true, why) ∷ xs) ys h = cc
failure-append ((false, why) ∷ xs) ys h = failure-append xs ys h

accepted-injective : {R : Type 0} {a b : R} → accepted a ≡ accepted b → a ≡ b
accepted-injective h = cc

exceeds_set-Within : (part whole : List String) → exceeds_set part whole ≡ false → Within part whole
unfolding any
exceeds_set-Within [] whole h a m = absurd (m.0)
exceeds_set-Within (x ∷ xs) whole h a m = elim (Bool-cases (contains x whole)) [
  | inl t ↦ elim m [
    | inl first ↦ Member-contains a whole (subst (λ y. contains y whole ≡ true) first t)
    | inr later ↦ exceeds_set-Within xs whole (rw t at h) a later
  ]
  | inr f ↦ let own = rw f at h in cc
]

module _ {F : Type 0} (u : Unicode) (fl : HourFloats F) (same_case : ℕ → ℕ → Bool) where
  abbrev pub candidates : ModelExplanation → List String
  candidates m = concat_map (λ a. to_list a.candidate_id) m.recommendations

  -- a response that says what it was given: the score and the level of the risk, known references and candidates, and every
  -- task that a query for blocked, overdue or due-soon tasks or for missing estimates found (`expected_tasks` has none for a
  -- query of another intent)
  pub record IsGrounded (r : ExplanationRequest F) (x : ExplanationResponse) : Type 0 where
    pub same_score : x.result.score ≡ expected_score r.risk
    pub same_level : x.result.risk_level ≡ expected_level r.risk
    pub known_references : Within x.result.citations (allowed_citations r)
    pub known_candidates : Within (candidates x.result) r.candidate_ids
    pub all_named :
        Within
          (map (λ t. u.upper t.key) (expected_tasks u fl same_case r.task_query_result))
          (mentioned_keys u fl same_case (text_or_empty x.result.answer))

  all_checks-IsGrounded :
      (r : ExplanationRequest F) (x : ExplanationResponse)
      → failure (all_checks u fl same_case r x.result) ≡ none
      → IsGrounded r x
  unfolding all_checks result_checks exhaustive_checks
  all_checks-IsGrounded r x h =
      let answer = text_or_empty x.result.answer in
      let c = claim_checks u fl same_case r answer in
      let e = exhaustive_checks u fl same_case r answer in
      let b = context_checks u fl same_case r answer in
      let v = result_checks u fl same_case r x.result in
      let (named_all, back) = failure-append (v ++ c ++ e) b h in
      let (checked, listed) = failure-append (v ++ c) e named_all in
      let (results, claims) = failure-append v c checked in
      let (same, after1) = failure-cons _ _ _ results in
      let (cited, after2) = failure-cons _ _ _ after1 in
      let (proposed, after3) = failure-cons _ _ _ after2 in
      let (named, after4) = failure-cons _ _ _ listed in
      record {
        same_score = ==_eq {a = x.result.score} (ground arith);
        same_level = ==_eq {a = x.result.risk_level} (ground arith);
        known_references = exceeds_set-Within _ _ cited;
        known_candidates = exceeds_set-Within _ _ proposed;
        all_named = exceeds_set-Within _ _ named;
      }

  module _ (parse : String → Option ModelExplanation)
      (grounding_error : ModelExplanation → Option String) where
    judge_result-IsGrounded :
        (r : ExplanationRequest F) (o : Option ModelExplanation) (x : ExplanationResponse)
        → judge_result u fl same_case parse grounding_error r o ≡ accepted x
        → IsGrounded r x
    unfolding judge_result judged
    judge_result-IsGrounded r none x h = cc
    judge_result-IsGrounded r (some m) x h =
        let result = sanitized u fl same_case r m in
        elim (Option-cases (failure (all_checks u fl same_case r result))) [
          | inr (why, fails) ↦ let own = rw fails at h in cc
          | inl passed ↦ elim (Option-cases (grounding_error result)) [
            | inr (why, fails) ↦ let own = rw (passed, fails) at h in cc
            | inl supported ↦
                let own = rw (passed, supported) at h in
                let same : result ≡ x.result = ap (λ y. y.result) (accepted-injective own) in
                all_checks-IsGrounded r x
                  (subst (λ m. failure (all_checks u fl same_case r m) ≡ none) same passed)
          ]
        ]

    pub judge-IsGrounded :
        (r : ExplanationRequest F) (raw : String) (x : ExplanationResponse)
        → judge u fl same_case parse grounding_error r raw ≡ accepted x
        → IsGrounded r x
    unfolding judge
    judge-IsGrounded r raw x h = judge_result-IsGrounded r _ x h
