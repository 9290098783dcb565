-- ===== src/Agent/Explanation/Judge.antt =====
-- services/agent-api/src/agent_api/llm/bedrock.py: how a model's text becomes a response. The validators of grounding.py and
-- the reading of JSON are parameters.
use tasks_management.Base.{
  Bool, List, Option, String, [], contains, false, if◌then◌else◌, list_eq, map, nat_eq, none, not,
  option_eq, select, some, starts_with, string_eq, strip, ℕ, ◌&&◌, ◌==◌,
}
use tasks_management.Scoring.{RiskResult}
use tasks_management.Agent.{HourFloats, Unicode, category_eq}
use tasks_management.Agent.Explanation.{Judgement, accepted, rejected}
use tasks_management.Agent.Explanation.Request.{
  ExplanationRequest, ExplanationResponse, ModelExplanation, Recommendation, expected_level,
  expected_score,
}
use tasks_management.Agent.Explanation.Facts.{task_citations}
use tasks_management.Agent.Explanation.Checks.{all_checks, failure}

module _ {F : Type 0} (u : Unicode) (fl : HourFloats F) (same_case : ℕ → ℕ → Bool) where
  abbrev without_candidate : Recommendation → Recommendation
  without_candidate r = record r { candidate_id = none }

  -- the subject itself, where it is no candidate
  abbrev is_subject : String → List String → Option String → Bool
  is_subject subject_id candidates none = false
  is_subject subject_id candidates (some id) = id == subject_id && not (contains id candidates)

  abbrev sanitized_by :
      ExplanationRequest F → Option (RiskResult F) → ModelExplanation → ModelExplanation
  sanitized_by r none m = record m {
    score = none;
    risk_level = none;
    recommendations = map without_candidate m.recommendations;
    citations = select (λ c. contains c (task_citations r.project_snapshot)) m.citations;
  }
  sanitized_by r (some risk) m = record m {
    recommendations =
        map
          (λ a.
            if is_subject risk.subject_id r.candidate_ids a.candidate_id
            then without_candidate a
            else a)
          m.recommendations;
  }

  -- `_sanitize_subject_candidate`
  unfoldable pub sanitized : ExplanationRequest F → ModelExplanation → ModelExplanation
  sanitized r m = sanitized_by r r.risk m

  -- the prose of a model as an explanation
  unfoldable pub explanation_of_prose : ExplanationRequest F → String → ModelExplanation
  explanation_of_prose r text = record {
    answer = some text;
    summary = text;
    root_causes = [];
    recommendations = [];
    citations = [];
    score = expected_score r.risk;
    risk_level = expected_level r.risk;
    uncertainties = [];
  }

  -- the parameters: `parse` is without a value where the text is no JSON or no explanation, and `grounding_error` is that of
  -- the validators of grounding.py
  module _ (parse : String → Option ModelExplanation)
      (grounding_error : ModelExplanation → Option String) where
    -- `_model_result_from_text`
    unfoldable pub model_result_from_text : ExplanationRequest F → String → Option ModelExplanation
    model_result_from_text r raw =
        let value = strip raw in
        if value == ""
        then none
        else if starts_with "{" value
        then parse value
        else some (explanation_of_prose r value)

    unfoldable pub judged :
        ExplanationRequest F → ModelExplanation → Option String → Judgement ExplanationResponse
    judged r m none =
        accepted (record { result = m; source = "bedrock"; correlation_id = r.correlation_id })
    judged r m (some why) = rejected why

    abbrev or_error : Option String → Option String → Option String
    or_error none e = e
    or_error (some why) e = some why

    unfoldable pub judge_result :
        ExplanationRequest F → Option ModelExplanation → Judgement ExplanationResponse
    judge_result r none = rejected "model returned no explanation"
    judge_result r (some m) =
        let result = sanitized r m in
        judged r result
          (or_error (failure (all_checks u fl same_case r result)) (grounding_error result))

    -- what `explain` makes of a text
    unfoldable pub judge : ExplanationRequest F → String → Judgement ExplanationResponse
    judge r raw = judge_result r (model_result_from_text r raw)
