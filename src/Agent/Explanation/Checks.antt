-- ===== src/Agent/Explanation/Checks.antt =====
-- services/agent-api/src/agent_api/llm/bedrock.py: what the text of a model is checked for. The comparison of
-- characters without their case is a parameter.
use Prim.Native.Char.{code}
use tasks_management.Base.{
  Bool, List, Option, String, [], any, concat, concat_map, contains, eqb, false, first_rows,
  has_text, has_value, if◌then◌else◌, is_space, length, list_eq, ltb, map, nat_eq, none, not,
  option_eq, some, sort, string_eq, string_lt, strip, to_list, ℕ, ◌&&◌, ◌++◌, ◌==◌, ◌||◌, ◌∷◌,
}
use tasks_management.Scoring.{FactorContribution, RiskResult}
use tasks_management.Agent.{
  EmployeeSummary, GroundedAnswerContext, HourFloats, TaskFact, Unicode, category_eq,
}
use tasks_management.Agent.Patterns.{char_count, issue_keys, mentions_any}
use tasks_management.Agent.Patterns.Regex.{
  Regex, boundary, either, letters, maybe, next, one_of, search_in, some_of, starts_from, text_end,
  up_to,
}
use tasks_management.Agent.Focus.{lex}
use tasks_management.Agent.Explanation.Request.{
  ExplanationRequest, ModelExplanation, RiskEvidenceDossier, TaskQueryResult, expected_level,
  expected_score,
}
use tasks_management.Agent.Explanation.Facts.{
  allowed_citations, employees_of, prior_facts, tasks_of,
}

abbrev pub text_or_empty : Option String → String
text_or_empty none = ""
text_or_empty (some s) = s

-- `set(part) - set(whole)` is not empty
abbrev pub exceeds_set : List String → List String → Bool
exceeds_set part whole = any (λ x. not (contains x whole)) part

-- a test, and the error that is raised if it holds
abbrev pub Check : Type 0
Check = Bool × String

-- the first of the errors
unfoldable pub failure : List Check → Option String
failure [] = none
failure ((fails, why) ∷ rest) = if fails then some why else failure rest

-- `name.replace("_", " ")`
unfoldable pub spaced : String → String
spaced String.[] = String.[]
spaced (String.◌∷◌ x s) =
    let rest = spaced s in if eqb (code x) 95 then concat " " rest else String.◌∷◌ x rest

-- `[.!?](?:\s|$)`
abbrev sentence_end : Regex
sentence_end =
    next (one_of (λ c. eqb c 46 || eqb c 33 || eqb c 63)) (either (one_of is_space) text_end)

abbrev pub lists_tasks : String → Bool
lists_tasks intent =
    contains intent (
      "blocked_tasks" ∷ "done_tasks" ∷ "missing_estimates" ∷ "overdue_tasks" ∷ "due_soon_tasks"
      ∷ [])

module _ {F : Type 0} (u : Unicode) (fl : HourFloats F) (same_case : ℕ → ℕ → Bool) where
  unfoldable pub mentioned_keys : String → List String
  mentioned_keys answer = issue_keys u (u.upper answer)

  -- `\bname\b.{0,40}\bis at risk\b`
  abbrev at_risk : String → Regex
  at_risk name = next boundary (
      next (letters name)
        (next boundary (next (up_to 40) (next boundary (next (letters "is at risk") boundary)))))

  -- `\b\d+(?:\.\d+)?\s+(?:contribution\s+)?points?\b`
  abbrev points : Regex
  points = next boundary (
      next (some_of u.is_digit) (
        next (maybe (next (letters ".") (some_of u.is_digit))) (
          next (some_of is_space) (
            next (maybe (next (letters "contribution") (some_of is_space)))
              (next (letters "point") (next (maybe (letters "s")) boundary))))))

  abbrev asks_deadline : String → Bool
  asks_deadline question =
      mentions_any ("deadline" ∷ "due date" ∷ "due tomorrow" ∷ "due soon" ∷ [])
        (u.casefold question)

  abbrev promotes : String → EmployeeSummary F → Bool
  promotes answer e =
      e.level == "insufficient-data" && search_in u same_case (at_risk e.display_name) answer

  -- the terms of factors: their names, and these with spaces
  unfoldable pub factor_terms : List (FactorContribution F) → List String
  factor_terms factors =
      concat_map (λ f. u.casefold f.name ∷ u.casefold (spaced f.name) ∷ []) factors

  abbrev less_impact : FactorContribution F → FactorContribution F → Bool
  less_impact a b =
      lex (fl.lt a.contribution_points b.contribution_points)
        (fl.same a.contribution_points b.contribution_points) (string_lt a.name b.name)

  abbrev dossier_keys : Option (RiskEvidenceDossier F) → List String
  dossier_keys none = []
  dossier_keys (some d) = map (λ t. t.key) d.tasks

  -- the checks of a dossier
  unfoldable pub dossier_checks :
      Option (RiskEvidenceDossier F) → Option (RiskEvidenceDossier F) → String → List Check
  dossier_checks none previous answer = []
  dossier_checks (some d) previous answer =
      (
        exceeds_set (mentioned_keys answer) (map (λ t. t.key) d.tasks ++ dossier_keys previous),
        "model invented Jira task evidence",
      )
      ∷ (
        not (eqb (length d.tasks) 0) && eqb (length (mentioned_keys answer)) 0,
        "model omitted concrete Jira task evidence",
      )
      ∷ []

  -- the checks of `_validate_result` that a risk asks for
  unfoldable pub risk_checks : ExplanationRequest F → Option (RiskResult F) → String → List Check
  risk_checks r none answer = []
  risk_checks r (some risk) answer =
      let folded = u.casefold answer in
      let terms = factor_terms risk.factors in
      let lowest = factor_terms (first_rows 4 (sort less_impact risk.factors)) in
      (
        ltb (char_count answer) 180 || ltb (starts_from u eqb sentence_end false answer) 2,
        "model answer was not sufficiently detailed",
      )
        ∷ (search_in u eqb points answer, "model exposed numeric factor contributions")
        ∷ dossier_checks r.evidence_dossier r.previous_evidence_dossier answer
      ++ (
        not (eqb (length terms) 0) && not (mentions_any terms folded),
        "model answer did not mention supplied factors",
      )
        ∷ (
          has_text "other factors" folded && not (mentions_any lowest folded),
          "model answer used vague factor wording",
        )
        ∷ []

  -- `_validate_result`
  unfoldable pub result_checks : ExplanationRequest F → ModelExplanation → List Check
  result_checks r m =
      let answer = strip (text_or_empty m.answer) in
      let known = map (λ t. t.key) (tasks_of r.project_snapshot) in
      (
        not (m.score == expected_score r.risk) || not (m.risk_level == expected_level r.risk),
        "model changed deterministic risk result",
      )
      ∷ (exceeds_set m.citations (allowed_citations r), "model cited unknown evidence")
      ∷ (
        exceeds_set (concat_map (λ a. to_list a.candidate_id) m.recommendations) r.candidate_ids,
        "model invented reassignment candidate",
      )
      ∷ (answer == "", "model returned an empty answer")
      ∷ (
        has_value r.project_snapshot
            && asks_deadline r.question
            && (eqb (length (mentioned_keys answer)) 0
                || exceeds_set (mentioned_keys answer) known),
        "model omitted concrete Jira task evidence",
      )
      ∷ (
        any (promotes answer) (employees_of r.project_snapshot),
        "model promoted insufficient employee risk",
      )
      ∷ risk_checks r r.risk answer

  abbrev is_over_capacity : Option F → Option F → Bool
  is_over_capacity (some remaining) (some capacity) = fl.lt capacity remaining
  is_over_capacity none capacity = false
  is_over_capacity (some remaining) none = false

  -- `_validate_supported_workforce_claims`
  unfoldable pub claim_checks : ExplanationRequest F → String → List Check
  claim_checks r answer =
      let folded = u.casefold answer in
      (
        mentions_any
            ("lowest-impact" ∷ "lowest impact" ∷ "overall risk is not higher"
              ∷ "risk is not higher because" ∷ [])
            folded,
        "answer introduced unsupported comparison",
      )
      ∷ (
        has_text "within capacity" folded
            && any (λ e. is_over_capacity e.remaining_hours e.capacity_hours)
                (employees_of r.project_snapshot),
        "answer contradicted supplied remaining-hours capacity evidence",
      )
      ∷ []

  abbrev listed_tasks : Option (GroundedAnswerContext F) → List (TaskFact F) → List (TaskFact F)
  listed_tasks none tasks = []
  listed_tasks (some c) tasks = if lists_tasks c.intent then tasks else []

  -- the tasks that an answer to a list query must name
  unfoldable pub expected_tasks : Option (TaskQueryResult F) → List (TaskFact F)
  expected_tasks none = []
  expected_tasks (some result) = listed_tasks result.context result.tasks

  -- `_validate_exhaustive_task_answer`, without the list of the keys in its message
  unfoldable pub exhaustive_checks : ExplanationRequest F → String → List Check
  exhaustive_checks r answer =
      (
        exceeds_set (map (λ t. u.upper t.key) (expected_tasks r.task_query_result))
            (mentioned_keys answer),
        "answer omitted expected Jira issue(s)",
      )
      ∷ []

  abbrev refers_back : String → Bool
  refers_back question =
      mentions_any
        ("this risk" ∷ "that task" ∷ "those tasks" ∷ "those employees" ∷ "this blocker"
          ∷ "that project" ∷ [])
        (u.casefold question)

  -- `_validate_resolved_context_answer`, without the list of the keys in its message
  unfoldable pub context_checks : ExplanationRequest F → String → List Check
  context_checks r answer =
      (
        refers_back r.question
            && exceeds_set (map (λ t. u.upper t.key) (prior_facts r.previous_answer_context))
                (mentioned_keys answer),
        "follow-up omitted resolved Jira context",
      )
      ∷ []

  unfoldable pub all_checks : ExplanationRequest F → ModelExplanation → List Check
  all_checks r m =
      let answer = text_or_empty m.answer in
      result_checks r m
      ++ claim_checks r answer
      ++ exhaustive_checks r answer
      ++ context_checks r answer
