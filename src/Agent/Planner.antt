-- ===== src/Agent/Planner.antt =====
-- services/agent-api/src/agent_api/evidence/planner.py: BedrockEvidencePlanner. The model is asked again when a call times out.
-- What it replies to each call, and the reading of JSON, are parameters; the prompt and the payload are not modelled.
pub mod Attempts
use tasks_management.Base.{
  Bool, List, Option, Result, String, [], contains, drop_chars, eqb, err, has_char, has_text,
  if◌then◌else◌, list_eq, max, nat_eq, none, not, ok, option_eq, runtime_error, some, starts_with,
  string_eq, strip, suc, transport_error, true, zero, ℕ, ◌&&◌, ◌+◌, ◌>>=◌, ◌∷◌,
}
use tasks_management.Agent.Patterns.{span_chars}
use tasks_management.Agent.{
  EvidenceCategory, EvidencePlan, capacity_and_workload, category_eq, deadlines,
  dependencies_and_blockers, history, jira_issues, mixed_scope, operations, risk_results,
  skills_and_seniority, workforce_profiles,
}

-- what a call of the model comes to: a text, or a TimeoutError or OSError
pub data Reply : Type 0 where
  replied : String → Reply
  failed : String → Reply

abbrev every_category : List EvidenceCategory
every_category =
    jira_issues ∷ workforce_profiles ∷ capacity_and_workload ∷ skills_and_seniority ∷ risk_results
    ∷ dependencies_and_blockers ∷ deadlines ∷ history ∷ operations ∷ []

unfoldable pub conservative_read_plan : EvidencePlan
conservative_read_plan = record {
  scope = mixed_scope;
  entities = [];
  evidence_categories = every_category;
  exhaustive = true;
}

abbrev pub is_line_end : ℕ → Bool
is_line_end c = eqb c 10

-- `text.split("\n", 1)[1]`, which raises an IndexError if there is no line end
unfoldable pub after_line : String → Result String
after_line s =
    if has_char 10 s
    then ok (drop_chars 1 (span_chars (λ c. not (is_line_end c)) s).1)
    else err (runtime_error "list index out of range")

-- `text.rsplit("```", 1)[0]`
unfoldable pub before_fence : String → String
before_fence String.[] = String.[]
before_fence (String.◌∷◌ x s) =
    let rest = before_fence s in
    if starts_with "```" (String.◌∷◌ x s) && not (has_text "```" s)
    then String.[]
    else String.◌∷◌ x rest

unfoldable pub is_distinct : List EvidenceCategory → Bool
is_distinct [] = true
is_distinct (c ∷ cs) = not (contains c cs) && is_distinct cs

unfoldable pub checked_plan : Option EvidencePlan → EvidencePlan
checked_plan none = conservative_read_plan
checked_plan (some plan) =
    if is_distinct plan.evidence_categories then plan else conservative_read_plan

module _ (parse : String → Option EvidencePlan) where
  -- the plan that a reply holds; `parse` is without a value where the text is no JSON or no plan
  unfoldable pub plan_of_reply : String → Result EvidencePlan
  plan_of_reply raw =
      let value = strip raw in
      if starts_with "```" value
      then after_line value >>= (λ inner. ok (checked_plan (parse (before_fence inner))))
      else ok (checked_plan (parse value))

  -- what follows a reply, when so many attempts are left
  unfoldable pub after_reply : Reply → ℕ → Result EvidencePlan × ℕ → Result EvidencePlan × ℕ
  after_reply (replied raw) left rest = (plan_of_reply raw, 1)
  after_reply (failed what) zero rest = (err (transport_error what), 1)
  after_reply (failed what) (suc left) rest = (rest.0, suc rest.1)

  -- the loop over the attempts that are left, and how many calls it makes
  unfoldable pub plan_attempts : (ℕ → Reply) → ℕ → ℕ → Result EvidencePlan × ℕ
  plan_attempts reply attempt zero = (err (runtime_error "unreachable evidence-planner state"), 0)
  plan_attempts reply attempt (suc left) =
      after_reply (reply attempt) left (plan_attempts reply (attempt + 1) left)

  unfoldable pub plan : (ℕ → Reply) → ℕ → Result EvidencePlan × ℕ
  plan reply max_attempts = plan_attempts reply 0 (max 1 max_attempts)
