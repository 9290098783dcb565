-- ===== src/Agent/Explanation/Sources.antt =====
-- services/agent-api/src/agent_api/llm/bedrock.py: where an explanation can come from.
use tasks_management.Base.{
  Bool, Option, Result, String, ap, err, false, has_value, if◌then◌else◌, inl, inr, leb, list_eq,
  ltb, nat_eq, none, not, ok, option_eq, refl, some, string_eq, strip, subst, suc, true, zero, ℕ,
  ◌&&◌, ◌+◌, ◌==◌, ◌||◌, ◌≡◌, ◌⊎◌,
}
use tasks_management.Agent.Explanation.Grounded.{IsGrounded, judge-IsGrounded}
use tasks_management.Agent.Explanation.Judge.{judge}
use tasks_management.Agent.Explanation.Request.{
  ExplanationRequest, ExplanationResponse, ModelExplanation, shape_of,
}
use tasks_management.Agent.{HourFloats, Unicode, category_eq}
use tasks_management.Agent.Planner.{Reply, failed, replied}
use tasks_management.Agent.Explanation.{
  Attempted, Judgement, Outcome, RequestShape, Session, Settings, Surroundings, accepted,
  after_call, after_conservative_call, after_failure, after_judgement, after_prose, called,
  circuit_is_open, conclude, conservative, explain, explain_attempts, explained, is_incomplete,
  lacks_evidence, outcome_of, overflows, rejected,
}

module _ {R : Type 0} (P : R → Type 0) (c : Settings) (e : Surroundings R)
    (valid : (raw : String) (x : R) → e.judge raw ≡ accepted x → P x) where
  after_judgement-accepted :
      (raw : String) (j : Judgement R) (s : Session) (retry : Session → Attempted R) (x : R)
      → e.judge raw ≡ j
      → ((t : Session) → (retry t).response ≡ some x → P x)
      → (after_judgement c e j s retry).response ≡ some x
      → P x
  unfolding after_judgement
  after_judgement-accepted raw (accepted y) s retry x found h given =
      let same : y ≡ x = cc in subst P same (valid raw y found)
  after_judgement-accepted raw (rejected why) s retry x found h given = h s given

  after_call-accepted :
      (r : Reply) (s : Session) (retry : Session → Attempted R) (x : R)
      → ((t : Session) → (retry t).response ≡ some x → P x)
      → (after_call c e r s retry).response ≡ some x
      → P x
  unfolding after_call
  after_call-accepted (replied raw) s retry x h given =
      after_judgement-accepted raw (e.judge raw) s retry x refl h given
  after_call-accepted (failed what) s retry x h given = h _ given

  -- the loop of `explain` responds with what its validators accept
  explain_attempts-accepted :
      (left : ℕ) (s : Session) (x : R) → (explain_attempts c e left s).response ≡ some x → P x
  unfolding explain_attempts
  explain_attempts-accepted zero s x given = cc
  explain_attempts-accepted (suc left) s x given =
      after_call-accepted (e.reply s.calls) (called s) (explain_attempts c e left) x
        (λ t. explain_attempts-accepted left t x) given

explained-injective : {R : Type 0} {a b : R} → explained a ≡ explained b → a ≡ b
explained-injective h = cc

module _ {R : Type 0} (c : Settings) (e : Surroundings R) where
  -- a response that is the prose of a model
  abbrev IsProse : R → Type 0
  IsProse x = (valid : Bool) × (text : String) × (e.prose valid text ≡ x)

  if_explained :
      {P : Type 0} (b : Bool) (o p : Outcome R × Session) (x : R)
      → (o.0 ≡ explained x → P)
      → (p.0 ≡ explained x → P)
      → (if b then o else p).0 ≡ explained x
      → P
  if_explained true o p x f g h = f h
  if_explained false o p x f g h = g h

  after_failure-IsProse :
      (attempt : ℕ) (s : Session) (retry : ℕ → Session → Outcome R × Session) (x : R)
      → ((n : ℕ) (t : Session) → (retry n t).0 ≡ explained x → IsProse x)
      → (after_failure c e attempt s retry).0 ≡ explained x
      → IsProse x
  unfolding after_failure
  after_failure-IsProse attempt s retry x h =
      if_explained ((c.persistent_retry || ltb attempt c.max_attempts) && overflows attempt) _ _ x
        (λ f. cc) (h _ _)

  after_prose-IsProse :
      (focused : Bool) (attempt : ℕ) (text : String) (s : Session)
      (retry : ℕ → Session → Outcome R × Session) (x : R)
      → ((n : ℕ) (t : Session) → (retry n t).0 ≡ explained x → IsProse x)
      → (after_prose c e focused attempt text s retry).0 ≡ explained x
      → IsProse x
  unfolding after_prose
  after_prose-IsProse focused attempt text s retry x h =
      if_explained (text == "") _ _ x (after_failure-IsProse (attempt + 1) s retry x h) (
        if_explained (not focused || e.is_grounded text) _ _ x
          (λ f. (true, text, explained-injective f))
          (if_explained (leb c.max_attempts (attempt + 1)) _ _ x
            (λ f. (false, text, explained-injective f))
            (if_explained (overflows (attempt + 1)) _ _ x (λ f. cc) (h _ _))))

  after_conservative_call-IsProse :
      (focused : Bool) (attempt : ℕ) (r : Reply) (s : Session)
      (retry : ℕ → Session → Outcome R × Session) (x : R)
      → ((n : ℕ) (t : Session) → (retry n t).0 ≡ explained x → IsProse x)
      → (after_conservative_call c e focused attempt r s retry).0 ≡ explained x
      → IsProse x
  unfolding after_conservative_call
  after_conservative_call-IsProse focused attempt (replied raw) s retry x h =
      after_prose-IsProse focused attempt (strip raw) s retry x h
  after_conservative_call-IsProse focused attempt (failed what) s retry x h =
      after_failure-IsProse (attempt + 1) s retry x h

  conservative-IsProse :
      (fuel : ℕ) (focused : Bool) (attempt : ℕ) (s : Session) (x : R)
      → (conservative c e fuel focused attempt s).0 ≡ explained x
      → IsProse x
  unfolding conservative
  conservative-IsProse zero focused attempt s x h = cc
  conservative-IsProse (suc fuel) focused attempt s x h =
      if_explained (c.persistent_retry || ltb attempt c.max_attempts) _ _ x
        (after_conservative_call-IsProse focused attempt (e.reply s.calls) (called s)
          (conservative c e fuel focused) x (λ n t. conservative-IsProse fuel focused n t x))
        (λ f. cc) h

  outcome_of-ok : (a : Result R) (x : R) → outcome_of a ≡ explained x → a ≡ ok x
  outcome_of-ok (ok y) x h = ap ok (explained-injective h)
  outcome_of-ok (err why) x h = cc

  module _ (P : R → Type 0) (valid : (raw : String) (x : R) → e.judge raw ≡ accepted x → P x) where
    -- accepted by the validators, the deterministic fallback, or the prose of a conservative answer
    abbrev IsSourced : R → Type 0
    IsSourced x = P x ⊎ ((e.fallback ≡ ok x) ⊎ IsProse x)

    fallback-IsSourced : (x : R) → outcome_of e.fallback ≡ explained x → IsSourced x
    fallback-IsSourced x h = inr (inl (outcome_of-ok e.fallback x h))

    conclude-IsSourced :
        (fuel : ℕ) (r : RequestShape) (a : Attempted R) (o : Option R) (x : R)
        → ((y : R) → o ≡ some y → P y)
        → (conclude c e fuel r a o).0 ≡ explained x
        → IsSourced x
    unfolding conclude
    conclude-IsSourced fuel r a (some y) x h f = inl (subst P (explained-injective f) (h y refl))
    conclude-IsSourced fuel r a none x h f =
        if_explained (a.semantic_failure || c.persistent_retry) _ _ x
          (λ f. inr (inr (conservative-IsProse fuel r.has_focused_facts 0 a.session x f)))
          (if_explained (c.allow_fallback && has_value r.risk) _ _ x (fallback-IsSourced x)
            (λ f. cc))
          f

    explain-IsSourced :
        (fuel now : ℕ) (r : RequestShape) (s : Session) (x : R)
        → (explain c e fuel now r s).0 ≡ explained x
        → IsSourced x
    unfolding explain
    explain-IsSourced fuel now r s x =
        let begun = (circuit_is_open c now s.opened_at s).1 in
        let a = explain_attempts c e c.max_attempts begun in
        if_explained (is_incomplete r.risk && c.allow_fallback) _ _ x (fallback-IsSourced x) (
          if_explained
            (r.workflow == "explain_history"
              && not r.has_previous_evidence_dossier
              && not r.has_universal_evidence
              && c.allow_fallback)
            _ _ x (fallback-IsSourced x)
            (if_explained (circuit_is_open c now s.opened_at s).0 _ _ x
              (if_explained (c.allow_fallback && has_value r.risk) _ _ x (fallback-IsSourced x)
                (λ f. cc))
              (if_explained (lacks_evidence r) _ _ x (λ f. cc)
                (conclude-IsSourced fuel r a a.response x
                  (explain_attempts-accepted P c e valid c.max_attempts begun)))))

module _ {F : Type 0} (u : Unicode) (fl : HourFloats F) (same_case : ℕ → ℕ → Bool)
    (parse : String → Option ModelExplanation)
    (grounding_error : ModelExplanation → Option String) where
  -- the surroundings in which the validators are those of the request
  abbrev pub validating :
      Surroundings ExplanationResponse → ExplanationRequest F → Surroundings ExplanationResponse
  validating e r = record e { judge = judge u fl same_case parse grounding_error r }

  -- An explanation that `explain` gives has the score and the level of the request, cites only references and proposes only
  -- candidates that the request has, and names every task that a query for blocked, overdue or due-soon tasks or for missing
  -- estimates found; or it is the deterministic fallback, or the prose of a conservative answer.
  pub explain-IsGrounded :
      (c : Settings) (e : Surroundings ExplanationResponse) (fuel now : ℕ)
      (r : ExplanationRequest F) (s : Session) (x : ExplanationResponse)
      → (explain c (validating e r) fuel now (shape_of r) s).0 ≡ explained x
      → IsGrounded u fl same_case r x
        ⊎ ((e.fallback ≡ ok x) ⊎ ((valid : Bool) × (text : String) × (e.prose valid text ≡ x)))
  explain-IsGrounded c e fuel now r s x h =
      explain-IsSourced c (validating e r) (IsGrounded u fl same_case r)
        (λ raw y. judge-IsGrounded u fl same_case parse grounding_error r raw y) fuel now
        (shape_of r) s x h
