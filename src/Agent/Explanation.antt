-- ===== src/Agent/Explanation.antt =====
-- services/agent-api/src/agent_api/llm/bedrock.py: BedrockExplanationProvider, which asks a model for an explanation, again
-- if its text is rejected, and stops asking for a while after failures (a circuit breaker). What the model replies to each
-- call, the clock and the validators of a text are parameters; prompts, logging and what a payload holds
-- are not modelled, but that a request without evidence has none is.
pub mod Request
pub mod Facts
pub mod Checks
pub mod Judge
pub mod Grounded
pub mod Sources
pub mod Calls
pub mod Retries
use tasks_management.Base.{
  Bool, Error, Option, Result, String, err, false, has_value, if◌then◌else◌, leb, list_eq, ltb, max,
  nat_eq, none, not, ok, option_eq, runtime_error, some, string_eq, strip, suc, transport_error,
  true, zero, ℕ, ◌&&◌, ◌+◌, ◌==◌, ◌||◌,
}
use tasks_management.Agent.Planner.{Reply, failed, replied}

-- what the code reads of an RequestShape: the score and the level of its risk, and which parts it has
pub record RequestShape : Type 0 where
  pub risk : Option (Option ℕ × Option String)
  pub workflow : String
  pub has_previous_evidence_dossier : Bool
  pub has_universal_evidence : Bool
  pub has_task_query_result : Bool
  pub has_project_snapshot : Bool
  pub has_focused_facts : Bool

-- the constructor's arguments, with `max(1, ...)` applied
pub record Settings : Type 0 where
  pub allow_fallback : Bool
  pub max_attempts : ℕ
  pub persistent_retry : Bool
  pub failure_threshold : ℕ
  pub reset_seconds : ℕ

-- the state of the provider, and how many calls of the model were made
pub record Session : Type 0 where
  pub failures : ℕ
  pub opened_at : Option ℕ
  pub calls : ℕ

-- what the validators say of a text: the response that it gives, or why it is rejected
pub data Judgement (R : Type 0) : Type 0 where
  accepted : R → Judgement R
  rejected : String → Judgement R

-- how a request ends; `unfinished` is the end of the fuel
pub data Outcome (R : Type 0) : Type 0 where
  explained : R → Outcome R
  raised : Error → Outcome R
  unfinished : Outcome R

unfoldable pub settings : Bool → ℕ → Bool → ℕ → ℕ → Settings
settings allow_fallback max_attempts persistent_retry circuit_failure_threshold
      circuit_reset_seconds =
    record {
      allow_fallback = allow_fallback;
      max_attempts = max 1 max_attempts;
      persistent_retry = persistent_retry;
      failure_threshold = max 1 circuit_failure_threshold;
      reset_seconds = circuit_reset_seconds;
    }

abbrev pub is_incomplete : Option (Option ℕ × Option String) → Bool
is_incomplete none = false
is_incomplete (some (score, level)) = not (has_value score) || not (has_value level)

-- `build_model_payload` raises an AssertionError
abbrev pub lacks_evidence : RequestShape → Bool
lacks_evidence r =
    not r.has_universal_evidence
    && not (has_value r.risk)
    && not r.has_task_query_result
    && not r.has_project_snapshot

-- `0.05 * (2**attempt)` raises an OverflowError: the power is no float
abbrev pub overflows : ℕ → Bool
overflows attempt = leb 1024 attempt

abbrev pub overflow : Error
overflow = runtime_error "OverflowError: int too large to convert to float"

-- `_record_failure` at a time
unfoldable pub record_failure : Settings → ℕ → Session → Session
record_failure c now s =
    let failures = s.failures + 1 in
    record s {
      failures = failures;
      opened_at = if leb c.failure_threshold failures then some now else s.opened_at;
    }

abbrev reset : Session → Session
reset s = record s { failures = 0; opened_at = none }

-- `_circuit_is_open` at a time
unfoldable pub circuit_is_open : Settings → ℕ → Option ℕ → Session → Bool × Session
circuit_is_open c now none s = (false, s)
circuit_is_open c now (some opened) s =
    if ltb now (opened + c.reset_seconds) then (true, s) else (false, reset s)

-- an accepted text ends the failures
abbrev pub succeeded : Session → Session
succeeded s = record s { failures = 0 }

-- a call has been made
abbrev pub called : Session → Session
called s = record s { calls = suc s.calls }

-- the model's replies and the clock by the number of the call, the validators of `explain`, those of the focused repair, how a
-- text becomes a response (`false` once validation is exhausted), and the deterministic fallback
pub record Surroundings (R : Type 0) : Type 0 where
  pub reply : ℕ → Reply
  pub clock : ℕ → ℕ
  pub judge : String → Judgement R
  pub is_grounded : String → Bool
  pub prose : Bool → String → R
  pub fallback : Result R

-- what the loop of `explain` knows after its attempts: a response, or whether a text was rejected
pub record Attempted (R : Type 0) : Type 0 where
  pub response : Option R
  pub semantic_failure : Bool
  pub session : Session

abbrev pub outcome_of : {R : Type 0} → Result R → Outcome R
outcome_of (ok response) = explained response
outcome_of (err error) = raised error

module _ {R : Type 0} (c : Settings) (e : Surroundings R) where
  -- the state after a reply, and what it says of the loop
  unfoldable pub after_judgement : Judgement R → Session → (Session → Attempted R) → Attempted R
  after_judgement (accepted response) s retry = record {
    response = some response;
    semantic_failure = false;
    session = succeeded s;
  }
  after_judgement (rejected why) s retry = record (retry s) { semantic_failure = true }

  unfoldable pub after_call : Reply → Session → (Session → Attempted R) → Attempted R
  after_call (replied raw) s retry = after_judgement (e.judge raw) s retry
  after_call (failed what) s retry = retry (record_failure c (e.clock s.calls) s)

  -- the loop of `explain`, with so many attempts left; a text that was rejected before is remembered. Its pauses overflow
  -- only with more than 1024 attempts, which is not modelled.
  unfoldable pub explain_attempts : ℕ → Session → Attempted R
  explain_attempts zero s = record { response = none; semantic_failure = false; session = s }
  explain_attempts (suc left) s = after_call (e.reply s.calls) (called s) (explain_attempts left)

  -- a failure at the attempt before, and the pause if another one follows
  unfoldable pub after_failure :
      ℕ → Session → (ℕ → Session → Outcome R × Session) → Outcome R × Session
  after_failure attempt s retry =
      let failing = record_failure c (e.clock s.calls) s in
      if (c.persistent_retry || ltb attempt c.max_attempts) && overflows attempt
      then (raised overflow, failing)
      else retry attempt failing

  -- a text in the loop of `_conservative_bedrock_answer`, at an attempt: accepted, or worth another attempt
  unfoldable pub after_prose :
      Bool → ℕ → String → Session → (ℕ → Session → Outcome R × Session) → Outcome R × Session
  after_prose focused attempt text s retry =
      if text == ""
      then after_failure (attempt + 1) s retry
      else if not focused || e.is_grounded text
      then (explained (e.prose true text), succeeded s)
      else if leb c.max_attempts (attempt + 1)
      then (explained (e.prose false text), succeeded s)
      else if overflows (attempt + 1)
      then (raised overflow, s)
      else retry (attempt + 1) s

  unfoldable pub after_conservative_call :
      Bool → ℕ → Reply → Session → (ℕ → Session → Outcome R × Session) → Outcome R × Session
  after_conservative_call focused attempt (replied raw) s retry =
      after_prose focused attempt (strip raw) s retry
  after_conservative_call focused attempt (failed what) s retry =
      after_failure (attempt + 1) s retry

  -- `_conservative_bedrock_answer`: it goes on while attempts are left, or with `persistent_retry` until a pause overflows
  unfoldable pub conservative : ℕ → Bool → ℕ → Session → Outcome R × Session
  conservative zero focused attempt s = (unfinished, s)
  conservative (suc fuel) focused attempt s =
      if c.persistent_retry || ltb attempt c.max_attempts
      then after_conservative_call focused attempt (e.reply s.calls) (called s)
          (conservative fuel focused)
      else (raised (transport_error "Bedrock conservative response unavailable"), s)

  -- what `explain` does once its own attempts are over
  unfoldable pub conclude : ℕ → RequestShape → Attempted R → Option R → Outcome R × Session
  conclude fuel r a (some response) = (explained response, a.session)
  conclude fuel r a none =
      if a.semantic_failure || c.persistent_retry
      then conservative fuel r.has_focused_facts 0 a.session
      else if c.allow_fallback && has_value r.risk
      then (outcome_of e.fallback, a.session)
      else (raised (transport_error "Bedrock explanation invocation failed"), a.session)

  -- `explain`, started at a time
  unfoldable pub explain : ℕ → ℕ → RequestShape → Session → Outcome R × Session
  explain fuel now r s =
      let (is_open, s') = circuit_is_open c now s.opened_at s in
      if is_incomplete r.risk && c.allow_fallback
      then (outcome_of e.fallback, s)
      else if r.workflow == "explain_history"
          && not r.has_previous_evidence_dossier
          && not r.has_universal_evidence
          && c.allow_fallback
      then (outcome_of e.fallback, s)
      else if is_open
      then if c.allow_fallback && has_value r.risk
        then (outcome_of e.fallback, s')
        else (raised (transport_error "Bedrock explanation circuit is open"), s')
      else if lacks_evidence r
      then (raised (runtime_error "AssertionError"), s')
      else let a = explain_attempts c.max_attempts s' in conclude fuel r a a.response
