-- ===== src/Agent/Explanation/Retries.antt =====
-- An explanation that is asked for again and again.
use tasks_management.Base.{
  Bool, String, arith, false, list_eq, ltb, nat_eq, none, not, option_eq, refl, string_eq, suc,
  true, zero, ℕ, ◌&&◌, ◌+◌, ◌<◌, ◌==◌, ◌||◌, ◌≡◌, ◌≤◌,
}
use tasks_management.Agent.Explanation.Calls.{circuit_is_open-calls}
use tasks_management.Agent.Planner.{failed}
use tasks_management.Agent.Explanation.{
  RequestShape, Session, Settings, Surroundings, after_call, after_conservative_call, after_failure,
  called, circuit_is_open, conclude, conservative, explain, explain_attempts, is_incomplete,
  lacks_evidence, overflow, overflows, raised, record_failure,
}

and_right_false : (a b : Bool) → b ≡ false → (a && b) ≡ false
and_right_false a b h = ground arith

or_right_true : (a b : Bool) → b ≡ true → (a || b) ≡ true
or_right_true a b h = ground arith

module _ {R : Type 0} (c : Settings) (e : Surroundings R) where
  -- every call from here on fails
  abbrev pub AllFail : Type 0
  AllFail = (n : ℕ) → (what : String) × (e.reply n ≡ failed what)

  -- the calls go on until the pause before attempt 1024 overflows
  conservative-overflows :
      (focused : Bool) (fuel left attempt : ℕ) (s : Session)
      → c.persistent_retry ≡ true
      → AllFail
      → attempt + left ≡ 1023
      → left < fuel
      → let (outcome, s') = conservative c e fuel focused attempt s in
        (outcome ≡ raised overflow) × (s'.calls ≡ s.calls + left + 1)
  unfolding conservative after_conservative_call after_failure record_failure
  conservative-overflows focused zero left attempt s for_ever fails at_end enough =
      absurd (omega (arith, enough))
  conservative-overflows focused (suc fuel) zero attempt s for_ever fails at_end enough =
      let going : (c.persistent_retry || ltb attempt c.max_attempts) ≡ true =
        ground (arith, for_ever) in
      let late : ((c.persistent_retry || ltb (attempt + 1) c.max_attempts)
            && overflows (attempt + 1))
          ≡ true =
        ground (arith, for_ever, at_end) in
      rw (going, (fails s.calls).1, late) (refl, omega arith)
  conservative-overflows focused (suc fuel) (suc left) attempt s for_ever fails at_end enough =
      let going : (c.persistent_retry || ltb attempt c.max_attempts) ≡ true =
        ground (arith, for_ever) in
      let early : ((c.persistent_retry || ltb (attempt + 1) c.max_attempts)
            && overflows (attempt + 1))
          ≡ false =
        ground (arith, at_end) in
      let (outcome, calls) =
        conservative-overflows focused fuel left (attempt + 1)
          (record_failure c (e.clock (called s).calls) (called s)) for_ever fails
          (omega (arith, at_end)) (omega (arith, enough)) in
      rw (going, (fails s.calls).1, early) (outcome, omega (arith, calls))

  attempts_fail :
      (left : ℕ) (s : Session)
      → AllFail
      → let a = explain_attempts c e left s in
        (a.response ≡ none) × (a.session.calls ≡ s.calls + left)
  unfolding explain_attempts after_call record_failure
  attempts_fail zero s fails = (refl, omega arith)
  attempts_fail (suc left) s fails =
      let (missing, calls) =
        attempts_fail left (record_failure c (e.clock (called s).calls) (called s)) fails in
      rw (fails s.calls).1 (missing, omega (arith, calls))

  circuit-calls : (now : ℕ) (s : Session) → (circuit_is_open c now s.opened_at s).1.calls ≡ s.calls
  circuit-calls now s = circuit_is_open-calls c now s.opened_at s

  -- With `persistent_retry`, without a fallback and with at most 1024 configured attempts, an explanation that has evidence
  -- and is asked for while the circuit is closed ends, if every call of the model fails, in an OverflowError after the
  -- configured number of attempts and 1024 calls more; fuel for 1024 calls is enough to see it.
  pub explain_overflows :
      (fuel now : ℕ) (r : RequestShape) (s : Session)
      → c.persistent_retry ≡ true
      → c.allow_fallback ≡ false
      → c.max_attempts ≤ 1024
      → lacks_evidence r ≡ false
      → (circuit_is_open c now s.opened_at s).0 ≡ false
      → AllFail
      → 1024 ≤ fuel
      → let (outcome, s') = explain c e fuel now r s in
        (outcome ≡ raised overflow) × (s'.calls ≡ s.calls + c.max_attempts + 1024)
  unfolding explain conclude
  explain_overflows fuel now r s for_ever strict few evident closed fails enough =
      let begun = (circuit_is_open c now s.opened_at s).1 in
      let a = explain_attempts c e c.max_attempts begun in
      let complete : (is_incomplete r.risk && c.allow_fallback) ≡ false =
        and_right_false (is_incomplete r.risk) c.allow_fallback strict in
      let timely : (r.workflow == "explain_history"
            && not r.has_previous_evidence_dossier
            && not r.has_universal_evidence
            && c.allow_fallback)
          ≡ false =
        and_right_false
          (r.workflow == "explain_history"
            && not r.has_previous_evidence_dossier
            && not r.has_universal_evidence)
          c.allow_fallback strict in
      let goes : (a.semantic_failure || c.persistent_retry) ≡ true =
        or_right_true a.semantic_failure c.persistent_retry for_ever in
      let (missing, asked) = attempts_fail c.max_attempts begun fails in
      let (outcome, calls) =
        conservative-overflows r.has_focused_facts fuel 1023 0 a.session for_ever fails
          (omega arith) (omega (arith, enough)) in
      rw (complete, timely, closed, evident, missing, goes)
        (outcome, omega (arith, calls, asked, circuit-calls now s))
