-- ===== src/Agent/Explanation/Calls.antt =====
-- How many calls of the model an explanation takes, and that it ends.
use tasks_management.Base.{
  Bool, Bool-cases, Option, Result, arith, err, false, has_value, if◌then◌else◌, inl, inr, leb,
  list_eq, ltb, nat_eq, none, not, ok, option_eq, refl, some, string_eq, strip, suc, true, zero, ℕ,
  ◌&&◌, ◌+◌, ◌-◌, ◌<◌, ◌==◌, ◌||◌, ◌≡◌, ◌≤◌,
}
use tasks_management.Agent.Planner.{Reply, failed, replied}
use tasks_management.Agent.Explanation.{
  Attempted, Judgement, Outcome, RequestShape, Session, Settings, Surroundings, accepted,
  after_call, after_conservative_call, after_failure, after_judgement, after_prose, called,
  circuit_is_open, conclude, conservative, explain, explain_attempts, explained, is_incomplete,
  lacks_evidence, outcome_of, overflows, raised, record_failure, rejected, unfinished,
}

abbrev pub IsFinished : {R : Type 0} → Outcome R → Type 0
IsFinished unfinished = ⊥
IsFinished (explained response) = Unit
IsFinished (raised error) = Unit

record_failure-calls :
    (c : Settings) (now : ℕ) (s : Session) → (record_failure c now s).calls ≡ s.calls
unfolding record_failure
record_failure-calls c now s = refl

pub circuit_is_open-calls :
    (c : Settings) (now : ℕ) (o : Option ℕ) (s : Session)
    → (circuit_is_open c now o s).1.calls ≡ s.calls
unfolding circuit_is_open
circuit_is_open-calls c now none s = refl
circuit_is_open-calls c now (some t) s = elim (Bool-cases (ltb now (t + c.reset_seconds))) [
  | inl still ↦ rw still refl
  | inr over ↦ rw over refl
]

module _ {R : Type 0} (c : Settings) (e : Surroundings R) where
  after_call-calls :
      (r : Reply) (left : ℕ) (s : Session)
      → ((t : Session) → (explain_attempts c e left t).session.calls ≤ t.calls + left)
      → (after_call c e r s (explain_attempts c e left)).session.calls ≤ s.calls + left
  unfolding after_call after_judgement
  after_call-calls (failed what) left s h =
      omega (
        arith,
        h (record_failure c (e.clock s.calls) s),
        record_failure-calls c (e.clock s.calls) s,
      )
  after_call-calls (replied raw) left s h = judged (e.judge raw)
    where
      judged :
          (j : Judgement R)
          → (after_judgement c e j s (explain_attempts c e left)).session.calls ≤ s.calls + left
      judged (accepted response) = omega arith
      judged (rejected why) = h s

  -- The loop of `explain` makes no more calls than it has attempts.
  explain_attempts-calls :
      (left : ℕ) (s : Session) → (explain_attempts c e left s).session.calls ≤ s.calls + left
  unfolding explain_attempts
  explain_attempts-calls zero s = omega arith
  explain_attempts-calls (suc left) s =
      let bound =
        after_call-calls (e.reply s.calls) left (called s) (explain_attempts-calls left) in
      omega (arith, bound)

  -- it has come to an end, with so many calls at most
  abbrev pub EndsBy : ℕ → Outcome R × Session → Type 0
  EndsBy bound r = IsFinished r.0 × (r.1.calls ≤ bound)

  EndsBy-if :
      (b : Bool) (x y : Outcome R × Session) {bound : ℕ}
      → EndsBy bound x
      → EndsBy bound y
      → EndsBy bound (if b then x else y)
  EndsBy-if true x y h k = h
  EndsBy-if false x y h k = k

  after_failure-EndsBy :
      (attempt bound : ℕ) (s : Session) (retry : ℕ → Session → Outcome R × Session)
      → s.calls ≤ bound
      → ((t : Session) → t.calls ≡ s.calls → EndsBy bound (retry attempt t))
      → EndsBy bound (after_failure c e attempt s retry)
  unfolding after_failure
  after_failure-EndsBy attempt bound s retry h go =
      let same = record_failure-calls c (e.clock s.calls) s in
      EndsBy-if ((c.persistent_retry || ltb attempt c.max_attempts) && overflows attempt) _ _
        (tt, omega (arith, h, same)) (go (record_failure c (e.clock s.calls) s) same)

  after_conservative_call-EndsBy :
      (focused : Bool) (attempt bound : ℕ) (r : Reply) (s : Session)
      (retry : ℕ → Session → Outcome R × Session)
      → s.calls ≤ bound
      → ((t : Session) → t.calls ≡ s.calls → EndsBy bound (retry (attempt + 1) t))
      → EndsBy bound (after_conservative_call c e focused attempt r s retry)
  unfolding after_conservative_call after_prose
  after_conservative_call-EndsBy focused attempt bound (failed what) s retry h go =
      after_failure-EndsBy (attempt + 1) bound s retry h go
  after_conservative_call-EndsBy focused attempt bound (replied raw) s retry h go =
      elim (Bool-cases (strip raw == "")) [
        | inl blank ↦ rw blank (after_failure-EndsBy (attempt + 1) bound s retry h go)
        | inr written ↦ elim (Bool-cases (not focused || e.is_grounded (strip raw))) [
          | inl grounded ↦ rw (written, grounded) (tt, h)
          | inr wrong ↦ elim (Bool-cases (leb c.max_attempts (attempt + 1))) [
            | inl over ↦ rw (written, wrong, over) (tt, h)
            | inr more ↦
                rw (written, wrong, more)
                  (EndsBy-if (overflows (attempt + 1)) _ _ (tt, h) (go s refl))
          ]
        ]
      ]

  conservative-EndsBy :
      (focused : Bool) (fuel attempt : ℕ) (s : Session)
      → c.persistent_retry ≡ false
      → attempt ≤ c.max_attempts
      → c.max_attempts < attempt + fuel
      → EndsBy (s.calls + (c.max_attempts - attempt)) (conservative c e fuel focused attempt s)
  unfolding conservative
  conservative-EndsBy focused zero attempt s once within enough =
      absurd (omega (arith, within, enough))
  conservative-EndsBy focused (suc fuel) attempt s once within enough =
      elim (Bool-cases (ltb attempt c.max_attempts)) [
        | inr over ↦
            let ending : (c.persistent_retry || ltb attempt c.max_attempts) ≡ false =
              ground (arith, once, over) in
            rw ending (tt, omega arith)
        | inl more ↦
            let going : (c.persistent_retry || ltb attempt c.max_attempts) ≡ true =
              ground (arith, more) in
            rw going (
              after_conservative_call-EndsBy focused attempt (s.calls + (c.max_attempts - attempt))
                (e.reply s.calls) (called s) (conservative c e fuel focused) (ground (arith, more))
                (λ t same.
                  let (done, bound) =
                    conservative-EndsBy focused fuel (attempt + 1) t once (ground (arith, more))
                      (omega (arith, enough)) in
                  (done, ground (arith, more, bound, same))))
      ]

  outcome_of-EndsBy :
      (r : Result R) (s : Session) {bound : ℕ} → s.calls ≤ bound → EndsBy bound (outcome_of r, s)
  outcome_of-EndsBy (ok response) s h = (tt, h)
  outcome_of-EndsBy (err error) s h = (tt, h)

  conclude-EndsBy :
      (r : RequestShape) (a : Attempted R) (o : Option R) (calls : ℕ)
      → c.persistent_retry ≡ false
      → a.session.calls ≤ calls
      → EndsBy (calls + c.max_attempts) (conclude c e (suc c.max_attempts) r a o)
  unfolding conclude
  conclude-EndsBy r a (some response) calls once h = (tt, omega (arith, h))
  conclude-EndsBy r a none calls once h =
      EndsBy-if (a.semantic_failure || c.persistent_retry) _ _
        (let (done, bound) =
            conservative-EndsBy r.has_focused_facts (suc c.max_attempts) 0 a.session once
              (omega arith) (omega arith) in
          (done, omega (arith, bound, h)))
        (EndsBy-if (c.allow_fallback && has_value r.risk) _ _
          (outcome_of-EndsBy e.fallback a.session (omega (arith, h))) (tt, omega (arith, h)))

  -- Without `persistent_retry` an explanation always ends, whatever the model replies, with at most twice the configured number
  -- of attempts as calls, and with none while the circuit is open.
  pub explain_ends :
      (now : ℕ) (r : RequestShape) (s : Session)
      → c.persistent_retry ≡ false
      → EndsBy
          (s.calls
            + (if (circuit_is_open c now s.opened_at s).0
                then 0
                else c.max_attempts + c.max_attempts))
          (explain c e (suc c.max_attempts) now r s)
  unfolding explain
  explain_ends now r s once =
      let asked = circuit_is_open-calls c now s.opened_at s in
      EndsBy-if (is_incomplete r.risk && c.allow_fallback) _ _
        (outcome_of-EndsBy e.fallback s (omega arith))
        (EndsBy-if
          (r.workflow == "explain_history"
            && not r.has_previous_evidence_dossier
            && not r.has_universal_evidence
            && c.allow_fallback)
          _ _ (outcome_of-EndsBy e.fallback s (omega arith))
          (elim (Bool-cases (circuit_is_open c now s.opened_at s).0) [
            | inl is_open ↦ rw is_open (
                EndsBy-if (c.allow_fallback && has_value r.risk) _ _
                  (outcome_of-EndsBy e.fallback (circuit_is_open c now s.opened_at s).1
                    (omega (arith, asked)))
                  (tt, omega (arith, asked)))
            | inr closed ↦ rw closed (
                EndsBy-if (lacks_evidence r) _ _ (tt, omega (arith, asked))
                  (let begun = (circuit_is_open c now s.opened_at s).1 in
                    let a = explain_attempts c e c.max_attempts begun in
                    let bound = explain_attempts-calls c.max_attempts begun in
                    let (done, limit) =
                      conclude-EndsBy r a a.response (s.calls + c.max_attempts) once
                        (omega (arith, bound, asked)) in
                    (done, omega (arith, limit))))
          ]))
