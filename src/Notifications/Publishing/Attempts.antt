-- ===== src/Notifications/Publishing/Attempts.antt =====
-- SqsPublisher.publish and OutboxPublisher.publish_event: how often the queue is called, and when an
-- event counts as published.
use tasks_management.Base.{
  Bool, Call, List, Option, String, ap, arith, find_first, find_first-holds,
  find_first-update_where, if◌then◌else◌, inl, inr, nat_eq, none, option_eq, refl, some, string_eq,
  suc, update_where, zero, ℕ, ◌+◌, ◌-◌, ◌==◌, ◌↔◌, ◌∙◌, ◌≡◌, ◌≤◌, ◌⊎◌,
}
use tasks_management.Store.Outbox.{mark_published, record_attempt}
use tasks_management.Store.{OutboxEvent}
use tasks_management.Notifications.Publishing.{
  Queue, QueueState, SendOutcome, accepted, answer_of, attempt_from, attempts_of,
  publication_recorded, publish, publish_event, rejected, retry, send, transient,
}
use mathlib.Core.Option

abbrev pub event_is : String → OutboxEvent → Bool
event_is id e = e.id == id

-- what an answer says of the message
abbrev pub accepted_id : String ⊎ String → Option String
accepted_id (inl raised) = none
accepted_id (inr id) = some id

abbrev accepted_or : SendOutcome → Option String → Option String
accepted_or (accepted id) later = some id
accepted_or (transient raised) later = later
accepted_or (rejected raised) later = none

accepted_id-answer_of :
    (outcome : SendOutcome) → accepted_id (answer_of outcome) ≡ accepted_or outcome none
accepted_id-answer_of (accepted id) = refl
accepted_id-answer_of (transient raised) = refl
accepted_id-answer_of (rejected raised) = refl

-- the answer and the number of calls of an attempt that others may follow
abbrev Within : {S : Type 0} → ℕ → ℕ → Option String → (String ⊎ String) × QueueState S → Type 0
Within least most expected (answer, w) =
    (accepted_id answer ≡ expected) × (least ≤ w.calls) × (w.calls ≤ most)

Within-retry :
    {S : Type 0}
    → (outcome : SendOutcome) (w : QueueState S) (rest : (String ⊎ String) × QueueState S)
      (most : ℕ) (later : Option String)
    → Within (w.calls + 1) most later rest
    → Within w.calls most (accepted_or outcome later) (retry outcome w rest)
Within-retry (accepted id) w rest most later (same, low, high) =
    (refl, omega arith, omega (arith, low, high))
Within-retry (transient raised) w rest most later (same, low, high) =
    (same, omega (arith, low), high)
Within-retry (rejected raised) w rest most later (same, low, high) =
    (refl, omega arith, omega (arith, low, high))

-- the row that an update by its identifier leaves
updated_row :
    (id : String) (f : OutboxEvent → OutboxEvent)
    → ((x : OutboxEvent) → (f x).id ≡ x.id)
    → (outbox : List OutboxEvent) (e : OutboxEvent) → find_first (event_is id) outbox ≡ some e
    → find_first (event_is id) (update_where (event_is id) f outbox) ≡ some (f e)
updated_row id f keep outbox e found =
    find_first-update_where (event_is id) (event_is id) f (λ x. ap (λ i. i == id) (keep x)) outbox
    ∙ ap (Option.map (λ x. if event_is id x then f x else x)) found
    ∙ rw (find_first-holds (event_is id) outbox e found) refl

module _ {S : Type 0} (queue : Queue S) where
  -- what the queue answers within a number of calls, only transient errors coming before
  unfoldable pub accepted_within : ℕ → String → String → S → Option String
  accepted_within zero body env s = none
  accepted_within (suc n) body env s =
      let (outcome, s') = queue.send_message body env s in
      let later = accepted_within n body env s' in accepted_or outcome later

  attempts :
      (more : ℕ) (body env : String) (w : QueueState S)
      → Within
          (w.calls + 1)
          (w.calls + more + 1)
          (accepted_within (suc more) body env w.server)
          (attempt_from queue more body env w)
  unfolding attempt_from send accepted_within
  attempts zero body env w =
      (accepted_id-answer_of (queue.send_message body env w.server).0, omega arith, omega arith)
  attempts (suc more) body env w =
      let (outcome, w') = send queue body env w in
      let (same, low, high) = attempts more body env w' in
      Within-retry outcome w' (attempt_from queue more body env w') (w.calls + suc more + 1)
        (accepted_within (suc more) body env w'.server) (same, low, omega (arith, high))

  -- Publishing calls the queue at least once and at most as often as configured (once if that is zero),
  -- and succeeds exactly when the queue accepts the message within that many calls, only transient
  -- errors coming before.
  pub publish_exact :
      (max_attempts : ℕ) (body env : String) (w : QueueState S)
      → let (answer, w') = publish queue max_attempts body env w in
        (accepted_id answer ≡ accepted_within (attempts_of max_attempts) body env w.server)
        × (w.calls + 1 ≤ w'.calls)
        × (w'.calls ≤ w.calls + attempts_of max_attempts)
  unfolding publish
  publish_exact max_attempts body env w =
      let k = attempts_of max_attempts in
      let (same, low, high) = attempts (k - 1) body env w in
      let enough : suc (k - 1) ≡ k = omega arith in
      (same ∙ ap (λ n. accepted_within n body env w.server) enough, low, omega (arith, high))

  recorded :
      (call : Call) (event : OutboxEvent) (outbox : List OutboxEvent) (answer : String ⊎ String)
      → find_first (event_is event.id) outbox ≡ some event
      → event.published_at ≡ none
      → (e : OutboxEvent) × (find_first
            (event_is event.id)
            (publication_recorded queue call event.id answer outbox)
          ≡ some e)
        × (e.delivery_attempts ≡ event.delivery_attempts + 1)
        × (e.published_at ≡ Option.map (λ id. call.now) (accepted_id answer))
        × ((e.last_error ≡ none) ↔ ((id : String) × (answer ≡ inr id)))
  unfolding publication_recorded record_attempt mark_published
  recorded call event outbox (inl raised) found fresh = (
    _,
    updated_row event.id _ (λ x. refl) outbox event found,
    refl,
    fresh,
    (λ h. cc, λ (i, h). cc),
  )
  recorded call event outbox (inr id) found fresh =
      let once = updated_row event.id _ (λ x. refl) outbox event found in
      (_, updated_row event.id _ (λ x. refl) _ _ once, refl, refl, (λ h. (id, refl), λ h. refl))

  -- An event of the outbox counts as published, at the time of the call, exactly when the queue has
  -- accepted it; either way one attempt is counted, and an error is kept only of a failed one.
  publish_event_marks :
      (print : OutboxEvent → String) (max_attempts : ℕ) (call : Call) (event : OutboxEvent)
      (outbox : List OutboxEvent) (w : QueueState S)
      → find_first (event_is event.id) outbox ≡ some event
      → event.published_at ≡ none
      → let (answer, outbox', w') = publish_event queue print max_attempts call event outbox w in
        (e : OutboxEvent) × (find_first (event_is event.id) outbox' ≡ some e)
        × (e.delivery_attempts ≡ event.delivery_attempts + 1)
        × (e.published_at ≡ Option.map (λ id. call.now) (accepted_id answer))
        × ((e.last_error ≡ none) ↔ ((id : String) × (answer ≡ inr id)))
  unfolding publish_event
  publish_event_marks print max_attempts call event outbox w found fresh =
      recorded call event outbox (publish queue max_attempts (print event) event.environment w).0
        found fresh
