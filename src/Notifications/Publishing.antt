-- ===== src/Notifications/Publishing.antt =====
-- services/notification-worker/src/notification_worker: publishing to the queue with retries (sqs.py), and
-- publishing an event of the outbox (outbox.py). The queue is a parameter.
pub mod Attempts
use tasks_management.Base.{
  Call, List, String, inl, inr, max, none, some, suc, zero, ℕ, ◌+◌, ◌-◌, ◌⊎◌,
}
use tasks_management.Store.{OutboxEvent}
use tasks_management.Store.Outbox.{mark_published, record_attempt}

-- what `send_message` comes to: the identifier, an error that is retried, or any other error
pub data SendOutcome : Type 0 where
  accepted : String → SendOutcome
  transient : String → SendOutcome
  rejected : String → SendOutcome

pub record Queue (S : Type 0) : Type 0 where
  pub send_message : String → String → S → SendOutcome × S

-- the queue and the number of calls made to it
pub record QueueState (S : Type 0) : Type 0 where
  pub server : S
  pub calls : ℕ

-- `max(1, max_attempts)`
abbrev pub attempts_of : ℕ → ℕ
attempts_of n = max 1 n

-- the last attempt raises whatever error it meets
abbrev pub answer_of : SendOutcome → String ⊎ String
answer_of (accepted id) = inr id
answer_of (transient raised) = inl raised
answer_of (rejected raised) = inl raised

-- an earlier attempt goes on to the rest after a transient error
abbrev pub retry :
    {S : Type 0}
    → SendOutcome
    → QueueState S
    → (String ⊎ String) × QueueState S
    → (String ⊎ String) × QueueState S
retry (accepted id) w rest = (inr id, w)
retry (transient raised) w rest = rest
retry (rejected raised) w rest = (inl raised, w)

module _ {S : Type 0} (queue : Queue S) where
  unfoldable pub send : String → String → QueueState S → SendOutcome × QueueState S
  send body env w =
      let (outcome, s) = queue.send_message body env w.server in
      (outcome, record { server = s; calls = w.calls + 1 })

  -- the loop of `publish`, with the number of attempts after this one
  unfoldable pub attempt_from :
      ℕ → String → String → QueueState S → (String ⊎ String) × QueueState S
  attempt_from zero body env w = let (outcome, w') = send body env w in (answer_of outcome, w')
  attempt_from (suc more) body env w =
      let (outcome, w') = send body env w in
      let rest = attempt_from more body env w' in retry outcome w' rest

  -- SqsPublisher.publish, on the printed body
  unfoldable pub publish : ℕ → String → String → QueueState S → (String ⊎ String) × QueueState S
  publish max_attempts body env w = attempt_from (attempts_of max_attempts - 1) body env w

  -- OutboxPublisher.publish_event after the call of the queue
  unfoldable pub publication_recorded :
      Call → String → String ⊎ String → List OutboxEvent → List OutboxEvent
  publication_recorded call event_id (inl raised) outbox =
      record_attempt event_id (some raised) outbox
  publication_recorded call event_id (inr id) outbox =
      mark_published event_id call.now (record_attempt event_id none outbox)

  -- OutboxPublisher.publish_event; `print` is the JSON of the key, the environment and the payload
  unfoldable pub publish_event :
      (OutboxEvent → String)
      → ℕ
      → Call
      → OutboxEvent
      → List OutboxEvent
      → QueueState S
      → (String ⊎ String) × List OutboxEvent × QueueState S
  publish_event print max_attempts call event outbox w =
      let (answer, w') = publish max_attempts (print event) event.environment w in
      (answer, publication_recorded call event.id answer outbox, w')
