-- ===== src/Tests/Notifications.antt =====
-- A message that is mailed, and an event that is published after one transient error.
use tasks_management.Base.{
  [], find_first, inr, none, ok, refl, some, suc, true, zero, ℕ, ◌+◌, ◌≡◌, ◌≤◌,
}
use tasks_management.Store.{OutboxEvent}
use tasks_management.Notifications.{
  MailWorld, Mailer, QueueMessage, WorkerConfig, claim, deliver, end_delivery, handle,
}
use tasks_management.Notifications.Deliveries.{handle_again}
use tasks_management.Notifications.Publishing.{
  Queue, QueueState, accepted, attempts_of, publish, transient,
}
use tasks_management.Notifications.Publishing.Attempts.{accepted_id, accepted_within, publish_exact}
use tasks_management.Tests.Proposals.{call}

abbrev message : QueueMessage
message = record {
  message_id = "m1";
  consumer_key = "alert:a1:v1";
  environment = "dev";
  severity = some "high";
  alert_id = some "a1";
  correlation_id = none;
}

abbrev config : WorkerConfig
config = record { environment = "dev"; manager_email = "m@x"; application_url = "https://x/" }

-- a mail service that counts its mails
abbrev counting : Mailer ℕ
counting = record { send = λ m n. (inr "id", n + 1) }

abbrev world : MailWorld ℕ
world = record { deliveries = []; mailer = 0; sent = [] }

handle_again_example :
    let w' = (handle counting config call message world).1 in
    handle counting config call (record message { message_id = "m2" }) w' ≡ (ok true, w')
unfolding handle claim deliver end_delivery find_first
handle_again_example =
    handle_again counting config call call message (record message { message_id = "m2" }) world refl
      refl refl

-- a queue that fails at its first call
abbrev second_time : Queue ℕ
second_time = record {
  send_message =
      λ body env n. elim n [ zero ↦ (transient "TimeoutError", 1) | suc k ↦ (accepted "m1", 2) ];
}

abbrev queue_state : QueueState ℕ
queue_state = record { server = 0; calls = 0 }

abbrev event : OutboxEvent
event = record {
  id = "e1";
  environment = "dev";
  created_at = 1;
  consumer_key = "alert:a1:v1";
  event_type = "risk_alert.notification_requested";
  payload = [];
  delivery_attempts = 0;
  published_at = none;
  last_error = none;
}

publish_exact_example :
    let (answer, w') = publish second_time 3 "{}" "dev" queue_state in
    (accepted_id answer ≡ accepted_within second_time (attempts_of 3) "{}" "dev" 0)
    × (0 + 1 ≤ w'.calls)
    × (w'.calls ≤ 0 + attempts_of 3)
publish_exact_example = publish_exact second_time 3 "{}" "dev" queue_state
