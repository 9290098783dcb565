-- ===== src/Notifications.antt =====
-- services/notification-worker/src/notification_worker: the deliveries (delivery_store.py), the handling
-- of a message (worker.py), the mail (email.py) and the publication of outbox events (outbox.py, sqs.py).
-- The mail service and the queue are parameters.
pub mod Deliveries
pub mod Publishing
use Prim.Native.Char.{code}
use tasks_management.Base.{
  Bool, Call, List, Option, Result, String, [], concat, contains, eqb, err, false, find_first,
  if◌then◌else◌, inl, inr, nat_eq, none, not, ok, option_eq, shortened, some, string_eq, true,
  update_where, value_error, ℕ, ◌&&◌, ◌++◌, ◌+◌, ◌==◌, ◌∷◌, ◌⊎◌,
}

-- a row of the table `notification_deliveries`
pub record Delivery : Type 0 where
  pub id : String
  pub environment : String
  pub created_at : ℕ
  pub consumer_key : String
  pub state : String
  pub attempts : ℕ
  pub last_error : Option String

abbrev pub is_delivery : String → String → Delivery → Bool
is_delivery env key d = d.environment == env && d.consumer_key == key

abbrev pub new_delivery : Call → String → String → Delivery
new_delivery call env key = record {
  id = call.uuid 0;
  environment = env;
  created_at = call.now;
  consumer_key = key;
  state = "sending";
  attempts = 0;
  last_error = none;
}

-- `claim` on the row that it finds
abbrev pub claim_on :
    Call → String → String → Option Delivery → List Delivery → Bool × List Delivery
claim_on call key env none ds = (true, ds ++ new_delivery call env key ∷ [])
claim_on call key env (some existing) ds =
    (not (contains existing.state ("sending" ∷ "sent" ∷ "failed" ∷ [])), ds)

-- DatabaseDeliveryStore.claim
unfoldable pub claim : Call → String → String → List Delivery → Bool × List Delivery
claim call key env ds = claim_on call key env (find_first (is_delivery env key) ds) ds

abbrev pub has_key : String → Delivery → Bool
has_key key d = d.consumer_key == key

abbrev pub marked : String → Option String → Delivery → Delivery
marked state error d = record d { state = state; attempts = d.attempts + 1; last_error = error }

-- DatabaseDeliveryStore.mark
unfoldable pub mark : String → String → Option String → List Delivery → List Delivery
mark key state error ds = update_where (has_key key) (marked state (shortened 128 error)) ds

pub record QueueMessage : Type 0 where
  pub message_id : String
  pub consumer_key : String
  pub environment : String
  -- `severity`, `alert_id` and `correlation_id` of the payload, as printed by `str`
  pub severity : Option String
  pub alert_id : Option String
  pub correlation_id : Option String

pub record EmailMessage : Type 0 where
  pub recipient : String
  pub subject : String
  pub body : String

abbrev pub or_default : String → Option String → String
or_default d none = d
or_default d (some s) = s

-- `text.rstrip('/')`
unfoldable pub rstrip_slash : String → String
rstrip_slash String.[] = String.[]
rstrip_slash (String.◌∷◌ c s) =
    let rest = rstrip_slash s in
    if eqb (code c) 47 && rest == "" then String.[] else String.◌∷◌ c rest

unfoldable pub for_alert : String → String → String → String → String → EmailMessage
for_alert recipient severity alert_id application_url correlation_id = record {
  recipient = recipient;
  subject = concat "Workforce delivery risk: " severity;
  body = concat "A " (
      concat severity (
        concat " work-delivery risk needs review.\nOpen " (
          concat (rstrip_slash application_url) (
            concat "/alerts/" (concat alert_id (concat "\nSupport reference: " correlation_id))))));
}

-- `SesEmailAdapter.send`: the identifier of the message, or the name of the exception
pub record Mailer (S : Type 0) : Type 0 where
  pub send : EmailMessage → S → (String ⊎ String) × S

-- the worker's construction arguments, its store aside
pub record WorkerConfig : Type 0 where
  pub environment : String
  pub manager_email : String
  pub application_url : String

pub record MailWorld (S : Type 0) : Type 0 where
  pub deliveries : List Delivery
  pub mailer : S
  -- the consumer keys for which the mail service was called, oldest first
  pub sent : List String

module _ {S : Type 0} (mailer : Mailer S) where
  -- the `except` and what follows the `try`
  unfoldable pub end_delivery : String → String ⊎ String → MailWorld S → Bool × MailWorld S
  end_delivery key (inl raised) w =
      (false, record w { deliveries = mark key "retrying" (some raised) w.deliveries })
  end_delivery key (inr id) w = (true, record w { deliveries = mark key "sent" none w.deliveries })

  -- the body of the `try`: a message without an alert raises before the mail service is called
  unfoldable pub deliver :
      WorkerConfig → QueueMessage → Option String → MailWorld S → (String ⊎ String) × MailWorld S
  deliver config message none w = (inl "KeyError", w)
  deliver config message (some alert_id) w =
      let (outcome, s) =
        mailer.send
          (for_alert config.manager_email (or_default "risk" message.severity) alert_id
            config.application_url (or_default "unavailable" message.correlation_id))
          w.mailer in
      (outcome, record w { mailer = s; sent = w.sent ++ message.consumer_key ∷ [] })

  -- NotificationWorker.handle
  unfoldable pub handle :
      WorkerConfig → Call → QueueMessage → MailWorld S → Result Bool × MailWorld S
  handle config call message w =
      let (claimed, ds) = claim call message.consumer_key message.environment w.deliveries in
      let w' = record w { deliveries = ds } in
      let (outcome, w'') = deliver config message message.alert_id w' in
      let (done, w''') = end_delivery message.consumer_key outcome w'' in
      if not (message.environment == config.environment)
      then (err (value_error "notification environment mismatch"), w)
      else if not claimed
      then (ok true, w')
      else (ok done, w''')
