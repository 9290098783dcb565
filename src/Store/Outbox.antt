-- ===== src/Store/Outbox.antt =====
-- packages/persistence/src/workforce_persistence/outbox_repository.py: the transactional outbox.
use tasks_management.Base.{
  Bool, Call, List, Option, Payload, String, [], find_first, nat_eq, none, option_eq, shortened,
  some, string_eq, update_where, ℕ, ◌&&◌, ◌++◌, ◌+◌, ◌==◌, ◌∷◌,
}
use tasks_management.Store.Rows.{OutboxEvent}

abbrev pub is_event : String → String → OutboxEvent → Bool
is_event env key e = e.environment == env && e.consumer_key == key

abbrev append_new :
    Call
    → ℕ
    → String
    → String
    → String
    → Payload
    → ℕ
    → Option OutboxEvent
    → List OutboxEvent
    → List OutboxEvent
append_new call n env key event_type payload created_at (some existing) outbox = outbox
append_new call n env key event_type payload created_at none outbox =
    outbox
    ++ record {
      id = call.uuid n;
      environment = env;
      created_at = created_at;
      consumer_key = key;
      event_type = event_type;
      payload = payload;
      delivery_attempts = 0;
      published_at = none;
      last_error = none;
    }
      ∷ []

unfoldable pub append_outbox :
    Call → ℕ → String → String → String → Payload → ℕ → List OutboxEvent → List OutboxEvent
append_outbox call n env key event_type payload created_at outbox =
    append_new call n env key event_type payload created_at (find_first (is_event env key) outbox)
      outbox

unfoldable pub record_attempt : String → Option String → List OutboxEvent → List OutboxEvent
record_attempt event_id error =
    update_where (λ e. e.id == event_id)
      (λ e. record e {
        delivery_attempts = e.delivery_attempts + 1;
        last_error = shortened 500 error;
      })

unfoldable pub mark_published : String → ℕ → List OutboxEvent → List OutboxEvent
mark_published event_id published_at =
    update_where (λ e. e.id == event_id)
      (λ e. record e { published_at = some published_at; last_error = none })
