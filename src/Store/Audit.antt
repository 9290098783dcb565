-- ===== src/Store/Audit.antt =====
-- packages/persistence/src/workforce_persistence/repositories.py, class AuditRepository: the
-- hash-chained audit log of each environment.
pub mod Order
pub mod Chain
use tasks_management.Base.{
  Bool, Call, List, Option, Payload, Platform, String, [], false, if◌then◌else◌, ltb, nat_eq, none,
  not, number, object, object_or_null, option_eq, scalar, select, some, sort, string, string_eq,
  string_or_null, strings, suc, true, ℕ, ◌++◌, ◌+◌, ◌==◌, ◌||◌, ◌∷◌,
}
use tasks_management.Store.Rows.{AuditEvent}

-- the keyword arguments of `append`
pub record AuditEntry : Type 0 where
  pub action_type : String
  pub actor_type : String
  pub actor_id : String
  pub subject_ids : List String
  pub correlation_id : String
  pub prior_state : Option Payload
  pub new_state : Option Payload
  pub safe_metadata : Payload

abbrev pub newer : Option AuditEvent → Option AuditEvent → Option AuditEvent
newer none b = b
newer (some a) none = some a
newer (some a) (some b) = if ltb b.sequence_number a.sequence_number then some a else some b

-- `.where(environment == ...).order_by(sequence_number.desc()).limit(1)`
unfoldable pub latest : String → List AuditEvent → Option AuditEvent
latest env [] = none
latest env (e ∷ es) = newer (if e.environment == env then some e else none) (latest env es)

abbrev pub next_sequence : Option AuditEvent → ℕ
next_sequence none = 1
next_sequence (some e) = e.sequence_number + 1

abbrev pub hash_of : Option AuditEvent → Option String
hash_of none = none
hash_of (some e) = some e.event_hash

module _ (platform : Platform) where
  -- `_event_hash` of the payload that `append` and `verify_chain` build
  unfoldable pub event_hash : ℕ → Option String → AuditEntry → String
  event_hash sequence previous_hash a = platform.sha256 (
      platform.dumps (
        ("sequence", scalar (number sequence))
        ∷ ("previous_hash", scalar (string_or_null previous_hash))
        ∷ ("action_type", scalar (string a.action_type))
        ∷ ("actor_type", scalar (string a.actor_type))
        ∷ ("actor_id", scalar (string a.actor_id))
        ∷ ("subject_ids", scalar (strings a.subject_ids))
        ∷ ("correlation_id", scalar (string a.correlation_id))
        ∷ ("prior_state", object_or_null a.prior_state)
        ∷ ("new_state", object_or_null a.new_state)
        ∷ ("safe_metadata", object a.safe_metadata)
        ∷ []))

  unfoldable pub audit_event : Call → ℕ → String → ℕ → Option String → AuditEntry → AuditEvent
  audit_event call n env sequence previous_hash a = record {
    id = call.uuid n;
    environment = env;
    created_at = call.now;
    sequence_number = sequence;
    previous_hash = previous_hash;
    event_hash = event_hash sequence previous_hash a;
    action_type = a.action_type;
    actor_type = a.actor_type;
    actor_id = a.actor_id;
    subject_ids = a.subject_ids;
    correlation_id = a.correlation_id;
    prior_state = a.prior_state;
    new_state = a.new_state;
    safe_metadata = a.safe_metadata;
  }

  -- `n` says which of the call's uuid4 values the new row takes
  unfoldable pub append_audit : Call → ℕ → String → AuditEntry → List AuditEvent → List AuditEvent
  append_audit call n env a log =
      let last = latest env log in
      log ++ audit_event call n env (next_sequence last) (hash_of last) a ∷ []

  abbrev pub entry_of : AuditEvent → AuditEntry
  entry_of e = record {
    action_type = e.action_type;
    actor_type = e.actor_type;
    actor_id = e.actor_id;
    subject_ids = e.subject_ids;
    correlation_id = e.correlation_id;
    prior_state = e.prior_state;
    new_state = e.new_state;
    safe_metadata = e.safe_metadata;
  }

  -- the loop of `verify_chain`, from the expected number and the previous hash
  unfoldable pub verify_from : ℕ → Option String → List AuditEvent → Bool
  verify_from expected previous [] = true
  verify_from expected previous (e ∷ es) =
      let rest = verify_from (suc expected) (some e.event_hash) es in
      if not (e.sequence_number == expected) || not (e.previous_hash == previous)
      then false
      else if not (event_hash e.sequence_number e.previous_hash (entry_of e) == e.event_hash)
      then false
      else rest

  unfoldable pub verify_chain : String → List AuditEvent → Bool
  verify_chain env log = verify_from 1 none (
      sort (λ a b. ltb a.sequence_number b.sequence_number)
        (select (λ e. e.environment == env) log))
