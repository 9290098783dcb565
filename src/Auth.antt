-- ===== src/Auth.antt =====
-- services/agent-api/src/agent_api/auth: API keys (api_keys.py), the principal (principal.py) and the
-- roles (roles.py). The HMAC is a parameter.
pub mod Access
pub mod Base64
pub mod Context
use tasks_management.Base.{
  Bool, EqTest, Error, List, Option, Result, String, arith, authentication_error, concat, contains,
  drop_chars, eqb, err, false, find_first, has_space, if◌then◌else◌, leb, length, list_eq, ltb,
  nat_eq, none, not, ok, option_eq, some, starts_with, string_eq, strip, true, value_error, ℕ, ◌==◌,
  ◌>>=◌, ◌||◌, ◌↔◌, ◌≡◌,
}
use tasks_management.Base.{Error}

-- packages/contracts/src/workforce_contracts/auth.py
pub data ApplicationRole : Type 0 where
  viewer manager administrator : ApplicationRole

abbrev pub role_index : ApplicationRole → ℕ
role_index viewer = 0
role_index manager = 1
role_index administrator = 2

pub role_index_iff : (a b : ApplicationRole) → (eqb (role_index a) (role_index b) ≡ true) ↔ (a ≡ b)
role_index_iff a b = (λ h. ground arith, λ h. ground arith)

instance abbrev pub role_eq : EqTest ApplicationRole
role_eq = record { same = λ a b. eqb (role_index a) (role_index b); same_iff = role_index_iff }

pub record ApiKeyRecord : Type 0 where
  pub actor_id : String
  pub display_label : String
  pub key_digest : String
  pub role : ApplicationRole
  pub environment : String
  pub project_scopes : List String
  pub created_at : ℕ
  pub expires_at : Option ℕ
  pub revoked_at : Option ℕ

pub record AuthenticatedPrincipal : Type 0 where
  pub actor_id : String
  pub display_label : String
  pub role : ApplicationRole
  pub environment : String
  pub project_scopes : List String

abbrev malformed : Error
malformed = authentication_error "missing or malformed API key"

-- the key that the header carries
unfoldable pub key_of : Option String → Result String
key_of none = err malformed
key_of (some authorization) =
    let raw_key = strip (drop_chars 7 authorization) in
    if not (starts_with "Bearer " authorization)
    then err malformed
    else if not (starts_with "wrk_" raw_key) || has_space raw_key
    then err malformed
    else ok raw_key

abbrev pub has_digest : String → ApiKeyRecord → Bool
has_digest digest r = r.key_digest == digest

abbrev pub principal_of : ApiKeyRecord → AuthenticatedPrincipal
principal_of r = record {
  actor_id = r.actor_id;
  display_label = r.display_label;
  role = r.role;
  environment = r.environment;
  project_scopes = r.project_scopes;
}

-- `record.revoked_at is not None`
abbrev pub is_revoked : Option ℕ → Bool
is_revoked none = false
is_revoked (some t) = true

-- `record.expires_at is not None and record.expires_at <= now`
abbrev pub is_past : Option ℕ → ℕ → Bool
is_past none now = false
is_past (some t) now = leb t now

-- `authenticate` on the record that has the digest
unfoldable pub admit :
    Option ApiKeyRecord → String → String → List ApplicationRole → ℕ → Result AuthenticatedPrincipal
admit none environment project_key allowed_roles now = err (authentication_error "unknown API key")
admit (some r) environment project_key allowed_roles now =
    if is_revoked r.revoked_at
    then err (authentication_error "API key is revoked")
    else if is_past r.expires_at now
    then err (authentication_error "API key is expired")
    else if not (r.environment == environment)
    then err (authentication_error "API key environment mismatch")
    else if not (contains project_key r.project_scopes)
    then err (authentication_error "API key project scope mismatch")
    else if not (contains r.role allowed_roles)
    then err (authentication_error "API key role is not authorized")
    else ok (principal_of r)

-- `ApiKeyService(pepper)`: the digests that it makes, with `hmac` for HMAC-SHA-256
unfoldable pub key_service : (List ℕ → String → String) → List ℕ → Result (String → String)
key_service hmac pepper =
    if ltb (length pepper) 32
    then err (value_error "API-key HMAC pepper must contain at least 32 bytes")
    else ok (hmac pepper)

-- ApiKeyService, with `digest` for the HMAC under its pepper
module _ (digest : String → String) where
  -- `generate`, with the random part of the key
  unfoldable pub generate :
      String
      → String
      → String
      → ApplicationRole
      → String
      → List String
      → ℕ
      → Option ℕ
      → String × ApiKeyRecord
  generate token actor_id display_label role environment project_scopes now expires_at =
      let raw_key = concat "wrk_" (concat environment (concat "_" token)) in
      (
        raw_key,
        record {
          actor_id = actor_id;
          display_label = display_label;
          key_digest = digest raw_key;
          role = role;
          environment = environment;
          project_scopes = project_scopes;
          created_at = now;
          expires_at = expires_at;
          revoked_at = none;
        },
      )

  unfoldable pub authenticate :
      Option String
      → List ApiKeyRecord
      → String
      → String
      → List ApplicationRole
      → ℕ
      → Result AuthenticatedPrincipal
  authenticate authorization records environment project_key allowed_roles now = do
    raw_key ← key_of authorization
    admit (find_first (has_digest (digest raw_key)) records) environment project_key allowed_roles
        now
