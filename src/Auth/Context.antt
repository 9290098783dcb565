-- ===== src/Auth/Context.antt =====
-- packages/contracts/src/workforce_contracts/auth.py: InternalContextSigner, which hands a principal from one service
-- to the next as a signed text. A text that is walked is the list of its code points.
-- The HMAC and JSON are parameters. Times are in microseconds.
pub mod Authentic
pub mod RoundTrip
use tasks_management.Base.{
  Bool, List, Option, Payload, Result, Scalar, String, [], all, contains, eqb, err, false, flag,
  if◌then◌else◌, leb, length, list_eq, ltb, nat_eq, none, not, number, ok, option_eq,
  permission_error, some, string, string_eq, strings, suc, true, type_error, value_error, ℕ, ◌*◌,
  ◌++◌, ◌+◌, ◌/◌, ◌==◌, ◌>>=◌, ◌||◌, ◌∷◌,
}
use tasks_management.Auth.{
  ApplicationRole, AuthenticatedPrincipal, administrator, manager, role_eq, viewer,
}
use tasks_management.Auth.Base64.{decode, encode, is_ascii}

pub record VerifiedInternalContext : Type 0 where
  pub principal : AuthenticatedPrincipal
  pub correlation_id : String
  pub expires_at : ℕ

-- `hmac.new(secret, text.encode(), hashlib.sha256).digest()`; `json.dumps(payload, separators=(",", ":")).encode()`;
-- `json.loads`, without a value where it raises a ValueError or the text is no object
pub record Codec : Type 0 where
  pub hmac_sha256 : List ℕ → List ℕ → List ℕ
  pub dumps : Payload → List ℕ
  pub loads : List ℕ → Option Payload

pub record Signer : Type 0 where
  pub secret : List ℕ
  pub lifetime : ℕ

abbrev pub denied {ℓ} : {A : Type ℓ} → String → Result A
denied what = err (permission_error what)

-- `__init__`; a timedelta that is not positive is 0 here
unfoldable pub new_signer : List ℕ → ℕ → Result Signer
new_signer secret lifetime =
    if ltb (length secret) 32
    then err (value_error "internal context secret must contain at least 32 bytes")
    else if leb lifetime 0
    then err (value_error "internal context lifetime must be positive")
    else ok (record { secret = secret; lifetime = lifetime })

abbrev pub role_value : ApplicationRole → String
role_value viewer = "viewer"
role_value manager = "manager"
role_value administrator = "administrator"

-- `int(t.timestamp())`
abbrev pub timestamp : ℕ → ℕ
timestamp t = t / 1_000_000

-- `datetime.fromtimestamp(s, UTC)`
abbrev pub from_timestamp : ℕ → ℕ
from_timestamp s = s * 1_000_000

-- the claims, in the order of their names (`sort_keys=True`)
unfoldable pub claims : AuthenticatedPrincipal → String → ℕ → Payload
claims p correlation_id expires =
    ("actor_id", string p.actor_id)
    ∷ ("correlation_id", string correlation_id)
    ∷ ("display_label", string p.display_label)
    ∷ ("environment", string p.environment)
    ∷ ("expires_at", number expires)
    ∷ ("project_scopes", strings p.project_scopes)
    ∷ ("role", string (role_value p.role))
    ∷ []

abbrev pub signature : Codec → Signer → List ℕ → List ℕ
signature c s encoded = encode (c.hmac_sha256 s.secret encoded)

unfoldable pub sign : Codec → Signer → AuthenticatedPrincipal → String → ℕ → List ℕ
sign c s p correlation_id now =
    let encoded = encode (c.dumps (claims p correlation_id (timestamp (now + s.lifetime)))) in
    encoded ++ 46 ∷ signature c s encoded

-- `token.count(".")`
unfoldable pub dots : List ℕ → ℕ
dots [] = 0
dots (x ∷ xs) = let rest = dots xs in if eqb x 46 then suc rest else rest

-- `token.split(".", 1)` of a text that has a "."
unfoldable pub split_dot : List ℕ → List ℕ × List ℕ
split_dot [] = ([], [])
split_dot (x ∷ xs) = let rest = split_dot xs in if eqb x 46 then ([], xs) else (x ∷ rest.0, rest.1)

-- `payload[name]`
unfoldable pub claim_of : String → Payload → Option Scalar
claim_of name [] = none
claim_of name ((key, value) ∷ rest) = if key == name then some value else claim_of name rest

abbrev pub a_string : Option Scalar → Option String
a_string (some (string s)) = some s
a_string _ = none

abbrev pub a_list : Option Scalar → Option (List String)
a_list (some (strings s)) = some s
a_list _ = none

-- what `datetime.fromtimestamp` takes: a number, or a bool, which is one
abbrev pub a_timestamp : Option Scalar → Option ℕ
a_timestamp (some (number n)) = some (from_timestamp n)
a_timestamp (some (flag true)) = some (from_timestamp 1)
a_timestamp (some (flag false)) = some 0
a_timestamp _ = none

-- `Literal["dev", "prod", "test"]`
unfoldable pub an_environment : Option String → Option String
an_environment none = none
an_environment (some e) = if e == "dev" || e == "prod" || e == "test" then some e else none

unfoldable pub a_role : Option String → Option ApplicationRole
a_role none = none
a_role (some r) =
    if r == "viewer"
    then some viewer
    else if r == "manager"
    then some manager
    else if r == "administrator"
    then some administrator
    else none

abbrev pub claim_names : List String
claim_names =
    "actor_id" ∷ "correlation_id" ∷ "display_label" ∷ "environment" ∷ "expires_at"
    ∷ "project_scopes" ∷ "role" ∷ []

abbrev pub is_claim : String × Scalar → Bool
is_claim (key, value) = contains key claim_names

-- `VerifiedInternalContext.model_validate`, on the fields as they are read
abbrev pub context_from :
    Option String
    → Option String
    → Option String
    → Option String
    → Option ℕ
    → Option (List String)
    → Option ApplicationRole
    → Option VerifiedInternalContext
context_from (some actor_id) (some correlation_id) (some display_label) (some environment)
      (some expires_at) (some project_scopes) (some role) =
    some (record {
      principal = record {
        actor_id = actor_id;
        display_label = display_label;
        role = role;
        environment = environment;
        project_scopes = project_scopes;
      };
      correlation_id = correlation_id;
      expires_at = expires_at;
    })
context_from _ _ _ _ _ _ _ = none

unfoldable pub validated : Option Payload → Option VerifiedInternalContext
validated none = none
validated (some p) =
    if all is_claim p
    then context_from (a_string (claim_of "actor_id" p)) (a_string (claim_of "correlation_id" p))
        (a_string (claim_of "display_label" p))
        (an_environment (a_string (claim_of "environment" p)))
        (a_timestamp (claim_of "expires_at" p)) (a_list (claim_of "project_scopes" p))
        (a_role (a_string (claim_of "role" p)))
    else none

-- `json.loads(_decode(encoded))`
abbrev pub loaded : Codec → Option (List ℕ) → Option Payload
loaded c none = none
loaded c (some bytes) = c.loads bytes

unfoldable pub checked_context :
    Option VerifiedInternalContext
    → String
    → String
    → List ApplicationRole
    → ℕ
    → Result VerifiedInternalContext
checked_context none expected_environment required_project required_roles now =
    denied "malformed internal context claims"
checked_context (some context) expected_environment required_project required_roles now =
    if leb context.expires_at now
    then denied "internal context is expired"
    else if not (context.principal.environment == expected_environment)
    then denied "internal context environment mismatch"
    else if not (contains required_project context.principal.project_scopes)
    then denied "internal context project mismatch"
    else if not (contains context.principal.role required_roles)
    then denied "internal context role mismatch"
    else ok context

-- `hmac.compare_digest` of two texts raises a TypeError if one is not ASCII
unfoldable pub same_signature : List ℕ → List ℕ → Result (Unit {0})
same_signature supplied expected =
    if not (all is_ascii supplied)
    then err (type_error "comparing strings with non-ASCII characters is not supported")
    else if not (supplied == expected)
    then denied "invalid internal context signature"
    else ok tt

unfoldable pub verify :
    Codec
    → Signer
    → Option (List ℕ)
    → String
    → String
    → List ApplicationRole
    → ℕ
    → Result VerifiedInternalContext
verify c s none expected_environment required_project required_roles now =
    denied "missing or malformed internal context"
verify c s (some token) expected_environment required_project required_roles now =
    let (encoded, supplied) = split_dot token in
    if not (eqb (dots token) 1) then denied "missing or malformed internal context" else do
      checked ← same_signature supplied (signature c s encoded)
      checked_context (validated (loaded c (decode encoded))) expected_environment required_project
          required_roles now
