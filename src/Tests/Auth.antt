-- ===== src/Tests/Auth.antt =====
-- A key that is presented with spaces around it.
use tasks_management.Base.{
  String, [], contains, drop_chars, find_first, has_space, is_space, nat_eq, none, ok, option_eq,
  refl, some, starts_with, string_eq, strip, strip_end, strip_start, ◌∷◌, ◌≡◌,
}
use tasks_management.Auth.{
  ApiKeyRecord, AuthenticatedPrincipal, admit, authenticate, has_digest, key_of, manager,
  principal_of,
}
use tasks_management.Auth.Access.{IsUsable, authenticate-IsUsable}

abbrev key_record : ApiKeyRecord
key_record = record {
  actor_id = "m1";
  display_label = "Manager";
  key_digest = "wrk_dev_t";
  role = manager;
  environment = "dev";
  project_scopes = "WRD" ∷ [];
  created_at = 1;
  expires_at = some 90;
  revoked_at = none;
}

abbrev digest : String → String
digest s = s

authenticated :
    (p : AuthenticatedPrincipal) × (authenticate digest
        (some "Bearer  wrk_dev_t ")
        (key_record ∷ [])
        "dev"
        "WRD"
        (manager ∷ [])
        20
      ≡ ok p)
unfolding authenticate key_of admit find_first contains strip strip_start strip_end starts_with
    drop_chars has_space is_space
authenticated = (_, refl)

authenticate-IsUsable_example :
    (raw_key : String) × (r : ApiKeyRecord) × (key_of (some "Bearer  wrk_dev_t ") ≡ ok raw_key)
    × (find_first (has_digest raw_key) (key_record ∷ []) ≡ some r)
    × IsUsable r "dev" "WRD" (manager ∷ []) 20
    × (authenticated.0 ≡ principal_of r)
authenticate-IsUsable_example =
    authenticate-IsUsable digest (some "Bearer  wrk_dev_t ") (key_record ∷ []) "dev" "WRD"
      (manager ∷ []) 20 authenticated.0 authenticated.1
