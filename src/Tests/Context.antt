-- ===== src/Tests/Context.antt =====
-- A principal that the agent hands to the MCP server.
use tasks_management.Base.{
  List, Payload, [], arith, contains, list_eq, nat_eq, ok, option_eq, refl, some, string_eq, ℕ, ◌∷◌,
  ◌≡◌,
}
use tasks_management.Auth.{AuthenticatedPrincipal, manager, role_eq}
use tasks_management.Auth.Base64.{b64encode, decode, encode, letter, rstrip_pads}
use tasks_management.Auth.Context.{
  Codec, Signer, claims, dots, loaded, sign, signature, split_dot, validated, verify,
}
use tasks_management.Auth.Context.Authentic.{IsCurrent, verify-IsSigned}
use tasks_management.Auth.Context.RoundTrip.{IsCodec, signed_context, verify-sign}

abbrev p : AuthenticatedPrincipal
p = record {
  actor_id = "m1";
  display_label = "Manager";
  role = manager;
  environment = "dev";
  project_scopes = "WRD" ∷ [];
}

abbrev signer : Signer
signer = record { secret = 7 ∷ []; lifetime = 60_000_000 }

-- base64 of a few bytes
encoded : encode (77 ∷ 97 ∷ 110 ∷ 255 ∷ []) ≡ 84 ∷ 87 ∷ 70 ∷ 117 ∷ 95 ∷ 119 ∷ []
unfolding encode b64encode rstrip_pads letter
encoded = refl

abbrev payload : Payload
payload = claims p "corr-1" 61

abbrev codec : Codec
codec = record {
  hmac_sha256 = λ secret text. 1 ∷ 250 ∷ [];
  dumps = λ p. 123 ∷ 125 ∷ [];
  loads = λ text. some payload;
}

codec-IsCodec : IsCodec codec payload
codec-IsCodec = record {
  digest_bytes = λ secret text. (omega arith, (omega arith, tt));
  dumps_bytes = (omega arith, (omega arith, tt));
  loads-dumps = refl;
}

current :
    IsCurrent (signed_context signer p "corr-1" 1_500_000) "dev" "WRD" (manager ∷ []) 9_000_000
unfolding contains
current = (omega arith, refl, refl, refl)

verify-sign_example :
    verify codec signer
      (some (sign codec signer p "corr-1" 1_500_000))
      "dev"
      "WRD"
      (manager ∷ [])
      9_000_000
    ≡ ok (signed_context signer p "corr-1" 1_500_000)
verify-sign_example =
    verify-sign codec signer p "corr-1" 1_500_000 codec-IsCodec "dev" "WRD" (manager ∷ []) 9_000_000
      refl current

verify-IsSigned_example :
    (text : List ℕ) × (some (sign codec signer p "corr-1" 1_500_000) ≡ some text)
    × (dots text ≡ 1)
    × ((split_dot text).1 ≡ signature codec signer (split_dot text).0)
    × (validated (loaded codec (decode (split_dot text).0))
        ≡ some (signed_context signer p "corr-1" 1_500_000))
    × IsCurrent (signed_context signer p "corr-1" 1_500_000) "dev" "WRD" (manager ∷ []) 9_000_000
verify-IsSigned_example =
    verify-IsSigned codec signer (some (sign codec signer p "corr-1" 1_500_000)) "dev" "WRD"
      (manager ∷ []) 9_000_000 (signed_context signer p "corr-1" 1_500_000) verify-sign_example
