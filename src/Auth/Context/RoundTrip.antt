-- ===== src/Auth/Context/RoundTrip.antt =====
-- InternalContextSigner: verify after sign.
use tasks_management.Base.{
  ==_refl, All, Bool, Bool-cases, List, Payload, String, [], all, and_left, and_right, arith,
  contains, eqb, false, inl, inr, leb, list_eq, nat_eq, ok, option_eq, refl, some, string_eq, suc,
  true, zero, ℕ, ◌++◌, ◌+◌, ◌<◌, ◌==◌, ◌||◌, ◌∙◌, ◌∷◌, ◌≡◌,
}
use tasks_management.Auth.Context.Authentic.{IsCurrent}
use tasks_management.Auth.{
  ApplicationRole, AuthenticatedPrincipal, administrator, manager, role_eq, viewer,
}
use tasks_management.Auth.Base64.{b64encode, encode, is_ascii, kept, letter, pads, rstrip_pads}
use tasks_management.Auth.Base64.RoundTrip.{IsByte, b64encode-IsAscii, decode-encode, dotless}
use tasks_management.Auth.Context.{
  Codec, Signer, VerifiedInternalContext, a_role, an_environment, checked_context, claim_of, claims,
  dots, from_timestamp, role_value, same_signature, sign, split_dot, timestamp, validated, verify,
}

-- HMAC and JSON give bytes, and the payload that is dumped is loaded again.
pub record IsCodec (c : Codec) (p : Payload) : Type 0 where
  pub digest_bytes : (secret text : List ℕ) → All IsByte (c.hmac_sha256 secret text)
  pub dumps_bytes : All IsByte (c.dumps p)
  pub loads-dumps : c.loads (c.dumps p) ≡ some p

dots-letter : (v : ℕ) (xs : List ℕ) → v < 64 → dots xs ≡ 0 → dots (letter v ∷ xs) ≡ 0
unfolding dots
dots-letter v xs small h = rw (dotless v small, h) refl

dots-pads : (n : ℕ) → dots (pads n) ≡ 0
unfolding dots pads
dots-pads zero = refl
dots-pads (suc n) = dots-pads n

dots-b64encode : (bs : List ℕ) → All IsByte bs → dots (b64encode bs) ≡ 0
unfolding b64encode pads
dots-b64encode [] h = dots-pads 0
dots-b64encode (a ∷ []) (ha, h) =
    dots-letter _ _ (omega arith) (dots-letter _ _ (omega arith) (dots-pads 2))
dots-b64encode (a ∷ b ∷ []) (ha, (hb, h)) =
    dots-letter _ _ (omega arith)
      (dots-letter _ _ (omega arith) (dots-letter _ _ (omega arith) (dots-pads 1)))
dots-b64encode (a ∷ b ∷ c ∷ rest) (ha, (hb, (hc, h))) = dots-letter _ _ (omega arith) (
    dots-letter _ _ (omega arith)
      (dots-letter _ _ (omega arith) (dots-letter _ _ (omega arith) (dots-b64encode rest h))))

kept-dots :
    (b : Bool) (rest : List ℕ) (x : ℕ) → dots rest ≡ 0 → eqb x 46 ≡ false → dots (kept b rest x) ≡ 0
unfolding dots
kept-dots true [] x h k = refl
kept-dots true (y ∷ ys) x h k = rw k h
kept-dots false rest x h k = rw k h

dots-rstrip_pads : (xs : List ℕ) → dots xs ≡ 0 → dots (rstrip_pads xs) ≡ 0
unfolding dots rstrip_pads
dots-rstrip_pads [] h = refl
dots-rstrip_pads (x ∷ xs) h = elim (Bool-cases (eqb x 46)) [
  | inl t ↦ absurd (omega (arith, rw t at h))
  | inr f ↦ kept-dots (eqb x 61) (rstrip_pads xs) x (dots-rstrip_pads xs (rw f at h)) f
]

kept-IsAscii :
    (b : Bool) (rest : List ℕ) (x : ℕ)
    → all is_ascii rest ≡ true
    → is_ascii x ≡ true
    → all is_ascii (kept b rest x) ≡ true
unfolding all
kept-IsAscii true [] x h k = refl
kept-IsAscii true (y ∷ ys) x h k = rw k h
kept-IsAscii false rest x h k = rw k h

rstrip_pads-IsAscii : (xs : List ℕ) → all is_ascii xs ≡ true → all is_ascii (rstrip_pads xs) ≡ true
unfolding all rstrip_pads
rstrip_pads-IsAscii [] h = refl
rstrip_pads-IsAscii (x ∷ xs) h =
    kept-IsAscii (eqb x 61) (rstrip_pads xs) x
      (rstrip_pads-IsAscii xs (and_right (is_ascii x) (all is_ascii xs) h))
      (and_left (is_ascii x) (all is_ascii xs) h)

dots-encode : (bs : List ℕ) → All IsByte bs → dots (encode bs) ≡ 0
unfolding encode
dots-encode bs h = dots-rstrip_pads (b64encode bs) (dots-b64encode bs h)

encode-IsAscii : (bs : List ℕ) → All IsByte bs → all is_ascii (encode bs) ≡ true
unfolding encode
encode-IsAscii bs h = rstrip_pads-IsAscii (b64encode bs) (b64encode-IsAscii bs h)

split_dot-join : (xs ys : List ℕ) → dots xs ≡ 0 → split_dot (xs ++ 46 ∷ ys) ≡ (xs, ys)
unfolding split_dot dots
split_dot-join [] ys h = refl
split_dot-join (x ∷ xs) ys h = elim (Bool-cases (eqb x 46)) [
  | inl t ↦ absurd (omega (arith, rw t at h))
  | inr f ↦ rw (f, split_dot-join xs ys (rw f at h)) refl
]

dots-join : (xs ys : List ℕ) → dots xs ≡ 0 → dots ys ≡ 0 → dots (xs ++ 46 ∷ ys) ≡ 1
unfolding dots
dots-join [] ys h k = rw k refl
dots-join (x ∷ xs) ys h k = elim (Bool-cases (eqb x 46)) [
  | inl t ↦ absurd (omega (arith, rw t at h))
  | inr f ↦ rw f (dots-join xs ys (rw f at h) k)
]

abbrev pub signed_context : Signer → AuthenticatedPrincipal → String → ℕ → VerifiedInternalContext
signed_context s p correlation_id issued = record {
  principal = p;
  correlation_id = correlation_id;
  expires_at = from_timestamp (timestamp (issued + s.lifetime));
}

abbrev pub IsEnvironment : String → Type 0
IsEnvironment e = (e == "dev" || e == "prod" || e == "test") ≡ true

a_role-role_value : (r : ApplicationRole) → a_role (some (role_value r)) ≡ some r
unfolding a_role
a_role-role_value viewer = refl
a_role-role_value manager = refl
a_role-role_value administrator = refl

validated-claims :
    (p : AuthenticatedPrincipal) (correlation_id : String) (expires : ℕ)
    → IsEnvironment p.environment
    → validated (some (claims p correlation_id expires))
      ≡ some (record {
        principal = p;
        correlation_id = correlation_id;
        expires_at = from_timestamp expires;
      })
unfolding validated claims claim_of contains an_environment all
validated-claims p correlation_id expires h = rw (h, a_role-role_value p.role) refl

sign_lem :
    (c : Codec) (s : Signer) (p : AuthenticatedPrincipal) (correlation_id : String) (issued : ℕ)
    (laws : IsCodec c (claims p correlation_id (timestamp (issued + s.lifetime))))
    (environment project : String) (roles : List ApplicationRole) (now : ℕ)
    → IsEnvironment p.environment
    → verify c s (some (sign c s p correlation_id issued)) environment project roles now
      ≡ checked_context
          (some (signed_context s p correlation_id issued))
          environment
          project
          roles
          now
unfolding verify sign same_signature
sign_lem c s p correlation_id issued laws environment project roles now literal =
    let text = c.dumps (claims p correlation_id (timestamp (issued + s.lifetime))) in
    let bytes : All IsByte text = laws.dumps_bytes in
    let proof = c.hmac_sha256 s.secret (encode text) in
    let proof_bytes : All IsByte proof = laws.digest_bytes _ _ in
    rw
      (
        dots-join (encode text) (encode proof) (dots-encode text bytes)
            (dots-encode proof proof_bytes),
        split_dot-join (encode text) (encode proof) (dots-encode text bytes),
        encode-IsAscii proof proof_bytes,
        ==_refl (encode proof),
        decode-encode text bytes,
        laws.loads-dumps,
        validated-claims p correlation_id (timestamp (issued + s.lifetime)) literal,
      )
      refl

-- What a signer signs, it verifies: while the signed context is current for the caller's environment, project and roles,
-- verifying gives back the principal and the correlation id, with the expiry the signer set, in whole seconds.
pub verify-sign :
    (c : Codec) (s : Signer) (p : AuthenticatedPrincipal) (correlation_id : String) (issued : ℕ)
    (laws : IsCodec c (claims p correlation_id (timestamp (issued + s.lifetime))))
    (environment project : String) (roles : List ApplicationRole) (now : ℕ)
    → IsEnvironment p.environment
    → IsCurrent (signed_context s p correlation_id issued) environment project roles now
    → verify c s (some (sign c s p correlation_id issued)) environment project roles now
      ≡ ok (signed_context s p correlation_id issued)
unfolding checked_context
verify-sign c s p correlation_id issued laws environment project roles now literal
      (current, env, scope, role) =
    let early : leb (from_timestamp (timestamp (issued + s.lifetime))) now ≡ false = ground arith in
    let same : (p.environment == environment) ≡ true =
      (string_eq.same_iff p.environment environment).1 env in
    sign_lem c s p correlation_id issued laws environment project roles now literal
    ∙ rw (early, same, scope, role) refl
