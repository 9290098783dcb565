-- ===== src/Auth/Access.antt =====
-- ApiKeyService.authenticate: who is let in.
use tasks_management.Base.{
  ==_eq, Bool-cases, List, Option, String, arith, contains, false, find_first, inl, inr, nat_eq,
  none, ok, ok-injective, on_success_inv, option_eq, refl, some, string_eq, sym, true, ℕ, ◌<◌, ◌==◌,
  ◌≡◌, ◌⊎◌,
}
use tasks_management.Auth.{
  ApiKeyRecord, ApplicationRole, AuthenticatedPrincipal, admit, authenticate, has_digest, is_past,
  is_revoked, key_of, principal_of, role_eq,
}

-- a record that lets its owner in
abbrev pub IsUsable : ApiKeyRecord → String → String → List ApplicationRole → ℕ → Type 0
IsUsable r environment project_key allowed_roles now =
    (r.revoked_at ≡ none)
    × ((r.expires_at ≡ none) ⊎ ((t : ℕ) × (r.expires_at ≡ some t) × (now < t)))
    × (r.environment ≡ environment)
    × (contains project_key r.project_scopes ≡ true)
    × (contains r.role allowed_roles ≡ true)

not_past :
    (o : Option ℕ) (now : ℕ)
    → is_past o now ≡ false
    → (o ≡ none) ⊎ ((t : ℕ) × (o ≡ some t) × (now < t))
not_past none now h = inl refl
not_past (some t) now h = inr (t, refl, ground arith)

not_revoked : (o : Option ℕ) → is_revoked o ≡ false → o ≡ none
not_revoked none h = refl
not_revoked (some t) h = cc

admit-IsUsable :
    (o : Option ApiKeyRecord) (environment project_key : String)
    (allowed_roles : List ApplicationRole) (now : ℕ) (p : AuthenticatedPrincipal)
    → admit o environment project_key allowed_roles now ≡ ok p
    → (r : ApiKeyRecord) × (o ≡ some r)
      × IsUsable r environment project_key allowed_roles now
      × (p ≡ principal_of r)
unfolding admit
admit-IsUsable none environment project_key allowed_roles now p h = cc
admit-IsUsable (some r) environment project_key allowed_roles now p h =
    let env = string_eq.same_iff r.environment environment in
    elim (Bool-cases (is_revoked r.revoked_at)) [
      | inl t ↦ absurd (cc (rw t at h))
      | inr f0 ↦ elim (Bool-cases (is_past r.expires_at now)) [
        | inl t ↦ absurd (cc (rw (f0, t) at h))
        | inr f1 ↦ elim (Bool-cases (r.environment == environment)) [
          | inr f ↦ absurd (cc (rw (f0, f1, f) at h))
          | inl t2 ↦ elim (Bool-cases (contains project_key r.project_scopes)) [
            | inr f ↦ absurd (cc (rw (f0, f1, t2, f) at h))
            | inl t3 ↦ elim (Bool-cases (contains r.role allowed_roles)) [
              | inr f ↦ absurd (cc (rw (f0, f1, t2, t3, f) at h))
              | inl t4 ↦ (
                r,
                refl,
                (
                  not_revoked r.revoked_at f0,
                  not_past r.expires_at now f1,
                  ==_eq {a = r.environment} t2,
                  t3,
                  t4,
                ),
                sym (ok-injective (rw (f0, f1, t2, t3, t4) at h)),
              )
            ]
          ]
        ]
      ]
    ]

-- Whoever is authenticated presented a well-formed key, and the first record with the key's digest is not
-- revoked, not expired, of the environment, and covers the project and the role; the principal is its owner.
pub authenticate-IsUsable :
    (digest : String → String) (authorization : Option String) (records : List ApiKeyRecord)
    (environment project_key : String) (allowed_roles : List ApplicationRole) (now : ℕ)
    (p : AuthenticatedPrincipal)
    → authenticate digest authorization records environment project_key allowed_roles now ≡ ok p
    → (raw_key : String) × (r : ApiKeyRecord) × (key_of authorization ≡ ok raw_key)
      × (find_first (has_digest (digest raw_key)) records ≡ some r)
      × IsUsable r environment project_key allowed_roles now
      × (p ≡ principal_of r)
unfolding authenticate
authenticate-IsUsable digest authorization records environment project_key allowed_roles now p h =
    let (raw_key, well_formed, admitted) = on_success_inv _ (key_of authorization) p h in
    let (r, found, usable, owner) =
      admit-IsUsable (find_first (has_digest (digest raw_key)) records) environment project_key
        allowed_roles now p admitted in
    (raw_key, r, well_formed, found, usable, owner)
