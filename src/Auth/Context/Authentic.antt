-- ===== src/Auth/Context/Authentic.antt =====
-- InternalContextSigner.verify: what it takes for a token to be accepted.
use tasks_management.Base.{
  ==_eq, Bool-cases, List, Option, String, all, arith, contains, eqb, eqb_iff, inl, inr, leb,
  list_eq, nat_eq, none, ok, ok-injective, on_success_inv, option_eq, refl, some, string_eq, subst,
  true, ℕ, ◌<◌, ◌==◌, ◌≡◌,
}
use tasks_management.Auth.{ApplicationRole, role_eq}
use tasks_management.Auth.Base64.{decode, is_ascii}
use tasks_management.Auth.Context.{
  Codec, Signer, VerifiedInternalContext, checked_context, dots, loaded, same_signature, signature,
  split_dot, validated, verify,
}

-- a context that lets its bearer in
abbrev pub IsCurrent : VerifiedInternalContext → String → String → List ApplicationRole → ℕ → Type 0
IsCurrent context environment project roles now =
    (now < context.expires_at)
    × (context.principal.environment ≡ environment)
    × (contains project context.principal.project_scopes ≡ true)
    × (contains context.principal.role roles ≡ true)

same_signature_inv :
    (supplied expected : List ℕ) (u : Unit {0})
    → same_signature supplied expected ≡ ok u
    → supplied ≡ expected
unfolding same_signature
same_signature_inv supplied expected u h = elim (Bool-cases (all is_ascii supplied)) [
  | inr f ↦ absurd (cc (rw f at h))
  | inl t ↦ elim (Bool-cases (supplied == expected)) [
    | inr f ↦ absurd (cc (rw (t, f) at h))
    | inl t2 ↦ ==_eq {a = supplied} t2
  ]
]

checked_context_inv :
    (o : Option VerifiedInternalContext) (environment project : String)
    (roles : List ApplicationRole) (now : ℕ) (context : VerifiedInternalContext)
    → checked_context o environment project roles now ≡ ok context
    → (o ≡ some context) × IsCurrent context environment project roles now
unfolding checked_context
checked_context_inv none environment project roles now context h = cc
checked_context_inv (some x) environment project roles now context h =
    elim (Bool-cases (leb x.expires_at now)) [
      | inl t ↦ absurd (cc (rw t at h))
      | inr f0 ↦ elim (Bool-cases (x.principal.environment == environment)) [
        | inr f ↦ absurd (cc (rw (f0, f) at h))
        | inl t1 ↦ elim (Bool-cases (contains project x.principal.project_scopes)) [
          | inr f ↦ absurd (cc (rw (f0, t1, f) at h))
          | inl t2 ↦ elim (Bool-cases (contains x.principal.role roles)) [
            | inr f ↦ absurd (cc (rw (f0, t1, t2, f) at h))
            | inl t3 ↦
                let same : x ≡ context = ok-injective (rw (f0, t1, t2, t3) at h) in
                subst (λ y. (some x ≡ some y) × IsCurrent y environment project roles now) same
                  (refl, (ground (arith, f0), ==_eq {a = x.principal.environment} t1, t2, t3))
          ]
        ]
      ]
    ]

-- Whatever token is accepted has one "." and behind it the signature, under the secret, of what stands before it; the
-- context is the one its claims are read as, it has not expired, is of the environment, and covers the project and the role.
pub verify-IsSigned :
    (c : Codec) (s : Signer) (token : Option (List ℕ)) (environment project : String)
    (roles : List ApplicationRole) (now : ℕ) (context : VerifiedInternalContext)
    → verify c s token environment project roles now ≡ ok context
    → (text : List ℕ) × (token ≡ some text)
      × (dots text ≡ 1)
      × ((split_dot text).1 ≡ signature c s (split_dot text).0)
      × (validated (loaded c (decode (split_dot text).0)) ≡ some context)
      × IsCurrent context environment project roles now
unfolding verify
verify-IsSigned c s none environment project roles now context h = cc
verify-IsSigned c s (some text) environment project roles now context h =
    let (encoded, supplied) = split_dot text in
    elim (Bool-cases (eqb (dots text) 1)) [
      | inr f ↦ absurd (cc (rw f at h))
      | inl t ↦
          let (u, signed, rest) =
            on_success_inv _ (same_signature (split_dot text).1 (signature c s (split_dot text).0))
              context (rw t at h) in
          let (read, current) =
            checked_context_inv (validated (loaded c (decode (split_dot text).0))) environment
              project roles now context rest in
          (
            text,
            refl,
            (eqb_iff (dots text) 1).0 t,
            same_signature_inv (split_dot text).1 (signature c s (split_dot text).0) u signed,
            read,
            current,
          )
    ]
