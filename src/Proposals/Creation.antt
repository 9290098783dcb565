-- ===== src/Proposals/Creation.antt =====
-- ProposalRepository.create: who may create a proposal, and creating one twice.
use tasks_management.Base.{
  ==_eq, ==_refl, Bool, Bool-cases, Call, Option-cases, Platform, [], and_intro, ap, contains,
  find_first, find_first-append, find_first-single, inl, inr, nat_eq, ok, ok-injective, option_eq,
  or_else, refl, some, string_eq, sym, true, ◌&&◌, ◌==◌, ◌∙◌, ◌∷◌, ◌≡◌,
}
use tasks_management.Proposals.{state_eq}
use tasks_management.Proposals.Models.{ProposalActor, ProposalCreateCommand}
use tasks_management.Store.{Db, Proposal}
use tasks_management.Proposals.Repository.{StoredProposal, create, new_proposal, view}

-- the query by the key of the command
abbrev has_create_key : ProposalActor → ProposalCreateCommand → Proposal → Bool
has_create_key actor command r =
    r.environment == actor.environment && r.idempotency_key == command.idempotency_key

abbrev pub IsAllowed : ProposalActor → ProposalCreateCommand → Type 0
IsAllowed actor command =
    (actor.environment ≡ command.simulation.environment)
    × (contains command.simulation.project_key actor.project_scopes ≡ true)

module _ (platform : Platform) where
  -- what a creation that succeeds has found or added
  create-eq-ok :
      (call : Call) (command : ProposalCreateCommand) (actor : ProposalActor) (v : StoredProposal)
      (db db' : Db)
      → create platform call command actor db ≡ ok (v, db')
      → IsAllowed actor command
        × ((r : Proposal) × (find_first (has_create_key actor command) db'.proposals ≡ some r)
            × (v ≡ view r))
  unfolding create new_proposal
  create-eq-ok call command actor v db db' h =
      let row = new_proposal call command actor in
      elim (Bool-cases (actor.environment == command.simulation.environment)) [
        | inr f ↦ absurd (cc (rw f at h))
        | inl t ↦ elim (Bool-cases (contains command.simulation.project_key actor.project_scopes)) [
          | inr f ↦ absurd (cc (rw (t, f) at h))
          | inl t2 ↦ (
            (==_eq {a = actor.environment} t, t2),
            elim (Option-cases (find_first (has_create_key actor command) db.proposals)) [
              | inl fresh ↦
                  let written = ok-injective (rw (t, t2, fresh) at h) in
                  (
                    row,
                    ap
                          (λ (y : StoredProposal × Db).
                            find_first (has_create_key actor command) y.1.proposals)
                          (sym written)
                        ∙ find_first-append (has_create_key actor command) db.proposals (row ∷ [])
                        ∙ ap (λ o. or_else o (find_first (has_create_key actor command) (row ∷ [])))
                            fresh
                        ∙ find_first-single (has_create_key actor command) row (
                            and_intro _ _ (==_refl actor.environment)
                              (==_refl command.idempotency_key)),
                    ap (λ (y : StoredProposal × Db). y.0) (sym written),
                  )
              | inr (old, seen) ↦
                  let found = ok-injective (rw (t, t2, seen) at h) in
                  (
                    old,
                    ap
                          (λ (y : StoredProposal × Db).
                            find_first (has_create_key actor command) y.1.proposals)
                          (sym found)
                        ∙ seen,
                    ap (λ (y : StoredProposal × Db). y.0) (sym found),
                  )
            ],
          )
        ]
      ]

  create_found :
      (call : Call) (command : ProposalCreateCommand) (actor : ProposalActor) (r : Proposal)
      (db : Db)
      → IsAllowed actor command
      → find_first (has_create_key actor command) db.proposals ≡ some r
      → create platform call command actor db ≡ ok (view r, db)
  unfolding create
  create_found call command actor r db (same, scoped) found =
      let home = (string_eq.same_iff actor.environment command.simulation.environment).1 same in
      rw (home, scoped, found, create) refl

  -- A creation that succeeds was asked for by an actor of the simulation's environment with the project in
  -- its scopes. Asking for it again under the same key, at any time, returns the same proposal and changes
  -- nothing.
  pub create_again :
      (call call' : Call) (command : ProposalCreateCommand) (actor : ProposalActor)
      (v : StoredProposal) (db db' : Db)
      → create platform call command actor db ≡ ok (v, db')
      → IsAllowed actor command × (create platform call' command actor db' ≡ ok (v, db'))
  create_again call call' command actor v db db' h =
      let (allowed, (r, found, shown)) = create-eq-ok call command actor v db db' h in
      (
        allowed,
        create_found call' command actor r db' allowed found ∙ ap (λ w. ok (w, db')) (sym shown),
      )
