-- ===== src/Proposals/Decisions.antt =====
-- ProposalRepository.decide: what a decision needs and what it changes.
pub mod Once
use mathlib.Core.Path.{subst₂}
use mathlib.Core.Option
use tasks_management.Base.{
  Bool, Bool-cases, Call, Error, Option, Platform, [], arith, contains, eq_iff, err, find_first,
  find_first-update_where, inl, inr, list_eq, nat_eq, none, ok, option_eq, permission_error, refl,
  some, string_eq, true, update_where, value_error, ◌&&◌, ◌++◌, ◌+◌, ◌<◌, ◌==◌, ◌∷◌, ◌≡◌, ◌≢◌,
}
use tasks_management.Proposals.{executing, pending, state_eq}
use tasks_management.Proposals.Models.{ProposalActor, ProposalDecisionCommand, approve, is_expired}
use tasks_management.Store.{Db, Decision, Proposal}
use tasks_management.Proposals.Repository.{
  StoredProposal, apply_decision, decidable_row, decide, decide_row, decided_entry, decided_row,
  decision_target, in_scope, is_proposal, moved_to, new_decision, view,
}
use tasks_management.Store.Audit.{append_audit}

abbrev pub is_decision : ProposalActor → ProposalDecisionCommand → Decision → Bool
is_decision actor command d =
    d.environment == actor.environment && d.idempotency_key == command.idempotency_key

-- no decision has been taken under this key
abbrev pub IsFresh : ProposalActor → ProposalDecisionCommand → Db → Type 0
IsFresh actor command db = find_first (is_decision actor command) db.decisions ≡ none

abbrev pub scoped_row : ProposalActor → ProposalDecisionCommand → Db → Option Proposal
scoped_row actor command db =
    in_scope actor (find_first (is_proposal command.proposal_id actor.environment) db.proposals)

module _ (platform : Platform) (call : Call) (command : ProposalDecisionCommand)
    (actor : ProposalActor) where
  abbrev pub decided_db : Proposal → Db → Db
  decided_db r db = record db {
    proposals =
        update_where (decidable_row r command) (decided_row (decision_target r command))
          db.proposals;
    decisions = db.decisions ++ new_decision call command actor r ∷ [];
    audit =
        append_audit platform call 1 actor.environment
          (decided_entry actor r.state (moved_to (decision_target r command) r)
            (decision_target r command))
          db.audit;
  }

  pub decide_row-eq-ok :
      (row : Option Proposal) (db : Db) {v : StoredProposal} {db' : Db}
      → decide_row platform call command actor row db ≡ ok (v, db')
      → (r : Proposal) × (row ≡ some r)
        × (r.version ≡ command.expected_version)
        × (r.state ≡ pending)
        × (v ≡ view (decided_row (decision_target r command) r))
        × (db' ≡ decided_db r db)
  unfolding decide_row apply_decision
  decide_row-eq-ok none db h = cc
  decide_row-eq-ok (some r) db {v} {db'} h =
      (r, refl, ground (arith), ground (arith), ground arith, ground arith)

  -- A decision that succeeds under a new key was taken on a pending proposal of the actor's
  -- environment and project scopes, at the version that the command names; the proposal moves to the
  -- chosen state, its version rises by two, and the decision and its audit event are recorded.
  pub decide-eq-ok :
      (db : Db) {v : StoredProposal} {db' : Db}
      → IsFresh actor command db
      → decide platform call command actor db ≡ ok (v, db')
      → (r : Proposal) × (scoped_row actor command db ≡ some r)
        × (r.version ≡ command.expected_version)
        × (r.state ≡ pending)
        × (v ≡ view (decided_row (decision_target r command) r))
        × (db' ≡ decided_db r db)
  unfolding decide
  decide-eq-ok db {v} {db'} fresh h =
      decide_row-eq-ok (scoped_row actor command db) db (rw (fresh, decide) at h)

  pub in_scope-eq-some :
      (row : Option Proposal) {r : Proposal}
      → in_scope actor row ≡ some r
      → (row ≡ some r) × (contains r.project_key actor.project_scopes ≡ true)
  in_scope-eq-some none h = cc
  in_scope-eq-some (some x) {r} h = ground arith

  -- A fresh decision lets a proposal go on to execution only if the actor approves it, the proposal is
  -- in the actor's scopes, it has not expired, and its evidence has not changed since; its version rises by two.
  pub decide_to_executing :
      (db : Db) {v : StoredProposal} {db' : Db}
      → IsFresh actor command db
      → decide platform call command actor db ≡ ok (v, db')
      → v.state ≡ executing
      → (command.decision ≡ approve)
        × (command.decided_at < v.expires_at)
        × (v.evidence_fingerprint ≡ command.current_evidence_fingerprint)
        × (contains v.project_key actor.project_scopes ≡ true)
        × (v.version ≡ command.expected_version + 2)
  unfolding decision_target is_expired view
  decide_to_executing db {v} {db'} fresh h go =
      let (r, row, version, was, seen, after) = decide-eq-ok db fresh h in
      let (found, scoped) = in_scope-eq-some _ row in
      (
        ground arith,
        ground arith,
        ground (arith, eq_iff r.evidence_fingerprint command.current_evidence_fingerprint),
        ground arith,
        ground arith,
      )

  pub decidable_self :
      (r : Proposal)
      → r.version ≡ command.expected_version
      → r.state ≡ pending
      → decidable_row r command r ≡ true
  decidable_self r v s = ground (arith, eq_iff r.id r.id)

  -- the row that the deciding query finds after a decision is the moved one
  pub found_after :
      (db : Db) (r : Proposal)
      → find_first (is_proposal command.proposal_id actor.environment) db.proposals ≡ some r
      → r.version ≡ command.expected_version
      → r.state ≡ pending
      → find_first (is_proposal command.proposal_id actor.environment) (decided_db r db).proposals
        ≡ some (decided_row (decision_target r command) r)
  found_after db r found v s =
      rw
        (find_first-update_where (is_proposal command.proposal_id actor.environment)
          (decidable_row r command) (decided_row (decision_target r command)) (λ x. refl)
          db.proposals)
        (rw found (rw (decidable_self r v s)))

  pub decide_row_conflict :
      (r : Proposal) (db : Db)
      → r.version ≢ command.expected_version
      → (e : Error) × (decide_row platform call command actor (in_scope actor (some r)) db ≡ err e)
  decide_row_conflict r db conflict =
      elim (Bool-cases (contains r.project_key actor.project_scopes)) [
        | inl scoped ↦
            (value_error "proposal version conflict", rw scoped (unfold decide_row in ground arith))
        | inr foreign ↦ (
          permission_error "proposal not found in authorized scope",
          rw foreign (unfold decide_row in refl),
        )
      ]

  pub decide_fresh :
      (db : Db)
      → IsFresh actor command db
      → decide platform call command actor db
        ≡ decide_row platform call command actor (scoped_row actor command db) db
  unfolding decide
  decide_fresh db fresh = rw (fresh, decide)
