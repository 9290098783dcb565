-- ===== src/Proposals/Decisions/Once.antt =====
-- ProposalRepository.decide: deciding again, under another key or the same.
use mathlib.Core.Path.{subst₂}
use mathlib.Core.Option
use tasks_management.Base.{
  ==_eq, Call, Error, Platform, arith, eq_iff, err, find_first, find_first-append, find_first-holds,
  find_first-single, find_first-update_where, if◌then◌else◌, list_eq, nat_eq, ok, option_eq, refl,
  some, string_eq, subst, sym, true, ◌==◌, ◌∙◌, ◌≡◌,
}
use tasks_management.Proposals.{pending, state_eq}
use tasks_management.Proposals.Models.{ProposalActor, ProposalDecisionCommand}
use tasks_management.Store.{Db, Proposal}
use tasks_management.Proposals.Repository.{
  StoredProposal, decidable_row, decide, decided_before, decided_row, decision_target, is_proposal,
  new_decision, view,
}
use tasks_management.Proposals.Decisions.{
  IsFresh, decidable_self, decide-eq-ok, decide_fresh, decide_row_conflict, decided_db, found_after,
  in_scope-eq-some, is_decision,
}

module _ (platform : Platform) (call : Call) (command : ProposalDecisionCommand)
    (actor : ProposalActor) where
  -- A proposal is decided once: after a fresh decision succeeds, another decision under a new key of the
  -- same environment that names the same version fails, whoever takes it.
  pub decide_once :
      (db : Db) {v : StoredProposal} {db' : Db}
      → IsFresh actor command db
      → decide platform call command actor db ≡ ok (v, db')
      → (call2 : Call) (command2 : ProposalDecisionCommand) (actor2 : ProposalActor)
      → actor2.environment ≡ actor.environment
      → command2.proposal_id ≡ command.proposal_id
      → command2.expected_version ≡ command.expected_version
      → IsFresh actor2 command2 db'
      → (e : Error) × (decide platform call2 command2 actor2 db' ≡ err e)
  decide_once db {v} {db'} fresh h call2 command2 actor2 same_env same_id same_version fresh2 =
      let (r, row, version, was, seen, after) =
        decide-eq-ok platform call command actor db fresh h in
      let (found, scoped) = in_scope-eq-some platform call command actor _ row in
      let moved = decided_row (decision_target r command) r in
      let again : find_first (is_proposal command2.proposal_id actor2.environment) db'.proposals
          ≡ some moved =
        rw (same_id, same_env, after)
          (found_after platform call command actor db r found version was) in
      let (e, fails) =
        decide_row_conflict platform call2 command2 actor2 moved db' (ground arith) in
      (e, rw (decide_fresh platform call2 command2 actor2 db' fresh2) (rw again fails))

  new_decision_is :
      (r : Proposal) → is_decision actor command (new_decision call command actor r) ≡ true
  unfolding new_decision
  new_decision_is r = ground (
    arith,
    eq_iff actor.environment actor.environment,
    eq_iff command.idempotency_key command.idempotency_key,
  )

  replay_decided :
      (call2 : Call) (db : Db) (r : Proposal)
      → IsFresh actor command db
      → find_first (is_proposal command.proposal_id actor.environment) db.proposals ≡ some r
      → find_first (λ x. x.id == command.proposal_id) db.proposals ≡ some r
      → r.version ≡ command.expected_version
      → r.state ≡ pending
      → let after = decided_db platform call command actor r db in
        decide platform call2 command actor after
        ≡ ok (view (decided_row (decision_target r command) r), after)
  unfolding decide decided_before new_decision
  replay_decided call2 db r fresh found by_id version was =
      let after = decided_db platform call command actor r db in
      let taken = new_decision call command actor r in
      let named : r.id ≡ command.proposal_id =
        ==_eq {a = r.id}
          (find_first-holds (λ x. x.id == command.proposal_id) db.proposals r by_id) in
      let dup : find_first (is_decision actor command) after.decisions ≡ some taken =
        rw find_first-append
          (rw fresh (find_first-single (is_decision actor command) taken (new_decision_is r))) in
      let current : find_first (λ x. x.id == r.id) after.proposals
          ≡ some (decided_row (decision_target r command) r) =
        rw
          (find_first-update_where (λ x. x.id == r.id) (decidable_row r command)
            (decided_row (decision_target r command)) (λ x. refl) db.proposals)
          (subst
            (λ n.
              Option.map
                (λ x.
                  if decidable_row r command x
                  then decided_row (decision_target r command) x
                  else x)
                (find_first (λ x. x.id == n) db.proposals)
              ≡ some (decided_row (decision_target r command) r))
            (sym named)
            (rw by_id (rw (decidable_self platform call command actor r version was)))) in
      rw (dup, decide) (rw current refl)

  -- Taking a decision again under its key changes nothing and answers with the same proposal, provided
  -- that the proposal's id names one row.
  pub decide_again :
      (db : Db) {v : StoredProposal} {db' : Db}
      → IsFresh actor command db
      → decide platform call command actor db ≡ ok (v, db')
      → find_first (λ r. r.id == command.proposal_id) db.proposals
        ≡ find_first (is_proposal command.proposal_id actor.environment) db.proposals
      → (call2 : Call) → decide platform call2 command actor db' ≡ ok (v, db')
  decide_again db {v} {db'} fresh h unique call2 =
      let (r, row, version, was, seen, after) =
        decide-eq-ok platform call command actor db fresh h in
      let (found, scoped) = in_scope-eq-some platform call command actor _ row in
      subst₂ (λ x y. decide platform call2 command actor y ≡ ok (x, y)) (sym seen) (sym after)
        (replay_decided call2 db r fresh found (unique ∙ found) version was)
