-- ===== src/Proposals/Lifecycle/Transactions.antt =====
-- What each transaction of the proposals does to the row of a proposal.
use tasks_management.Base.{
  ==_eq, Bool, Bool-cases, Call, List, Option, Option-cases, Platform, String, and_right, ap, arith,
  contains, find_first, find_first-holds, fun_ext, inl, inr, list_eq, nat_eq, none, ok,
  ok-injective, on_success_inv, option_eq, refl, some, string_eq, subst, sym, true, update_where, ℕ,
  ◌&&◌, ◌+◌, ◌==◌, ◌||◌, ◌∙◌, ◌≡◌,
}
use tasks_management.Proposals.Decisions.{decide_row-eq-ok, is_decision}
use tasks_management.Proposals.{
  ProposalState, allowed_transitions, executing, pending, state_eq, uncertain, validate_transition,
}
use tasks_management.Proposals.Models.{
  ProposalActor, ProposalCreateCommand, ProposalDecisionCommand,
}
use tasks_management.Store.{Db, Execution, ExecutionRecord, Proposal}
use tasks_management.Proposals.Repository.{
  StoredProposal, create, decidable_row, decide, decide_row, decided_before, decided_row,
  decision_target, new_proposal,
}
use tasks_management.Proposals.Execution.Store.{
  ExecutionClaim, ExecutionResult, Prepared, finalize_rows, has_proposal_id, is_active,
  is_execution, is_execution_of, mark_write_attempted, prepare, settled, start_execution,
  with_uncertain_event,
}
use tasks_management.Proposals.Reconciliation.Store.{
  LeaseConfig, ReconciliationClaim, lease_abandoned, lease_proposal, resolve_rows,
}
use tasks_management.Proposals.Lifecycle.{RowEvolves, row_of}
use tasks_management.Proposals.Lifecycle.Rows.{appended, legal, unchanged, updated}

pub create-Evolves :
    (platform : Platform) (id : String) (call : Call) (command : ProposalCreateCommand)
    (actor : ProposalActor) (v : StoredProposal) (db db' : Db)
    → create platform call command actor db ≡ ok (v, db')
    → RowEvolves id db db'
unfolding create
create-Evolves platform id call command actor v db db' h =
    elim (Bool-cases (actor.environment == command.simulation.environment)) [
      | inr f ↦ absurd (cc (rw f at h))
      | inl t ↦ elim (Bool-cases (contains command.simulation.project_key actor.project_scopes)) [
        | inr f ↦ absurd (cc (rw (t, f) at h))
        | inl t2 ↦
            elim (Option-cases (
              find_first
                (λ r.
                  r.environment == actor.environment
                  && r.idempotency_key == command.idempotency_key)
                db.proposals)) [
                  | inl fresh ↦ appended id db db' (new_proposal call command actor) (
                      ap (λ (y : StoredProposal × Db). y.1.proposals)
                        (sym (ok-injective (rw (t, t2, fresh) at h))))
                  | inr (old, seen) ↦ unchanged id db db' (
                      ap (λ (y : StoredProposal × Db). y.1.proposals)
                        (sym (ok-injective (rw (t, t2, seen) at h))))
                ]
      ]
    ]

pub target_is_allowed :
    (command : ProposalDecisionCommand) (r : Proposal)
    → contains (decision_target r command) (allowed_transitions pending) ≡ true
unfolding decision_target contains allowed_transitions
target_is_allowed command r = ground arith

pub target_legal :
    (command : ProposalDecisionCommand) (r x : Proposal)
    → decidable_row r command x ≡ true
    → contains (decision_target r command) (allowed_transitions x.state) ≡ true
target_legal command r x matches =
    let was : x.state ≡ pending = ==_eq {a = x.state} (and_right _ _ matches) in
    rw was (target_is_allowed command r)

-- two increments are one by two
twice :
    (q : Proposal → Bool) (target : ProposalState) (rows : List Proposal)
    → update_where q (decided_row target) rows
      ≡ update_where q (λ r. record r { state = target; version = r.version + 2 }) rows
twice q target rows =
    ap (λ (f : Proposal → Proposal). update_where q f rows)
      (fun_ext λ r. ap (λ n. record r { state = target; version = n }) (omega arith))

pub decided :
    (platform : Platform) (call : Call) (command : ProposalDecisionCommand) (actor : ProposalActor)
    (id : String) (row : Option Proposal) (v : StoredProposal) (db db' : Db)
    → decide_row platform call command actor row db ≡ ok (v, db')
    → RowEvolves id db db'
decided platform call command actor id row v db db' h =
    let (r, found, version, was, seen, after) =
      decide_row-eq-ok platform call command actor row db h in
    updated id db db' (decidable_row r command) (decision_target r command) 2 (omega arith)
      (omega arith)
      (ap (λ (d : Db). d.proposals) after
        ∙ twice (decidable_row r command) (decision_target r command) db.proposals)
      (λ x at_id matches. target_legal command r x matches)

pub replayed :
    (platform : Platform) (id : String) (row : Option Proposal) (v : StoredProposal) (db db' : Db)
    → decided_before platform row db ≡ ok (v, db')
    → RowEvolves id db db'
unfolding decided_before
replayed platform id none v db db' h = cc
replayed platform id (some r) v db db' h =
    unchanged id db db' (ap (λ (y : StoredProposal × Db). y.1.proposals) (sym (ok-injective h)))

pub decide-Evolves :
    (platform : Platform) (id : String) (call : Call) (command : ProposalDecisionCommand)
    (actor : ProposalActor) (v : StoredProposal) (db db' : Db)
    → decide platform call command actor db ≡ ok (v, db')
    → RowEvolves id db db'
unfolding decide
decide-Evolves platform id call command actor v db db' h =
    elim (Option-cases (find_first (is_decision actor command) db.decisions)) [
      | inl fresh ↦ decided platform call command actor id _ v db db' (rw (fresh, decide) at h)
      | inr (old, seen) ↦ replayed platform id _ v db db' (rw (seen, decide) at h)
    ]

pub proposals-with_uncertain_event :
    (call : Call) (n : ℕ) (env : String) (next_state : ProposalState) (a b c d : String) (db : Db)
    → (with_uncertain_event call n env next_state a b c d db).proposals ≡ db.proposals
unfolding with_uncertain_event
proposals-with_uncertain_event call n env next_state a b c d db = ground arith

-- the row that has the identifier, and is updated, is the one that was locked
pub same_row :
    (target : ProposalState) (cid id : String) (x p : Proposal) (db : Db)
    → row_of id db ≡ some x
    → has_proposal_id cid x ≡ true
    → row_of cid db ≡ some p
    → contains target (allowed_transitions p.state) ≡ true
    → contains target (allowed_transitions x.state) ≡ true
same_row target cid id x p db at_id matches found valid =
    let own : x.id ≡ id =
      ==_eq {a = x.id} (find_first-holds (has_proposal_id id) db.proposals x at_id) in
    let same : id ≡ cid = sym own ∙ ==_eq {a = x.id} matches in
    let row : some x ≡ some p = sym at_id ∙ ap (λ i. row_of i db) same ∙ found in
    let equal : x ≡ p = cc row in
    subst (λ (y : Proposal). contains target (allowed_transitions y.state) ≡ true) (sym equal) valid

pub finalize_rows-Evolves :
    (platform : Platform) (env id : String) (call : Call) (claim : ExecutionClaim)
    (result x : ExecutionResult) (e : Option Execution) (p : Option Proposal) (db db' : Db)
    → row_of claim.proposal_id db ≡ p
    → finalize_rows platform env call claim result e p db ≡ ok (x, db')
    → RowEvolves id db db'
unfolding finalize_rows
finalize_rows-Evolves platform env id call claim result x (some e) (some p) db db' found h =
    elim (Bool-cases (e.state == executing)) [
      | inr late ↦
          unchanged id db db'
            (ap (λ (y : ExecutionResult × Db). y.1.proposals) (sym (ok-injective (rw late at h))))
      | inl active ↦
          let (_, valid, after) =
            on_success_inv _ (validate_transition p.state result.state) _ (rw active at h) in
          updated id db db' (has_proposal_id claim.proposal_id) result.state 1 (omega arith)
            (omega arith)
            (sym (ap (λ (y : ExecutionResult × Db). y.1.proposals) (ok-injective after))
              ∙ proposals-with_uncertain_event call 1 env result.state claim.execution_id
                  claim.proposal_id claim.issue_key claim.correlation_id _)
            (λ x at_id matches.
              same_row result.state claim.proposal_id id x p db at_id matches found
                (legal p.state result.state valid))
    ]
finalize_rows-Evolves platform env id call claim result x none p db db' found h = cc
finalize_rows-Evolves platform env id call claim result x (some e) none db db' found h = cc

pub resolve_rows-Evolves :
    (platform : Platform) (env id : String) (call : Call) (claim : ReconciliationClaim)
    (next_state : ProposalState) (evidence : ExecutionRecord) (e : Option Execution)
    (p : Option Proposal) (db db' : Db)
    → row_of claim.proposal_id db ≡ p
    → resolve_rows platform env call claim next_state evidence e p db ≡ ok db'
    → RowEvolves id db db'
unfolding resolve_rows
resolve_rows-Evolves platform env id call claim next_state evidence (some e) (some p) db db' found
      h =
    elim (Bool-cases (e.state == next_state)) [
      | inl settled ↦
          unchanged id db db' (ap (λ (y : Db). y.proposals) (sym (ok-injective (rw settled at h))))
      | inr differs ↦ elim (Bool-cases (e.state == executing || e.state == uncertain)) [
        | inr late ↦
            unchanged id db db'
              (ap (λ (y : Db). y.proposals) (sym (ok-injective (rw (differs, late) at h))))
        | inl active ↦
            let (_, valid, after) =
              on_success_inv _ (validate_transition p.state next_state) _
                (rw (differs, active) at h) in
            updated id db db' (has_proposal_id claim.proposal_id) next_state 1 (omega arith)
              (omega arith)
              (sym (ap (λ (y : Db). y.proposals) (ok-injective after))
                ∙ proposals-with_uncertain_event call 1 env next_state claim.execution_id
                    claim.proposal_id claim.issue_key claim.correlation_id _)
              (λ x at_id matches.
                same_row next_state claim.proposal_id id x p db at_id matches found
                  (legal p.state next_state valid))
      ]
    ]
resolve_rows-Evolves platform env id call claim next_state evidence none p db db' found h = cc
resolve_rows-Evolves platform env id call claim next_state evidence (some e) none db db' found h =
    cc

pub proposals-start_execution :
    (platform : Platform) (env : String) (call : Call) (p correlation : String)
    (row : Option Proposal) (x : Prepared) (db db' : Db)
    → start_execution platform env call p correlation row db ≡ ok (x, db')
    → db'.proposals ≡ db.proposals
unfolding start_execution
proposals-start_execution platform env call p correlation none x db db' h = cc
proposals-start_execution platform env call p correlation (some r) x db db' h =
    elim (Bool-cases (r.state == executing)) [
      | inl t ↦ sym (ap (λ (y : Prepared × Db). y.1.proposals) (ok-injective (rw t at h)))
      | inr f ↦ absurd (cc (rw f at h))
    ]

pub proposals-prepare :
    (platform : Platform) (env : String) (call : Call) (p correlation : String) (x : Prepared)
    (db db' : Db)
    → prepare platform env call p correlation db ≡ ok (x, db')
    → db'.proposals ≡ db.proposals
unfolding prepare
proposals-prepare platform env call p correlation x db db' h =
    elim (Option-cases (find_first (is_execution_of env p) db.executions)) [
      | inl fresh ↦
          proposals-start_execution platform env call p correlation _ x db db'
            (rw (fresh, prepare) at h)
      | inr (old, seen) ↦
          sym (ap (λ (y : Prepared × Db). y.1.proposals) (ok-injective (rw (seen, prepare) at h)))
    ]

pub proposals-mark :
    (env : String) (claim : ExecutionClaim) (db db' : Db)
    → mark_write_attempted env claim db ≡ ok db'
    → db'.proposals ≡ db.proposals
unfolding mark_write_attempted
proposals-mark env claim db db' h =
    elim (Bool-cases (is_active (find_first (is_execution env claim.execution_id) db.executions))) [
      | inl t ↦ sym (ap (λ (y : Db). y.proposals) (ok-injective (rw t at h)))
      | inr f ↦ absurd (cc (rw f at h))
    ]

pub proposals-lease_abandoned :
    (config : LeaseConfig) (now : ℕ) (worker : String) (limit : ℕ) (db : Db)
    → (lease_abandoned config now worker limit db).1.proposals ≡ db.proposals
unfolding lease_abandoned
proposals-lease_abandoned config now worker limit db = refl

pub proposals-lease_proposal :
    (config : LeaseConfig) (now : ℕ) (id worker : String) (db : Db)
    → (lease_proposal config now id worker db).1.proposals ≡ db.proposals
unfolding lease_proposal
proposals-lease_proposal config now id worker db = ground arith
