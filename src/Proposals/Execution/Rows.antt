-- ===== src/Proposals/Execution/Rows.antt =====
-- DatabaseExecutionStore: what its methods do to the row of an execution.
use tasks_management.Base.{
  Bool, Call, Option, Option-cases, Platform, Result, String, [], arith, eq_iff, find_first,
  find_first-append, find_first-holds, find_first-single, find_first-update_where, if◌then◌else◌,
  inl, inr, nat_eq, none, ok, option_eq, refl, some, string_eq, update_where, ℕ, ◌&&◌, ◌++◌, ◌==◌,
  ◌∷◌, ◌≡◌, ◌⊎◌,
}
use tasks_management.Proposals.{ProposalState, state_eq}
use tasks_management.Store.{Db, Execution, Proposal}
use tasks_management.Jira.Mutation.{call}
use tasks_management.Proposals.Execution.Store.{
  ExecutionClaim, ExecutionResult, Prepared, claim_of, claimed, finalize, finalize_rows, finished,
  is_execution, is_execution_of, mark_write_attempted, marked, new_execution, prepare, result_of,
  settled, start_execution, with_uncertain_event,
}

-- There is an execution row of the proposal.
abbrev pub HasExecution : String → String → Db → Type 0
HasExecution env proposal_id db =
    (r : Execution) × (find_first (is_execution_of env proposal_id) db.executions ≡ some r)

pub HasExecution-append :
    (env p : String) (db db' : Db) (r : Execution)
    → db'.executions ≡ db.executions ++ r ∷ []
    → HasExecution env p db
    → HasExecution env p db'
HasExecution-append env p db db' r e (old, found) = (old, rw e (rw find_first-append (rw found)))

pub HasExecution-update :
    (env p : String) (db db' : Db) (q : Execution → Bool) (f : Execution → Execution)
    → ((x : Execution) → is_execution_of env p (f x) ≡ is_execution_of env p x)
    → db'.executions ≡ update_where q f db.executions
    → HasExecution env p db
    → HasExecution env p db'
HasExecution-update env p db db' q f keep e (old, found) = (
  if q old then f old else old,
  rw e (rw (find_first-update_where (is_execution_of env p) q f keep db.executions) (rw found)),
)

pub with_uncertain_event-executions :
    (call : Call) (n : ℕ) (env : String) (s : ProposalState) (a b c d : String) (db : Db)
    → (with_uncertain_event call n env s a b c d db).executions ≡ db.executions
unfolding with_uncertain_event
with_uncertain_event-executions call n env s a b c d db = ground arith

module _ (platform : Platform) (env p : String) where
  -- `finalize` leaves the executions or settles the claimed one
  pub finalize_rows-executions :
      (call : Call) (claim : ExecutionClaim) (result : ExecutionResult)
      (execution : Option Execution) (proposal : Option Proposal) (db : Db) {r : ExecutionResult}
      {db' : Db}
      → finalize_rows platform env call claim result execution proposal db ≡ ok (r, db')
      → (db'.executions ≡ db.executions)
        ⊎ (db'.executions
            ≡ update_where (is_execution env claim.execution_id) (settled result) db.executions)
  unfolding finalize_rows with_uncertain_event
  finalize_rows-executions call claim result (some e) (some q) db {r} {db'} h = ground arith
  finalize_rows-executions call claim result none q db h = cc
  finalize_rows-executions call claim result (some e) none db h = cc

  pub finalize-HasExecution :
      (call : Call) (claim : ExecutionClaim) (result : ExecutionResult) (db : Db)
      {r : ExecutionResult} {db' : Db}
      → finalize platform env call claim result db ≡ ok (r, db')
      → HasExecution env p db
      → HasExecution env p db'
  unfolding finalize settled
  finalize-HasExecution call claim result db {r} {db'} h has =
      elim (finalize_rows-executions call claim result _ _ db h) [
        | inl same ↦ (has.0, rw same has.1)
        | inr settles ↦
            HasExecution-update env p db db' (is_execution env claim.execution_id) (settled result)
              (λ x. refl) settles has
      ]

  pub mark-HasExecution :
      (claim : ExecutionClaim) (db : Db) {db' : Db}
      → mark_write_attempted env claim db ≡ ok db'
      → HasExecution env p db
      → HasExecution env p db'
  unfolding mark_write_attempted marked
  mark-HasExecution claim db {db'} h has =
      HasExecution-update env p db db' (is_execution env claim.execution_id) marked (λ x. refl)
        (ground arith) has

  pub start_execution-eq-ok :
      (call : Call) (q corr : String) (proposal : Option Proposal) (db : Db) {x : Prepared}
      {db' : Db}
      → start_execution platform env call q corr proposal db ≡ ok (x, db')
      → (row : Proposal) × (proposal ≡ some row)
        × (x ≡ claimed (claim_of (new_execution call env row corr) env q row corr))
        × (db'.executions ≡ db.executions ++ new_execution call env row corr ∷ [])
  unfolding start_execution
  start_execution-eq-ok call q corr none db h = cc
  start_execution-eq-ok call q corr (some row) db {x} {db'} h =
      (row, refl, ground arith, ground arith)

  pub prepare_existing :
      (call : Call) (q corr : String) (db : Db) (r : Execution)
      → find_first (is_execution_of env q) db.executions ≡ some r
      → prepare platform env call q corr db ≡ ok (finished (result_of r), db)
  unfolding prepare
  prepare_existing call q corr db r found = rw (found, prepare)

  -- `prepare` answers from the row of the execution, or adds that row and claims it
  pub prepare-eq-ok :
      (call : Call) (q corr : String) (db : Db) {x : Prepared} {db' : Db}
      → prepare platform env call q corr db ≡ ok (x, db')
      → ((r : Execution) × (find_first (is_execution_of env q) db.executions ≡ some r)
          × (x ≡ finished (result_of r))
          × (db' ≡ db))
        ⊎ ((row : Proposal) × (find_first (λ r. r.id == q && r.environment == env) db.proposals
              ≡ some row)
            × (find_first (is_execution_of env q) db.executions ≡ none)
            × (x ≡ claimed (claim_of (new_execution call env row corr) env q row corr))
            × (db'.executions ≡ db.executions ++ new_execution call env row corr ∷ []))
  unfolding prepare
  prepare-eq-ok call q corr db {x} {db'} h =
      elim (Option-cases (find_first (is_execution_of env q) db.executions)) [
        | inl fresh ↦
            let (row, found, claim, rows) =
              start_execution-eq-ok call q corr _ db (rw (fresh, prepare) at h) in
            inr (row, found, fresh, claim, rows)
        | inr (old, found) ↦
            let h' : ◌≡◌ {A = Result (Prepared × Db)} (ok (finished (result_of old), db))
                (ok (x, db')) =
              rw (found, prepare) at h in
            inl (old, found, cc, cc)
      ]

  pub prepare-HasExecution :
      (call : Call) (q corr : String) (db : Db) {x : Prepared} {db' : Db}
      → prepare platform env call q corr db ≡ ok (x, db')
      → HasExecution env p db
      → HasExecution env p db'
  prepare-HasExecution call q corr db {x} {db'} h has = elim (prepare-eq-ok call q corr db h) [
    | inl (old, found, kind, same) ↦ rw same has
    | inr (row, found, fresh, claim, rows) ↦
        HasExecution-append env p db db' (new_execution call env row corr) rows has
  ]

  -- a claim is given only together with the row of its execution
  pub prepare-claimed :
      (call : Call) (corr : String) (db : Db) {c : ExecutionClaim} {db' : Db}
      → prepare platform env call p corr db ≡ ok (claimed c, db')
      → HasExecution env p db'
  unfolding new_execution
  prepare-claimed call corr db {c} {db'} h = elim (prepare-eq-ok call p corr db h) [
    | inl (old, found, kind, same) ↦ absurd (cc)
    | inr (row, found, fresh, claim, rows) ↦
        let owned =
          find_first-holds (λ r. r.id == p && r.environment == env) db.proposals row found in
        (
          new_execution call env row corr,
          rw rows (
              rw find_first-append (
                rw fresh (
                  find_first-single (is_execution_of env p) (new_execution call env row corr)
                    (ground (arith, eq_iff env env, owned))))),
        )
  ]
