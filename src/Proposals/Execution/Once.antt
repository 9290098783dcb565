-- ===== src/Proposals/Execution/Once.antt =====
-- ReassignmentExecutionService: the writes of one execution, and of a repeated one.
use tasks_management.Base.{
  Call, Result, String, arith, err, find_first, inl, inr, ok, refl, some, ◌+◌, ◌≡◌, ◌≤◌, ◌⊎◌,
}
use tasks_management.Store.{Db, Execution}
use tasks_management.Jira.Mutation.{MutationReceipt, call, execute_mutation}
use tasks_management.Proposals.Execution.{
  Service, World, after_prepare, carry_out, execute, finish, in_transaction, mutation_of,
  result_of_receipt,
}
use tasks_management.Jira.Mutation.{MutationReceipt, execute_mutation}
use tasks_management.Jira.Mutation.Writes.{attempted, edits, edits-execute_mutation}
use tasks_management.Jira.Mutation.{execute_mutation}
use tasks_management.Proposals.Execution.Store.{
  ExecutionClaim, Prepared, claimed, finished, is_execution_of, mark_write_attempted, result_of,
}
use tasks_management.Proposals.Execution.Rows.{
  HasExecution, finalize-HasExecution, mark-HasExecution, prepare-HasExecution, prepare_existing,
}

pub attempted-le : (r : Result MutationReceipt) → attempted r ≤ 1
attempted-le (ok r) = ground arith
attempted-le (err e) = omega arith

module _ {S : Type 0} (service : Service S) (p : String) where
  -- the world has the execution row of the proposal
  abbrev pub Started : World S → Type 0
  Started w = HasExecution service.environment p w.db

  pub in_transaction-Started :
      {A : Type 0} (m : Result (A × Db)) (w : World S)
      → Started w
      → ((a : A) (db' : Db) → m ≡ ok (a, db') → HasExecution service.environment p db')
      → Started (in_transaction m w).1
  unfolding in_transaction
  in_transaction-Started (ok (a, db')) w has keep = keep a db' refl
  in_transaction-Started (err e) w has keep = has

  pub finish-Started :
      (call : Call) (claim : ExecutionClaim) (receipt : Result MutationReceipt) (w : World S)
      → Started w
      → Started (finish service call claim receipt w).1
  unfolding finish
  finish-Started call claim (err e) w has = has
  finish-Started call claim (ok receipt) w has = in_transaction-Started _ w has λ r db' h.
      finalize-HasExecution service.platform service.environment p call claim
        (result_of_receipt claim receipt) w.db h has

  pub carry_out-Started :
      (call : Call) (claim : ExecutionClaim) (w : World S)
      → Started w
      → Started
          (carry_out service call claim (mark_write_attempted service.environment claim w.db) w).1
  carry_out-Started call claim w has = go (mark_write_attempted service.environment claim w.db) refl
    where
      go :
          (m : Result Db)
          → mark_write_attempted service.environment claim w.db ≡ m
          → Started (carry_out service call claim m w).1
      go (err e) h = unfold carry_out in has
      go (ok db') h =
          unfold carry_out in
          finish-Started call claim _ _
            (mark-HasExecution service.platform service.environment p claim w.db h has)

  pub finish-remote :
      (call : Call) (claim : ExecutionClaim) (receipt : Result MutationReceipt) (w : World S)
      → (finish service call claim receipt w).1.remote ≡ w.remote
  unfolding finish in_transaction
  finish-remote call claim (err e) w = refl
  finish-remote call claim (ok receipt) w = ground arith

  -- one claim leads to one write at most
  pub carry_out-edits :
      (call : Call) (claim : ExecutionClaim) (m : Result Db) (w : World S)
      → edits (carry_out service call claim m w).1.remote.calls ≤ edits w.remote.calls + 1
  unfolding carry_out
  carry_out-edits call claim (err e) w = omega arith
  carry_out-edits call claim (ok db') w =
      let (receipt, remote') =
        execute_mutation service.transport service.config (mutation_of claim) w.remote in
      let written =
        edits-execute_mutation service.transport service.config (mutation_of claim) w.remote in
      let bound = attempted-le receipt in
      rw (finish-remote call claim receipt (record { db = db'; remote = remote' }))
        (omega (arith, written, bound))

  pub after_prepare-Started :
      (call : Call) (m : Result (Prepared × Db)) (w : World S)
      → Started w
      → ((x : Prepared) (db' : Db) → m ≡ ok (x, db') → HasExecution service.environment p db')
      → Started (after_prepare service call m w).1
  unfolding after_prepare
  after_prepare-Started call (err e) w has keep = has
  after_prepare-Started call (ok (finished r, db')) w has keep = keep (finished r) db' refl
  after_prepare-Started call (ok (claimed c, db')) w has keep =
      carry_out-Started call c (record w { db = db' }) (keep (claimed c) db' refl)

  -- An execution of any proposal keeps the row of this one.
  pub execute-Started :
      (first second : Call) (q corr : String) (w : World S)
      → Started w
      → Started (execute service first second q corr w).1
  unfolding execute
  execute-Started first second q corr w has =
      after_prepare-Started second _ w has λ x db' h.
        prepare-HasExecution service.platform service.environment p first q corr w.db h has

  -- An execution of this proposal writes at most once, and only if its row stands afterwards.
  pub after_prepare-edits :
      (call : Call) (m : Result (Prepared × Db)) (w : World S)
      → ((c : ExecutionClaim) (db' : Db)
          → m ≡ ok (claimed c, db')
          → HasExecution service.environment p db')
      → let w' = (after_prepare service call m w).1 in
        (edits w'.remote.calls ≡ edits w.remote.calls)
        ⊎ ((edits w'.remote.calls ≤ edits w.remote.calls + 1) × Started w')
  unfolding after_prepare
  after_prepare-edits call (err e) w keep = inl refl
  after_prepare-edits call (ok (finished r, db')) w keep = inl refl
  after_prepare-edits call (ok (claimed c, db')) w keep =
      let w' = record w { db = db' } in
      inr (
        carry_out-edits call c (mark_write_attempted service.environment c db') w',
        carry_out-Started call c w' (keep c db' refl),
      )

  -- A proposal with an execution row is answered from it: neither the database nor Jira is touched.
  pub execute_again :
      (first second : Call) (corr : String) (w : World S) (r : Execution)
      → find_first (is_execution_of service.environment p) w.db.executions ≡ some r
      → execute service first second p corr w ≡ (ok (result_of r), w)
  unfolding execute after_prepare
  execute_again first second corr w r found =
      rw (prepare_existing service.platform service.environment p first p corr w.db r found)
