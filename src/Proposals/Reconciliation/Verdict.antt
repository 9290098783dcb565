-- ===== src/Proposals/Reconciliation/Verdict.antt =====
-- ReconciliationService: the verdict on an unsettled execution, and the calls of Jira it takes.
use tasks_management.Base.{
  Call, List, Option, Platform, Result, String, [], ap, arith, eq_iff, err, false, inl, none, ok,
  refl, some, ℕ, ◌↔◌, ◌∙◌, ◌∷◌, ◌≡◌, ◌≢◌, ◌⊎◌,
}
use tasks_management.Store.{Db}
use tasks_management.Proposals.{executed_verified, execution_failed, uncertain}
use tasks_management.Jira.Mutation.{Remote, Transport, call}
use tasks_management.Jira.Mutation.Writes.{edits, edits-read_assignee}
use tasks_management.Proposals.Execution.{World}
use tasks_management.Proposals.Reconciliation.Store.{
  LeaseConfig, ReconciliationClaim, lease_abandoned,
}
use tasks_management.Proposals.Reconciliation.{
  ReconciliationResult, reconcile, reconcile_all, run_once, settle, verdict,
}

-- The verdict is exact. An execution counts as verified exactly when Jira was read and names the proposed
-- assignee; as failed exactly when Jira names the expected assignee, which is not the proposed one, and no
-- write was attempted; in every other case it is uncertain, with an error code.
pub verdict_exact :
    (claim : ReconciliationClaim) (answer : Result (Option String))
    → let (s, code) = verdict claim answer in
      ((s ≡ executed_verified) ↔ (answer ≡ ok (some claim.proposed_assignee_id)))
      × ((s ≡ execution_failed) ↔ (
          (answer ≡ ok (some claim.expected_assignee_id))
          × (claim.expected_assignee_id ≢ claim.proposed_assignee_id)
          × (claim.write_attempted ≡ false)))
      × ((s ≡ uncertain) ⊎ (code ≡ none))
      × (s ≡ uncertain → code ≢ none)
unfolding verdict
verdict_exact claim (err e) = ((λ h. cc, λ h. cc), (λ h. cc, λ h. cc), inl refl, λ s h. cc)
verdict_exact claim (ok none) = ((λ h. cc, λ h. cc), (λ h. cc, λ h. cc), inl refl, λ s h. cc)
verdict_exact claim (ok (some o)) =
    let to_proposed = eq_iff o claim.proposed_assignee_id in
    let to_expected = eq_iff o claim.expected_assignee_id in
    (
      (λ h. ground (arith, to_proposed), λ h. ground (arith, to_proposed)),
      (
        λ h. (
          ground (arith, to_proposed, to_expected),
          λ same. ground (arith, to_proposed, to_expected),
          ground (arith, to_proposed, to_expected),
        ),
        λ h. ground (arith, to_proposed, to_expected),
      ),
      ground (arith, to_proposed),
      λ s. ground (arith, to_proposed),
    )

module _ {S : Type 0} (platform : Platform) (config : LeaseConfig) (transport : Transport S) where
  remote-settle :
      (result : ReconciliationResult) (r : Result Db) (w : World S)
      → (settle platform config transport result r w).1.remote ≡ w.remote
  unfolding settle
  remote-settle result (ok db') w = refl
  remote-settle result (err e) w = refl

  edits-reconcile :
      (call : Call) (claim : ReconciliationClaim) (w : World S)
      → edits (reconcile platform config transport call claim w).1.remote.calls
        ≡ edits w.remote.calls
  unfolding reconcile
  edits-reconcile call claim w =
      ap (λ (r : Remote S). edits r.calls) (remote-settle _ _ _)
      ∙ edits-read_assignee transport claim.issue_key w.remote

  edits-reconcile_all :
      (call : Call) (claims : List ReconciliationClaim) (w : World S)
      → edits (reconcile_all platform config transport call claims w).1.remote.calls
        ≡ edits w.remote.calls
  unfolding reconcile_all
  edits-reconcile_all call [] w = refl
  edits-reconcile_all call (claim ∷ claims) w =
      let w' = (reconcile platform config transport call claim w).1 in
      ground (arith, edits-reconcile call claim w, edits-reconcile_all call claims w')

  -- A round of reconciliation writes to Jira in no case, whatever was leased and whatever Jira answers.
  pub edits-run_once :
      (call : Call) (worker_id : String) (limit : ℕ) (w : World S)
      → edits (run_once platform config transport call worker_id limit w).1.remote.calls
        ≡ edits w.remote.calls
  unfolding run_once
  edits-run_once call worker_id limit w =
      let (claims, db') = lease_abandoned config call.now worker_id limit w.db in
      edits-reconcile_all call claims (record w { db = db' })
