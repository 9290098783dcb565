-- ===== src/Proposals/Lifecycle/History.antt =====
-- What holds of a proposal after any number of transactions.
use tasks_management.Base.{
  Platform, String, ap, arith, contains, false, inl, inr, list_eq, nat_eq, option_eq, refl, some,
  string_eq, subst, sym, true, ◌∙◌, ◌≡◌, ◌≢◌, ◌≤◌,
}
use tasks_management.Proposals.{
  ProposalState, allowed_transitions, approved, state_eq, terminal_states,
}
use tasks_management.Store.{Db, Proposal}
use tasks_management.Proposals.Execution.Store.{finalize}
use tasks_management.Proposals.Reconciliation.Store.{resolve}
use tasks_management.Proposals.Lifecycle.{
  Evolves, RowEvolves, Run, Step, creates, decides, finalizes, first_step, leases, leases_one,
  marks, no_steps, prepares, resolves, row_of,
}
use tasks_management.Proposals.Lifecycle.Rows.{unchanged}
use tasks_management.Proposals.Lifecycle.Transactions.{
  create-Evolves, decide-Evolves, finalize_rows-Evolves, proposals-lease_abandoned,
  proposals-lease_proposal, proposals-mark, proposals-prepare, resolve_rows-Evolves,
}

-- Every transaction leaves each proposal as it is, or moves it along the transition table, raises its
-- version by one or two, and changes nothing else of it.
pub Step-Evolves :
    (platform : Platform) (env id : String) (db db' : Db)
    → Step platform env db db'
    → RowEvolves id db db'
unfolding finalize resolve
Step-Evolves platform env id db db' (creates call command actor v h) =
    create-Evolves platform id call command actor v db db' h
Step-Evolves platform env id db db' (decides call command actor v h) =
    decide-Evolves platform id call command actor v db db' h
Step-Evolves platform env id db db' (prepares call p correlation x h) =
    unchanged id db db' (proposals-prepare platform env call p correlation x db db' h)
Step-Evolves platform env id db db' (marks claim h) =
    unchanged id db db' (proposals-mark env claim db db' h)
Step-Evolves platform env id db db' (finalizes call claim result x h) =
    finalize_rows-Evolves platform env id call claim result x _ _ db db' refl h
Step-Evolves platform env id db db' (leases config now worker limit h) =
    unchanged id db db'
      (ap (λ (y : Db). y.proposals) (sym h) ∙ proposals-lease_abandoned config now worker limit db)
Step-Evolves platform env id db db' (leases_one config now p worker h) =
    unchanged id db db'
      (ap (λ (y : Db). y.proposals) (sym h) ∙ proposals-lease_proposal config now p worker db)
Step-Evolves platform env id db db' (resolves call claim target evidence h) =
    resolve_rows-Evolves platform env id call claim target evidence _ _ db db' refl h

-- what holds of a row after any number of steps
abbrev Later : Proposal → Proposal → Type 0
Later r r' =
    (r.version ≤ r'.version)
    × (contains r.state terminal_states ≡ true → r' ≡ r)
    × (r.state ≢ approved → r'.state ≢ approved)

terminal_stuck :
    (current target : ProposalState)
    → contains current terminal_states ≡ true
    → contains target (allowed_transitions current) ≡ false
unfolding contains terminal_states allowed_transitions
terminal_stuck current target h = ground arith

never_approved : (current : ProposalState) → contains approved (allowed_transitions current) ≡ false
unfolding contains allowed_transitions
never_approved current = ground arith

Later-Evolves : (r r' : Proposal) → Evolves r r' → Later r r'
Later-Evolves r r' (inl same) = subst (Later r) (sym same) (omega arith, λ h. refl, λ h. h)
Later-Evolves r r' (inr (target, valid, by, low, high, moved)) = subst (Later r) (sym moved) (
  omega (arith, low),
  λ h. absurd (cc (terminal_stuck r.state target h, valid)),
  λ h k. cc (
    never_approved r.state,
    subst (λ t. contains t (allowed_transitions r.state) ≡ true) k valid,
  ),
)

Later-trans : (r s t : Proposal) → Later r s → Later s t → Later r t
Later-trans r s t (v, same, never) (v', same', never') = (
  omega (arith, v, v'),
  λ h.
      same' (subst (λ (y : Proposal). contains y.state terminal_states ≡ true) (sym (same h)) h)
      ∙ same h,
  λ h. never' (never h),
)

-- However the transactions of any number of workers interleave, a proposal is never lost, its version
-- never falls, a proposal in a terminal state stays exactly as it is, and no proposal that is not in the
-- state approved ever comes into it.
pub proposals_are_kept :
    (platform : Platform) (env id : String) (db db' : Db) (r : Proposal)
    → Run platform env db db'
    → row_of id db ≡ some r
    → (r' : Proposal) × (row_of id db' ≡ some r')
      × (r.version ≤ r'.version)
      × (contains r.state terminal_states ≡ true → r' ≡ r)
      × (r.state ≢ approved → r'.state ≢ approved)
proposals_are_kept platform env id db db' r no_steps found =
    (r, found, omega arith, λ h. refl, λ h. h)
proposals_are_kept platform env id db db' r (first_step step rest) found =
    let (s, found', evolves) = Step-Evolves platform env id db _ step r found in
    let (t, found'', later_version, same, never) =
      proposals_are_kept platform env id _ db' s rest found' in
    let (versions, kept, unapproved) =
      Later-trans r s t (Later-Evolves r s evolves) (later_version, same, never) in
    (t, found'', versions, kept, unapproved)
