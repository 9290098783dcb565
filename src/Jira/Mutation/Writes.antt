-- ===== src/Jira/Mutation/Writes.antt =====
-- JiraAssigneeMutationClient.execute: its writes, its refusals and what its receipt says.
use tasks_management.Base.{
  ==_eq, Bool-cases, List, Option, Result, String, [], arith, err, if◌then◌else◌, inl, inr, list_eq,
  nat_eq, ok, ok-injective, option_eq, permission_error, refl, some, string_eq, subst, true, ℕ,
  ◌++◌, ◌+◌, ◌==◌, ◌∷◌, ◌≡◌, ◌⊎◌,
}
use tasks_management.Jira.Mutation.Guard.{
  IsPermitted, mutation_refused-false, mutation_refused-true,
}
use tasks_management.Jira.Response.{Mapping, assignee_from_response}
use tasks_management.Jira.Mutation.{
  ClientConfig, MutationReceipt, ReassignmentMutation, Remote, ToolCall, Transport, after_edit,
  after_read, assignee_of, call, edit_jira_issue, execute_mutation, executed_verified,
  get_jira_issue, is_error_answer, mutation_refused, read_assignee, verified_receipt,
}

-- how many of the calls are writes
unfoldable pub edits : List ToolCall → ℕ
edits [] = 0
edits (get_jira_issue _ ∷ rest) = edits rest
edits (edit_jira_issue _ _ ∷ rest) = edits rest + 1

pub edits-append : (xs ys : List ToolCall) → edits (xs ++ ys) ≡ edits xs + edits ys
unfolding edits
edits-append [] ys = omega arith
edits-append (get_jira_issue i ∷ xs) ys = omega (arith, edits-append xs ys)
edits-append (edit_jira_issue i a ∷ xs) ys = omega (arith, edits-append xs ys)

-- the writes that a result admits to
abbrev pub attempted : Result MutationReceipt → ℕ
attempted (ok r) = if r.edit_attempted then 1 else 0
attempted (err e) = 0

module _ {S : Type 0} (transport : Transport S) where
  after_edit-edits :
      (command : ReassignmentMutation) (answer : Result Mapping) (w : Remote S)
      → (edits (after_edit transport command answer w).1.calls ≡ edits w.calls)
        × ((after_edit transport command answer w).0.edit_attempted ≡ true)
  unfolding after_edit read_assignee call edits verified_receipt
  after_edit-edits command (err e) w = ground arith
  after_edit-edits command (ok answer) w =
      ground (arith, edits-append w.calls (get_jira_issue command.issue_key ∷ []))

  edits-after_read :
      (command : ReassignmentMutation) (current : Result (Option String)) (w : Remote S)
      → edits (after_read transport command current w).1.calls
        ≡ edits w.calls + attempted (ok (after_read transport command current w).0)
  unfolding after_read call edits
  edits-after_read command (err e) w = ground arith
  edits-after_read command (ok current) w =
      let edit = edit_jira_issue command.issue_key command.proposed_assignee_id in
      let (answer, w') = call transport edit w in
      ground (arith, edits-append w.calls (edit ∷ []), after_edit-edits command answer w')

  -- The client writes to the issue at most once, and its receipt says exactly whether it did: the
  -- writes recorded after the call are those before it, plus one if `edit_attempted` is set.
  pub edits-execute_mutation :
      (config : ClientConfig) (command : ReassignmentMutation) (w : Remote S)
      → let (result, w') = execute_mutation transport config command w in
        edits w'.calls ≡ edits w.calls + attempted result
  unfolding execute_mutation read_assignee call edits
  edits-execute_mutation config command w =
      let (current, w') = read_assignee transport command.issue_key w in
      ground (
        arith,
        edits-append w.calls (get_jira_issue command.issue_key ∷ []),
        edits-after_read command current w',
      )

  -- A mutation is tried if and only if the client and the mutation are for the dev environment, the project is an allowed
  -- one whose key has no dash, and the issue's key is that of the project, a dash and more: it then ends with a receipt.
  -- Any other one raises a PermissionError and makes no call at all.
  pub execute_mutation-IsPermitted :
      (config : ClientConfig) (command : ReassignmentMutation) (w : Remote S)
      → let (result, w') = execute_mutation transport config command w in
        ((¬ IsPermitted config command)
          × (result
              ≡ err (permission_error "Jira mutation is disabled for this environment or project"))
          × (w' ≡ w))
        ⊎ (IsPermitted config command × ((r : MutationReceipt) × (result ≡ ok r)))
  unfolding execute_mutation
  execute_mutation-IsPermitted config command w =
      elim (Bool-cases (mutation_refused config command)) [
        | inl r ↦ inl (mutation_refused-true config command r, rw r refl, rw r refl)
        | inr q ↦
            let (current, w') = read_assignee transport command.issue_key w in
            inr (
              mutation_refused-false config command q,
              ((after_read transport command current w').0, rw q refl),
            )
      ]

  -- the last call was a read, whose answer named the assignee
  abbrev pub ReadBack : String → String → Remote S → Type 0
  ReadBack issue assignee w =
      (s : S) × (m : Mapping) × (transport.call_tool (get_jira_issue issue) s ≡ (ok m, w.server))
      × (assignee_from_response m ≡ some assignee)

  -- what a receipt promises of the server when its outcome is a verified write
  abbrev pub Verified : ReassignmentMutation → MutationReceipt → Remote S → Type 0
  Verified command r w =
      r.outcome ≡ executed_verified
      → (r.edit_attempted ≡ true)
        × (r.observed_assignee_id ≡ some command.proposed_assignee_id)
        × ReadBack command.issue_key command.proposed_assignee_id w

  read_back-Verified :
      (command : ReassignmentMutation) (s : S) (answer : Result Mapping) (w : Remote S)
      → transport.call_tool (get_jira_issue command.issue_key) s ≡ (answer, w.server)
      → Verified command (verified_receipt command (assignee_of transport answer)) w
  unfolding verified_receipt
  read_back-Verified command s (err e) w step h = cc
  read_back-Verified command s (ok m) w step h =
      elim (Bool-cases (assignee_from_response m == some command.proposed_assignee_id)) [
        | inl same ↦
            let found = ==_eq {a = assignee_from_response m} same in
            (rw same, rw same found, (s, m, step, found))
        | inr differs ↦ absurd (cc (rw differs at h))
      ]

  after_edit-Verified :
      (command : ReassignmentMutation) (answer : Result Mapping) (w : Remote S)
      → let (r, w') = after_edit transport command answer w in Verified command r w'
  unfolding after_edit
  after_edit-Verified command (err e) w = λ h. cc
  after_edit-Verified command (ok m) w = elim (Bool-cases (is_error_answer m)) [
    | inl rejected ↦ λ h. absurd (cc (rw rejected at h))
    | inr accepted ↦
        unfold read_assignee call in
        rw accepted (
          read_back-Verified command w.server
            (transport.call_tool (get_jira_issue command.issue_key) w.server).0
            (call transport (get_jira_issue command.issue_key) w).1 refl)
  ]

  after_read-Verified :
      (command : ReassignmentMutation) (current : Result (Option String)) (w : Remote S)
      → let (r, w') = after_read transport command current w in Verified command r w'
  unfolding after_read
  after_read-Verified command (err e) w = λ h. cc
  after_read-Verified command (ok current) w =
      let (answer, w') =
        call transport (edit_jira_issue command.issue_key command.proposed_assignee_id) w in
      elim (Bool-cases (current == some command.expected_assignee_id)) [
        | inl same ↦ rw same (after_edit-Verified command answer w')
        | inr differs ↦ λ h. absurd (cc (rw differs at h))
      ]

  -- A receipt that reports a verified write was given only after a write was attempted, and after a
  -- last call that read the issue and was answered with the proposed assignee.
  pub execute_mutation-Verified :
      (config : ClientConfig) (command : ReassignmentMutation) (w : Remote S) (r : MutationReceipt)
      → (execute_mutation transport config command w).0 ≡ ok r
      → Verified command r (execute_mutation transport config command w).1
  unfolding execute_mutation
  execute_mutation-Verified config command w r =
      let (current, w') = read_assignee transport command.issue_key w in
      elim (Bool-cases (mutation_refused config command)) [
        | inl refused ↦ λ h. absurd (cc (rw refused at h))
        | inr allowed ↦ rw allowed λ h.
            subst (λ q. Verified command q (after_read transport command current w').1)
              (ok-injective h) (after_read-Verified command current w')
      ]

  -- reading is not writing
  pub edits-read_assignee :
      (issue : String) (w : Remote S)
      → edits (read_assignee transport issue w).1.calls ≡ edits w.calls
  unfolding read_assignee call edits
  edits-read_assignee issue w = omega (arith, edits-append w.calls (get_jira_issue issue ∷ []))
