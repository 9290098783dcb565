-- ===== src/Proposals/Execution/Requests.antt =====
-- ReassignmentExecutionService: a sequence of execution requests, for this and other proposals.
use tasks_management.Base.{
  ==_eq, Bool-cases, Call, List, Result, String, [], ap, arith, if◌then◌else◌, inl, inr, nat_eq,
  option_eq, refl, string_eq, subst, sym, ℕ, ◌+◌, ◌-◌, ◌==◌, ◌∷◌, ◌≡◌, ◌≤◌, ◌⊎◌,
}
use tasks_management.Proposals.{state_eq}
use tasks_management.Proposals.Execution.{Service, World, execute}
use tasks_management.Jira.Mutation.Writes.{edits}
use tasks_management.Proposals.Execution.Store.{ExecutionResult, prepare}
use tasks_management.Proposals.Execution.Rows.{prepare-claimed}
use tasks_management.Proposals.Execution.Once.{
  Started, after_prepare-edits, execute-Started, execute_again,
}

-- One request to execute a proposal, with what the runtime hands its two transactions.
pub record Request : Type 0 where
  pub proposal_id : String
  pub correlation_id : String
  pub first : Call
  pub second : Call

module _ {S : Type 0} (service : Service S) where
  abbrev pub serve : Request → World S → World S
  serve q w = (execute service q.first q.second q.proposal_id q.correlation_id w).1

  -- the writes that one request makes
  abbrev pub writes : Request → World S → ℕ
  writes q w = edits (serve q w).remote.calls - edits w.remote.calls

  -- the writes that the requests for one proposal make, while all requests are served in turn
  unfoldable pub writes_for : String → List Request → World S → ℕ
  writes_for p [] w = 0
  writes_for p (q ∷ qs) w =
      (if q.proposal_id == p then writes q w else 0) + writes_for p qs (serve q w)

  writes-Started : (q : Request) (w : World S) → Started service q.proposal_id w → writes q w ≡ 0
  writes-Started q w (r, found) =
      let same = execute_again service q.proposal_id q.first q.second q.correlation_id w r found in
      omega (arith, ap (λ (x : Result ExecutionResult × World S). edits x.1.remote.calls) same)

  writes_cases :
      (q : Request) (w : World S)
      → (writes q w ≡ 0) ⊎ ((writes q w ≤ 1) × Started service q.proposal_id (serve q w))
  unfolding execute
  writes_cases q w =
      elim (after_prepare-edits service q.proposal_id q.second
        (prepare service.platform service.environment q.first q.proposal_id q.correlation_id w.db) w
        (λ c db' h.
          prepare-claimed service.platform service.environment q.proposal_id q.first
            q.correlation_id w.db h)) [
              | inl same ↦ inl (omega (arith, same))
              | inr (bound, has) ↦ inr (omega (arith, bound), has)
            ]

  writes_for-Started :
      (p : String) (qs : List Request) (w : World S) → Started service p w → writes_for p qs w ≡ 0
  unfolding writes_for
  writes_for-Started p [] w has = refl
  writes_for-Started p (q ∷ qs) w has =
      let later =
        writes_for-Started p qs (serve q w)
          (execute-Started service p q.first q.second q.proposal_id q.correlation_id w has) in
      elim (Bool-cases (q.proposal_id == p)) [
        | inl mine ↦
            let none_now =
              writes-Started q w
                (subst (λ x. Started service x w) (sym (==_eq {a = q.proposal_id} mine)) has) in
            rw mine (omega (arith, later, none_now))
        | inr other ↦ rw other (omega (arith, later))
      ]

  -- Whatever requests are served, in whatever order and with whatever answers from the tool server,
  -- the requests for one proposal write to Jira at most once in all.
  pub at_most_one_write : (p : String) (qs : List Request) (w : World S) → writes_for p qs w ≤ 1
  unfolding writes_for
  at_most_one_write p [] w = omega arith
  at_most_one_write p (q ∷ qs) w =
      let later = at_most_one_write p qs (serve q w) in
      elim (Bool-cases (q.proposal_id == p)) [
        | inl mine ↦ elim (writes_cases q w) [
          | inl none_now ↦ rw mine (omega (arith, later, none_now))
          | inr (bound, has) ↦
              let done =
                writes_for-Started p qs (serve q w) (
                  subst (λ x. Started service x (serve q w)) (==_eq {a = q.proposal_id} mine)
                    has) in
              rw mine (omega (arith, bound, done))
        ]
        | inr other ↦ rw other (omega (arith, later))
      ]
