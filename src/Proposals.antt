-- ===== src/Proposals.antt =====
-- domain/workforce_risk/proposals/state.py: the states of a proposal and the legal transitions.
pub mod Models
pub mod Simulations
pub mod Repository
pub mod Creation
pub mod Decisions
pub mod Execution
pub mod Reconciliation
pub mod Lifecycle
use tasks_management.Base.{
  EqTest, List, Result, String, [], arith, concat, contains, eqb, err, if◌then◌else◌, nat_eq, ok,
  option_eq, string_eq, true, value_error, ℕ, ◌↔◌, ◌∷◌, ◌≡◌,
}

pub data ProposalState : Type 0 where
  pending approved executing executed_verified execution_failed uncertain : ProposalState
  rejected expired stale : ProposalState

-- the values of the `StrEnum`
unfoldable pub state_value : ProposalState → String
state_value pending = "pending"
state_value approved = "approved"
state_value executing = "executing"
state_value executed_verified = "executed_verified"
state_value execution_failed = "execution_failed"
state_value uncertain = "uncertain"
state_value rejected = "rejected"
state_value expired = "expired"
state_value stale = "stale"

abbrev pub state_index : ProposalState → ℕ
state_index pending = 0
state_index approved = 1
state_index executing = 2
state_index executed_verified = 3
state_index execution_failed = 4
state_index uncertain = 5
state_index rejected = 6
state_index expired = 7
state_index stale = 8

pub state_index_iff : (a b : ProposalState) → (eqb (state_index a) (state_index b) ≡ true) ↔ (a ≡ b)
state_index_iff a b = (λ h. ground arith, λ h. ground arith)

instance abbrev pub state_eq : EqTest ProposalState
state_eq = record { same = λ a b. eqb (state_index a) (state_index b); same_iff = state_index_iff }

-- TERMINAL_STATES
unfoldable pub terminal_states : List ProposalState
terminal_states = executed_verified ∷ execution_failed ∷ rejected ∷ expired ∷ stale ∷ []

-- ALLOWED_TRANSITIONS; the last clause is the default of `.get(current, set())`
unfoldable pub allowed_transitions : ProposalState → List ProposalState
allowed_transitions pending = executing ∷ rejected ∷ expired ∷ stale ∷ []
allowed_transitions executing = executed_verified ∷ execution_failed ∷ uncertain ∷ stale ∷ []
allowed_transitions uncertain = executed_verified ∷ execution_failed ∷ []
allowed_transitions _ = []

unfoldable pub validate_transition : ProposalState → ProposalState → Result (Unit {0})
unfolding state_value allowed_transitions contains
validate_transition current target =
    if contains target (allowed_transitions current)
    then ok tt
    else err (
        value_error (
          concat "illegal proposal transition: "
            (concat (state_value current) (concat " -> " (state_value target)))))
