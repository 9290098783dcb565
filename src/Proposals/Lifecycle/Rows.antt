-- ===== src/Proposals/Lifecycle/Rows.antt =====
-- How an update of the table of proposals moves the row of one of them.
use tasks_management.Base.{
  Bool, Bool-cases, String, [], ap, contains, find_first, find_first-append,
  find_first-update_where, if◌then◌else◌, inl, inr, list_eq, nat_eq, ok, option_eq, or_else, refl,
  some, string_eq, true, update_where, ℕ, ◌++◌, ◌+◌, ◌∙◌, ◌∷◌, ◌≡◌, ◌≤◌,
}
use tasks_management.Proposals.{ProposalState, allowed_transitions, state_eq, validate_transition}
use tasks_management.Store.{Db, Proposal}
use tasks_management.Proposals.Execution.Store.{has_proposal_id}
use mathlib.Core.Option
use tasks_management.Proposals.Lifecycle.{RowEvolves, row_of}

pub legal :
    (current target : ProposalState)
    → validate_transition current target ≡ ok tt
    → contains target (allowed_transitions current) ≡ true
unfolding validate_transition
legal current target h = elim (Bool-cases (contains target (allowed_transitions current))) [
  | inl t ↦ t
  | inr f ↦ absurd (cc (rw f at h))
]

pub unchanged : (id : String) (db db' : Db) → db'.proposals ≡ db.proposals → RowEvolves id db db'
unchanged id db db' same r found = (r, ap (find_first (has_proposal_id id)) same ∙ found, inl refl)

pub appended :
    (id : String) (db db' : Db) (new_row : Proposal)
    → db'.proposals ≡ db.proposals ++ new_row ∷ []
    → RowEvolves id db db'
appended id db db' new_row same r found = (
  r,
  ap (find_first (has_proposal_id id)) same
      ∙ find_first-append (has_proposal_id id) db.proposals (new_row ∷ [])
      ∙ ap (λ o. or_else o (find_first (has_proposal_id id) (new_row ∷ []))) found,
  inl refl,
)

pub updated :
    (id : String) (db db' : Db) (q : Proposal → Bool) (target : ProposalState) (by : ℕ)
    → 1 ≤ by
    → by ≤ 2
    → db'.proposals
      ≡ update_where q (λ r. record r { state = target; version = r.version + by }) db.proposals
    → ((r : Proposal)
        → row_of id db ≡ some r
        → q r ≡ true
        → contains target (allowed_transitions r.state) ≡ true)
    → RowEvolves id db db'
updated id db db' q target by low high same ok_if r found =
    let move : Proposal → Proposal = λ x. record x { state = target; version = x.version + by } in
    let after =
      ap (find_first (has_proposal_id id)) same
      ∙ find_first-update_where (has_proposal_id id) q move (λ x. refl) db.proposals
      ∙ ap (Option.map (λ x. if q x then move x else x)) found in
    elim (Bool-cases (q r)) [
      | inl t ↦ (move r, rw t at after, inr (target, ok_if r found t, by, low, high, refl))
      | inr f ↦ (r, rw f at after, inl refl)
    ]
