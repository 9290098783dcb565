-- ===== src/Agent/Normalizer/Laws.antt =====
-- What normalization keeps of a plan, and what the question adds to it.
use tasks_management.Base.{
  ==_refl, Bool, Bool-cases, List, Member, Option, String, [], any, any-append, any-last, contains,
  inl, inr, list_eq, nat_eq, not, option_eq, refl, string_eq, subst, true, ◌&&◌, ◌++◌, ◌==◌, ◌∷◌,
  ◌≡◌,
}
use tasks_management.Agent.{
  EvidenceCategory, EvidenceEntity, EvidencePlan, GroundedAnswerContext, Unicode, category_eq,
  task_scope,
}
use tasks_management.Agent.Patterns.{issue_keys}
use tasks_management.Agent.Normalizer.{
  add_task, add_tasks, is_task_entity, normalize_evidence_plan, require, required_categories,
}

contains-append :
    (a : EvidenceCategory) (xs ys : List EvidenceCategory)
    → contains a xs ≡ true
    → contains a (xs ++ ys) ≡ true
unfolding contains
contains-append a [] ys h = cc
contains-append a (x ∷ xs) ys h = elim (Bool-cases (x == a)) [
  | inl t ↦ rw t refl
  | inr f ↦ rw f (contains-append a xs ys (rw f at h))
]

require-contains :
    (wanted : Bool) (category a : EvidenceCategory) (categories : List EvidenceCategory)
    → contains a categories ≡ true
    → contains a (require wanted category categories) ≡ true
unfolding require
require-contains wanted category a categories h =
    elim (Bool-cases (wanted && not (contains category categories))) [
      | inl t ↦ rw t (contains-append a categories (category ∷ []) h)
      | inr f ↦ rw f h
    ]

required_categories-contains :
    (prior : Bool) (folded : String) (a : EvidenceCategory) (planned : List EvidenceCategory)
    → contains a planned ≡ true
    → contains a (required_categories prior folded planned) ≡ true
unfolding required_categories
required_categories-contains prior folded a planned h = require-contains _ _ a _ (
    require-contains _ _ a _ (
      require-contains _ _ a _ (
        require-contains _ _ a _
          (require-contains _ _ a _ (require-contains _ _ a _ (require-contains _ _ a _ h))))))

-- the task is among the entities
abbrev HasTask : String → List EvidenceEntity → Type 0
HasTask key entities = any (is_task_entity key) entities ≡ true

add_task-HasTask :
    (entities : List EvidenceEntity) (key other : String)
    → HasTask other entities
    → HasTask other (add_task entities key)
unfolding add_task
add_task-HasTask entities key other h = elim (Bool-cases (any (is_task_entity key) entities)) [
  | inl t ↦ rw t h
  | inr f ↦ rw f (any-append (is_task_entity other) entities _ h)
]

add_task-new : (entities : List EvidenceEntity) (key : String) → HasTask key (add_task entities key)
unfolding add_task
add_task-new entities key = elim (Bool-cases (any (is_task_entity key) entities)) [
  | inl t ↦ rw t t
  | inr f ↦ rw f (
      any-last (is_task_entity key) entities (record { kind = "task"; identifier = key })
        (rw (==_refl key) refl))
]

add_tasks-HasTask :
    (entities : List EvidenceEntity) (keys : List String) (other : String)
    → HasTask other entities
    → HasTask other (add_tasks entities keys)
unfolding add_tasks
add_tasks-HasTask entities [] other h = h
add_tasks-HasTask entities (key ∷ keys) other h =
    add_tasks-HasTask (add_task entities key) keys other (add_task-HasTask entities key other h)

add_tasks-Member :
    (entities : List EvidenceEntity) (keys : List String) (key : String)
    → Member key keys
    → HasTask key (add_tasks entities keys)
unfolding add_tasks
add_tasks-Member entities [] key m = absurd (m.0)
add_tasks-Member entities (k ∷ keys) key m = elim m [
  | inl first ↦
      subst (λ x. HasTask x (add_tasks (add_task entities k) keys)) first
        (add_tasks-HasTask (add_task entities k) keys k (add_task-new entities k))
  | inr later ↦ add_tasks-Member (add_task entities k) keys key later
]

is_task :
    (key : String) (entities : List EvidenceEntity)
    → HasTask key entities
    → any (λ e. e.kind == "task") entities ≡ true
unfolding any
is_task key [] h = cc
is_task key (e ∷ es) h = elim (Bool-cases (e.kind == "task")) [
  | inl t ↦ rw t refl
  | inr f ↦ rw f (is_task key es (rw f at h))
]

module _ {F : Type 0} (u : Unicode) where
  -- A category of the plan is kept; an issue key in the question becomes one of the entities, and the scope is then that of
  -- tasks.
  normalize_evidence_plan-names :
      (question : String) (planned : EvidencePlan) (previous : Option (GroundedAnswerContext F))
      (key : String) (category : EvidenceCategory)
      → Member key (issue_keys u (u.upper question))
      → contains category planned.evidence_categories ≡ true
      → (contains category (normalize_evidence_plan u question planned previous).evidence_categories
          ≡ true)
        × HasTask key (normalize_evidence_plan u question planned previous).entities
        × ((normalize_evidence_plan u question planned previous).scope ≡ task_scope)
  unfolding normalize_evidence_plan
  normalize_evidence_plan-names question planned previous key category named kept =
      let there =
        add_tasks-HasTask _ _ key
          (add_tasks-Member _ (issue_keys u (u.upper question)) key named) in
      (
        required_categories-contains _ _ category planned.evidence_categories kept,
        there,
        rw (is_task key _ there) refl,
      )
