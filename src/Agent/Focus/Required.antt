-- ===== src/Agent/Focus/Required.antt =====
-- The tasks that an answer must name are among those that its evidence holds.
use Prim.Native.String.{count as char_count}
use tasks_management.Base.{
  Bool, Bool-cases, List, Member, Member-map, Option, String, Within, [], any, any_none, ap,
  contains, contains-Member, eqb, err, false, if◌then◌else◌, inl, inr, length, list_eq, ltb, map,
  map-Member, nat_eq, not, ok, option_eq, refl, select, select-Member, string_eq, subst, true,
  value_error, ℕ, ◌&&◌, ◌∙◌, ◌∷◌, ◌≡◌,
}
use tasks_management.Agent.{
  DashboardSnapshot, EmployeeSummary, EvidencePlan, GroundedAnswerContext, HourFloats, MissingData,
  TaskSummary, Unicode, category_eq, required_tasks_are_in_evidence,
}
use tasks_management.Agent.Focus.{
  Selection, all_required, date_of, deadline_selection, is_task_scope, keys_named,
  selection_by_words, task_selection,
}
use tasks_management.Agent.Focus.Answer.{
  build_answer_evidence, chosen_employees, chosen_tasks, evidence_set, focused_missing_data,
  lacking, narrowed, task_evidence,
}

module _ {F : Type 0} (u : Unicode) (fl : HourFloats F) where
  -- what is required is selected
  record IsCovered (s : Selection F) : Type 0 where
    within : Within s.required s.selected

  same-IsCovered : (tasks : List (TaskSummary F)) → IsCovered (all_required tasks)
  same-IsCovered tasks = record { within = λ a m. m }

  select-IsCovered :
      (p : TaskSummary F → Bool) (tasks : List (TaskSummary F))
      → IsCovered (record { selected = tasks; required = select p tasks })
  select-IsCovered p tasks = record { within = λ a m. (select-Member p tasks a m).0 }

  if-IsCovered :
      (b : Bool) (s t : Selection F) → IsCovered s → IsCovered t → IsCovered (if b then s else t)
  if-IsCovered true s t h k = h
  if-IsCovered false s t h k = k

  deadline_selection-IsCovered :
      (folded : String) (today : ℕ) (tasks : List (TaskSummary F))
      → IsCovered (deadline_selection u fl folded today tasks)
  unfolding deadline_selection
  deadline_selection-IsCovered folded today tasks =
      search (if-IsCovered, same-IsCovered, select-IsCovered)

  selection_by_words-IsCovered :
      (folded : String) (plan : EvidencePlan) (today : ℕ) (tasks : List (TaskSummary F))
      → IsCovered (selection_by_words u fl folded plan today tasks)
  unfolding selection_by_words
  selection_by_words-IsCovered folded plan today tasks =
      search (if-IsCovered, same-IsCovered, deadline_selection-IsCovered)

  task_selection-IsCovered :
      (keys : List String) (folded : String) (plan : EvidencePlan) (today : ℕ)
      (tasks : List (TaskSummary F))
      → IsCovered (task_selection u fl keys folded plan today tasks)
  unfolding task_selection
  task_selection-IsCovered [] folded plan today tasks =
      selection_by_words-IsCovered folded plan today tasks
  task_selection-IsCovered (k ∷ ks) folded plan today tasks = same-IsCovered _

  narrowed-IsCovered :
      (by_scope : Bool) (tasks : List (TaskSummary F)) (employees : List (EmployeeSummary F))
      (s : Selection F)
      → IsCovered s
      → IsCovered (narrowed u fl by_scope tasks employees s)
  unfolding narrowed
  narrowed-IsCovered by_scope tasks [] s h = h
  narrowed-IsCovered by_scope tasks (e ∷ es) s h =
      search (if-IsCovered, same-IsCovered, select-IsCovered)

  chosen_tasks-IsCovered :
      (folded : String) (plan : EvidencePlan) (s : DashboardSnapshot F)
      (previous : Option (GroundedAnswerContext F))
      → IsCovered (chosen_tasks u fl folded plan s previous)
  unfolding chosen_tasks
  chosen_tasks-IsCovered folded plan s previous =
      narrowed-IsCovered
        (is_task_scope u fl plan.scope && eqb (length (keys_named u fl folded plan previous)) 0)
        s.tasks (chosen_employees u fl folded plan s)
        (task_selection u fl (keys_named u fl folded plan previous) folded plan
          (date_of s.evidence_timestamp) s.tasks)
        (task_selection-IsCovered (keys_named u fl folded plan previous) folded plan
          (date_of s.evidence_timestamp) s.tasks)

  task_evidence-key : (today : ℕ) (t : TaskSummary F) → (task_evidence u fl today t).key ≡ t.key
  unfolding task_evidence
  task_evidence-key today t = refl

  required_tasks_are_in_evidence-ok :
      (question : String) (plan : EvidencePlan) (s : DashboardSnapshot F)
      (previous : Option (GroundedAnswerContext F)) (missing_data : List MissingData)
      → required_tasks_are_in_evidence u.upper
          (evidence_set u fl question plan s previous missing_data)
        ≡ ok (evidence_set u fl question plan s previous missing_data)
  unfolding required_tasks_are_in_evidence evidence_set
  required_tasks_are_in_evidence-ok question plan s previous missing_data =
      let c = chosen_tasks u fl (u.casefold question) plan s previous in
      let today = date_of s.evidence_timestamp in
      let known = map (λ t. u.upper t.key) (map (task_evidence u fl today) c.selected) in
      let covered : any (λ key. not (contains (u.upper key) known)) (map (λ t. t.key) c.required)
          ≡ false =
        any_none (λ key. not (contains (u.upper key) known)) (map (λ t. t.key) c.required)
          (λ key m.
            let (t, required, named) = Member-map (λ t. t.key) c.required key m in
            let selected =
              (chosen_tasks-IsCovered (u.casefold question) plan s previous).within t required in
            let evident =
              map-Member (λ t. u.upper t.key) (map (task_evidence u fl today) c.selected) _
                (map-Member (task_evidence u fl today) c.selected t selected) in
            let same : u.upper (task_evidence u fl today t).key ≡ u.upper key =
              ap u.upper (task_evidence-key today t ∙ named) in
            rw (contains-Member (u.upper key) known (subst (λ k. Member k known) same evident))
              refl) in
      rw covered refl

  -- Whatever the question, the plan, the snapshot and the context before are, the evidence of the answer fails only when the
  -- name of something that it misses has more than 128 characters. In any other case every task that the answer must name
  -- is among its tasks, and the evidence is built.
  pub build_answer_evidence-ok :
      (question : String) (plan : EvidencePlan) (s : DashboardSnapshot F)
      (previous : Option (GroundedAnswerContext F))
      → let rows = lacking u fl question plan s previous in
        build_answer_evidence u fl question plan s previous ≡ (
          if any (λ m. ltb 128 (char_count m.entity)) rows
          then err (value_error "String should have at most 128 characters")
          else ok (evidence_set u fl question plan s previous rows))
  unfolding build_answer_evidence focused_missing_data
  build_answer_evidence-ok question plan s previous =
      let rows = lacking u fl question plan s previous in
      elim (Bool-cases (any (λ m. ltb 128 (char_count m.entity)) rows)) [
        | inl long ↦ rw long refl
        | inr short ↦ rw short (required_tasks_are_in_evidence-ok question plan s previous rows)
      ]
