-- ===== src/Agent/Focus/Employees.antt =====
-- services/agent-api/src/agent_api/evidence/focus.py: which employees an answer is about.
use tasks_management.Base.{
  Bool, List, String, [], any, concat_map, contains, eqb, false, if◌then◌else◌, leb, length,
  list_eq, ltb, map, nat_eq, option_eq, select, sort, string_eq, true, ℕ, ◌&&◌, ◌++◌, ◌-◌, ◌||◌,
  ◌∷◌,
}
use tasks_management.Agent.{EmployeeSummary, Unicode, category_eq}
use tasks_management.Agent.Patterns.{spans_of}

-- a place where an employee's name stands
pub record NameMatch : Type 0 where
  pub start : ℕ
  pub end : ℕ
  pub employee_id : String

-- the order by `(-(end - start), start)`
abbrev pub longer_first : NameMatch → NameMatch → Bool
longer_first a b =
    ltb (b.end - b.start) (a.end - a.start)
    || (eqb (b.end - b.start) (a.end - a.start) && ltb a.start b.start)

abbrev pub overlaps : NameMatch → NameMatch → Bool
overlaps a b = ltb a.start b.end && ltb b.start a.end

-- the matches that overlap none that was accepted before
unfoldable pub accepted_matches : List NameMatch → List NameMatch → List NameMatch
accepted_matches before [] = []
accepted_matches before (m ∷ ms) =
    let rejected = any (overlaps m) before in
    let rest = accepted_matches (if rejected then before else before ++ m ∷ []) ms in
    if rejected then rest else m ∷ rest

module _ {F : Type 0} (u : Unicode) where
  unfoldable pub name_matches : String → EmployeeSummary F → List NameMatch
  name_matches folded e =
      map (λ s. record { start = s.0; end = s.1; employee_id = e.employee_id })
        (spans_of u (u.casefold e.display_name) folded)

  abbrev pub has_id : String → EmployeeSummary F → Bool
  has_id folded e = leb 1 (length (spans_of u (u.casefold e.employee_id) folded))

  -- `_named_employees`
  unfoldable pub named_employees : List (EmployeeSummary F) → String → List (EmployeeSummary F)
  named_employees employees folded =
      let by_id = map (λ e. e.employee_id) (select (has_id folded) employees) in
      let by_name =
        map (λ m. m.employee_id)
          (accepted_matches [] (sort longer_first (concat_map (name_matches folded) employees))) in
      select (λ e. contains e.employee_id (by_id ++ by_name)) employees

  abbrev or_all :
      Bool → List (EmployeeSummary F) → List (EmployeeSummary F) → List (EmployeeSummary F)
  or_all include_all everyone (e ∷ es) = e ∷ es
  or_all true everyone [] = everyone
  or_all false everyone [] = []

  abbrev is_wanted : List String → EmployeeSummary F → Bool
  is_wanted wanted e =
      contains (u.casefold e.employee_id) wanted || contains (u.casefold e.display_name) wanted

  -- `_select_employees`
  unfoldable pub select_employees :
      List (EmployeeSummary F) → String → List String → Bool → List (EmployeeSummary F)
  select_employees employees folded [] include_all =
      or_all include_all employees (named_employees employees folded)
  select_employees employees folded (i ∷ is) include_all =
      or_all include_all employees (select (is_wanted (map u.casefold (i ∷ is))) employees)
