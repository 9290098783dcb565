-- ===== src/Profiles.antt =====
-- domain/workforce_risk/profiles.py: the profiles of employees. Floats and `str.casefold` are parameters; times are
-- in one unit. The patterns and lengths of texts are not checked here.
pub mod Capacity
use tasks_management.Base.{
  Bool, List, Option, Result, String, [], any, concat_map, contains, eqb, err, false, find_first,
  has_value, if◌then◌else◌, leb, length, list_eq, ltb, map, nat_eq, none, not, ok, option_eq,
  select, some, sort, string_eq, to_list, true, value_error, ℕ, ◌&&◌, ◌==◌, ◌||◌, ◌∷◌,
}

pub data Seniority : Type 0 where
  junior mid senior lead : Seniority

pub data SkillProficiency : Type 0 where
  aware beginner intermediate advanced expert : SkillProficiency

pub record DocumentedSkill : Type 0 where
  pub name : String
  pub proficiency : SkillProficiency

pub record ProjectAllocation (F : Type 0) : Type 0 where
  pub project_key : String
  pub fraction : F

pub record CapacityOverride (F : Type 0) : Type 0 where
  pub starts_at : ℕ
  pub ends_at : ℕ
  pub capacity_hours : F
  pub reason : String

pub record WorkforceProfile (F : Type 0) : Type 0 where
  pub employee_id : String
  pub environment : String
  pub role : String
  pub seniority : Seniority
  pub documented_skills : List DocumentedSkill
  pub weekly_capacity_hours : F
  pub project_allocations : List (ProjectAllocation F)
  pub mentoring_available : Bool
  pub capacity_overrides : List (CapacityOverride F)
  pub jira_account_id : Option String
  pub version : ℕ

-- `sum`, starting at 0, and the test `> 1 + 1e-9`
pub record ProfileRuntime (F : Type 0) : Type 0 where
  pub casefold : String → String
  pub sum : List F → F
  pub above_one : F → Bool

-- `len(xs) == len(set(xs))`
unfoldable pub is_unique : List String → Bool
is_unique [] = true
is_unique (x ∷ xs) = not (contains x xs) && is_unique xs

module _ {F : Type 0} where
  -- `CapacityOverride.validate_window`
  unfoldable pub validate_window : CapacityOverride F → Result (CapacityOverride F)
  validate_window o =
      if leb o.ends_at o.starts_at
      then err (value_error "capacity override must end after it starts")
      else ok o

  abbrev pub starts_before : CapacityOverride F → CapacityOverride F → Bool
  starts_before a b = ltb a.starts_at b.starts_at

  -- a window of the sorted list that starts before the one before it ends
  unfoldable pub overlaps_after : CapacityOverride F → List (CapacityOverride F) → Bool
  overlaps_after previous [] = false
  overlaps_after previous (current ∷ rest) =
      ltb current.starts_at previous.ends_at || overlaps_after current rest

  unfoldable pub has_overlap : List (CapacityOverride F) → Bool
  has_overlap [] = false
  has_overlap (first ∷ rest) = overlaps_after first rest

  -- `WorkforceProfile.validate_profile`
  unfoldable pub validate_profile :
      ProfileRuntime F → WorkforceProfile F → Result (WorkforceProfile F)
  validate_profile r p =
      if not (is_unique (map (λ skill. r.casefold skill.name) p.documented_skills))
      then err (value_error "documented skills must be unique")
      else if not (is_unique (map (λ item. item.project_key) p.project_allocations))
      then err (value_error "project allocations must be unique")
      else if r.above_one (r.sum (map (λ item. item.fraction) p.project_allocations))
      then err (value_error "project allocations must not exceed 1.0")
      else if has_overlap (sort starts_before p.capacity_overrides)
      then err (value_error "capacity override windows must not overlap")
      else ok p

  abbrev pub covers : ℕ → CapacityOverride F → Bool
  covers at o = leb o.starts_at at && ltb at o.ends_at

  abbrev capacity_of : F → Option (CapacityOverride F) → F
  capacity_of weekly none = weekly
  capacity_of weekly (some o) = o.capacity_hours

  -- `WorkforceProfile.effective_capacity`
  unfoldable pub effective_capacity : WorkforceProfile F → ℕ → F
  effective_capacity p at =
      capacity_of p.weekly_capacity_hours (find_first (covers at) p.capacity_overrides)

  abbrev pub is_mapped : WorkforceProfile F → Bool
  is_mapped p = has_value p.jira_account_id

  -- `validate_profile_set`
  unfoldable pub validate_profile_set :
      List (WorkforceProfile F) → String → List String → Result (Unit {0})
  validate_profile_set profiles environment jira_mapping_employee_ids =
      let mapped = select is_mapped profiles in
      if eqb (length profiles) 0 || not (is_unique (map (λ p. p.employee_id) profiles))
      then err (value_error "profile employee IDs must be non-empty and unique")
      else if any (λ p. not (p.environment == environment)) profiles
      then err (value_error "profile environment mismatch")
      else if any (λ p. not (contains p.employee_id jira_mapping_employee_ids)) mapped
      then err (value_error "Jira account mapping is not allowed for this employee")
      else if not (is_unique (concat_map (λ p. to_list p.jira_account_id) mapped))
      then err (value_error "Jira account mappings must be unique")
      else ok tt
