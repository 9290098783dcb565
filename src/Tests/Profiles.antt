-- ===== src/Tests/Profiles.antt =====
-- A profile with two overrides, the later one listed first.
use tasks_management.Base.{
  Member, [], contains, inl, inr, insert, leb, list_eq, nat_eq, none, ok, option_eq, refl, sort,
  string_eq, subst, true, ℕ, ◌∷◌, ◌≡◌,
}
use tasks_management.Profiles.{
  CapacityOverride, ProfileRuntime, WorkforceProfile, effective_capacity, has_overlap, is_unique,
  overlaps_after, senior, validate_profile, validate_window,
}
use tasks_management.Profiles.Capacity.{effective_capacity-covers}

abbrev runtime : ProfileRuntime ℕ
runtime = record { casefold = λ s. s; sum = λ xs. 1; above_one = λ x. leb 2 x }

abbrev later : CapacityOverride ℕ
later = record { starts_at = 20; ends_at = 30; capacity_hours = 8; reason = "course" }

abbrev earlier : CapacityOverride ℕ
earlier = record { starts_at = 10; ends_at = 20; capacity_hours = 0; reason = "leave" }

abbrev profile : WorkforceProfile ℕ
profile = record {
  employee_id = "EMP-001";
  environment = "dev";
  role = "engineer";
  seniority = senior;
  documented_skills = [];
  weekly_capacity_hours = 40;
  project_allocations = record { project_key = "WRD"; fraction = 1 } ∷ [];
  mentoring_available = true;
  capacity_overrides = later ∷ earlier ∷ [];
  jira_account_id = none;
  version = 1;
}

is_accepted : validate_profile runtime profile ≡ ok profile
unfolding validate_profile is_unique has_overlap overlaps_after sort insert contains
is_accepted = refl

are_windows : (v : CapacityOverride ℕ) → Member v (later ∷ earlier ∷ []) → validate_window v ≡ ok v
unfolding validate_window
are_windows v (inl first) = subst (λ w. validate_window w ≡ ok w) first refl
are_windows v (inr (inl second)) = subst (λ w. validate_window w ≡ ok w) second refl
are_windows v (inr (inr m)) = absurd (m.0)

effective_capacity-covers_example : effective_capacity profile 15 ≡ 0
effective_capacity-covers_example =
    effective_capacity-covers runtime profile 15 earlier is_accepted are_windows (inr (inl refl))
      refl
