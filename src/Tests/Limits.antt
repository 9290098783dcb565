-- ===== src/Tests/Limits.antt =====
-- Four requests of one key under the policy of the scans, and one of another key between them.
use tasks_management.Base.{
  Bool, List, Option, Platform, String, [], arith, if◌then◌else◌, list_eq, ltb, nat_eq, none,
  option_eq, refl, some, starts_with, string_eq, ℕ, ◌+◌, ◌==◌, ◌∷◌, ◌≡◌, ◌≤◌,
}
use tasks_management.Limits.{RouteLimit, lookup, policies}
use tasks_management.Limits.Boundary.{
  Incoming, IsGuarded, dispatch, dispatch-IsGuarded, limit_key, policy_of, route_group,
}
use tasks_management.Limits.Forgetting.{answers, answers-counted_answers, counted_answers}
use tasks_management.Limits.Windows.{Attempt, allowed, allowed_bound}

abbrev scans : RouteLimit
scans = record { requests = 3; window_seconds = 60; max_body_bytes = 8192 }

abbrev at : String → ℕ → Attempt
at key now = record { key = key; policy = scans; now = now }

abbrev attempts : List Attempt
attempts = at "a" 100 ∷ at "a" 110 ∷ at "b" 120 ∷ at "a" 130 ∷ at "a" 159 ∷ []

allowed_bound_example : 0 + allowed "a" attempts [] ≤ 3
unfolding lookup
allowed_bound_example =
    allowed_bound "a" scans 100 0 attempts [] refl
      (
        (omega arith, omega arith, λ h. refl),
        (
          (omega arith, omega arith, λ h. refl),
          (
            (omega arith, omega arith, λ h. refl),
            ((omega arith, omega arith, λ h. refl), ((omega arith, omega arith, λ h. refl), tt)),
          ),
        ),
      )
      refl (omega arith)

answers-counted_answers_example : answers attempts [] ≡ counted_answers attempts (λ k. none)
unfolding lookup
answers-counted_answers_example =
    answers-counted_answers 100 attempts [] (λ k. none)
      (
        omega arith,
        refl,
        (omega arith, refl, (omega arith, refl, (omega arith, refl, (omega arith, refl, tt)))),
      )
      (record { is_dict = tt; agree = λ k. refl })

abbrev platform : Platform
platform = record { sha256 = λ s. s; dumps = λ d. "" }

abbrev of_length : String → Option (ℕ → Bool)
of_length s = if s == "9000" then some (λ bound. ltb bound 9000) else none

abbrev incoming : Incoming
incoming = record {
  path = "/api/v1/scans";
  method = "POST";
  correlation_header = none;
  content_length = some "9000";
  body_length = 9000;
  authorization = some "Bearer a";
}

dispatch-IsGuarded_example :
    (policy : RouteLimit) × (policy_of (route_group "/api/v1/scans") policies ≡ some policy)
    × IsGuarded platform of_length policy
        (limit_key platform of_length (route_group "/api/v1/scans") incoming)
        incoming
        100
        []
        (dispatch platform of_length incoming "u1" 100 [])
unfolding starts_with
dispatch-IsGuarded_example = dispatch-IsGuarded platform of_length incoming "u1" 100 [] refl
