-- ===== src/Limits/Boundary.antt =====
-- services/agent-api/src/agent_api/security/limits.py: RequestBoundaryMiddleware, which every request passes. The handler behind
-- it, SHA-256 and `int` of a text are parameters.
use tasks_management.Base.{
  All, All-Member, Bool, Bool-cases, List, Option, Platform, String, [], ap, arith, concat,
  contains, false, find_first, find_first-Member, first_chars, has_text, if◌then◌else◌, inl, inr,
  length, list_eq, ltb, nat_eq, none, not, option_eq, refl, some, starts_with, string_eq, true, ℕ,
  ◌&&◌, ◌==◌, ◌∷◌, ◌≡◌, ◌≤◌, ◌⊎◌,
}
use tasks_management.Limits.{RouteLimit, Windows, allow, policies}

-- what the middleware reads of a request
pub record Incoming : Type 0 where
  pub path : String
  pub method : String
  pub correlation_header : Option String
  pub content_length : Option String
  pub body_length : ℕ
  pub authorization : Option String

-- how a request ends: with an error of a status, a code and a correlation id, at the handler under a correlation id, at the
-- handler without one, or with a KeyError
pub data Passage : Type 0 where
  refused : ℕ → String → String → Passage
  handled : String → Passage
  unguarded : Passage
  key_error : String → Passage

abbrev groups : List String
groups = "investigations" ∷ "scans" ∷ "simulations" ∷ "proposals" ∷ "reports" ∷ []

abbrev or_default : Option String → String → String
or_default none s = s
or_default (some s) t = s

unfoldable pub route_group : String → String
route_group path = or_default (find_first (λ g. has_text (concat "/" g) path) groups) "default"

-- `POLICIES[group]`
unfoldable pub policy_of : String → List (String × RouteLimit) → Option RouteLimit
policy_of group [] = none
policy_of group ((g, policy) ∷ rest) = if g == group then some policy else policy_of group rest

abbrev pub has_body : String → Bool
has_body method = contains method ("POST" ∷ "PUT" ∷ "PATCH" ∷ [])

module _ (platform : Platform) (exceeds : String → Option (ℕ → Bool)) where
  -- the declared length: `exceeds` compares `int` of a text with a bound, and has no value where it raises a ValueError
  unfoldable pub length_error : RouteLimit → Option String → Option (ℕ × String)
  length_error policy none = none
  length_error policy (some length) = declared (exceeds length)
    where
      declared : Option (ℕ → Bool) → Option (ℕ × String)
      declared none = some (400, "INVALID_CONTENT_LENGTH")
      declared (some above) =
          if above policy.max_body_bytes then some (413, "REQUEST_TOO_LARGE") else none

  unfoldable pub body_error : RouteLimit → Incoming → Option (ℕ × String)
  body_error policy r =
      if has_body r.method && ltb policy.max_body_bytes r.body_length
      then some (413, "REQUEST_TOO_LARGE")
      else none

  abbrev pub limit_key : String → Incoming → String
  limit_key group r = concat group (
      concat ":" (
        concat r.method
          (concat ":" (first_chars 24 (platform.sha256 (or_default r.authorization "anonymous"))))))

  unfoldable pub limited : RouteLimit → String → String → ℕ → Windows → Passage × Windows
  limited policy key correlation_id now windows =
      let (let_in, windows') = allow key policy now windows in
      (
        if let_in then handled correlation_id else refused 429 "RATE_LIMITED" correlation_id,
        windows',
      )

  -- the checks in their order: the first error is the answer
  unfoldable pub checked_request :
      Option (ℕ × String)
      → Option (ℕ × String)
      → RouteLimit
      → String
      → String
      → ℕ
      → Windows
      → Passage × Windows
  checked_request (some (status, code)) body policy key correlation_id now windows =
      (refused status code correlation_id, windows)
  checked_request none (some (status, code)) policy key correlation_id now windows =
      (refused status code correlation_id, windows)
  checked_request none none policy key correlation_id now windows =
      limited policy key correlation_id now windows

  unfoldable pub under_policy :
      Option RouteLimit → String → Incoming → String → ℕ → Windows → Passage × Windows
  under_policy none group r correlation_id now windows = (key_error group, windows)
  under_policy (some policy) group r correlation_id now windows =
      checked_request (length_error policy r.content_length) (body_error policy r) policy
        (limit_key group r) correlation_id now windows

  -- `dispatch`, with the value of `uuid4()` and the time
  unfoldable pub dispatch : Incoming → String → ℕ → Windows → Passage × Windows
  dispatch r uuid now windows =
      if not (starts_with "/api/" r.path)
      then (unguarded, windows)
      else under_policy (policy_of (route_group r.path) policies) (route_group r.path) r
          (or_default r.correlation_header (concat "corr-" uuid)) now windows

-- every group of routes has a policy that counts by the minute
abbrev HasPolicy : String → Type 0
HasPolicy group = (p : RouteLimit) × (policy_of group policies ≡ some p) × (p.window_seconds ≡ 60)

or_default-HasPolicy :
    (o : Option String)
    → ((g : String) → o ≡ some g → HasPolicy g)
    → HasPolicy (or_default o "default")
unfolding policy_of policies
or_default-HasPolicy none h = (_, refl, refl)
or_default-HasPolicy (some g) h = h g refl

groups-HasPolicy : All HasPolicy groups
unfolding policy_of policies
groups-HasPolicy = (
  (_, refl, refl),
  ((_, refl, refl), ((_, refl, refl), ((_, refl, refl), ((_, refl, refl), tt)))),
)

route_group-HasPolicy : (path : String) → HasPolicy (route_group path)
unfolding route_group
route_group-HasPolicy path =
    or_default-HasPolicy (find_first (λ g. has_text (concat "/" g) path) groups)
      (λ g h. All-Member HasPolicy groups g groups-HasPolicy (find_first-Member _ groups g h))

module _ (platform : Platform) (exceeds : String → Option (ℕ → Bool)) where
  -- handled, with a body within the bound and let in by the limiter; or refused, and counted only if that is why
  abbrev pub IsGuarded : RouteLimit → String → Incoming → ℕ → Windows → Passage × Windows → Type 0
  IsGuarded policy key r now windows (answer, after) =
      ((correlation_id : String) × (answer ≡ handled correlation_id)
        × (has_body r.method ≡ true → r.body_length ≤ policy.max_body_bytes)
        × (allow key policy now windows ≡ (true, after)))
      ⊎ ((status : ℕ) × (code : String) × (correlation_id : String) × (answer
            ≡ refused status code correlation_id)
          × ((allow key policy now windows ≡ (false, after)) ⊎ (after ≡ windows)))

  limited-IsGuarded :
      (policy : RouteLimit) (key correlation_id : String) (r : Incoming) (now : ℕ)
      (windows : Windows)
      → (has_body r.method ≡ true → r.body_length ≤ policy.max_body_bytes)
      → IsGuarded policy key r now windows
          (limited platform exceeds policy key correlation_id now windows)
  unfolding limited
  limited-IsGuarded policy key correlation_id r now windows fits =
      let answer = allow key policy now windows in
      elim (Bool-cases answer.0) [
        | inl t ↦ inl (correlation_id, rw t refl, fits, ap (λ b. (b, answer.1)) t)
        | inr f ↦
            inr (429, "RATE_LIMITED", correlation_id, rw f refl, inl (ap (λ b. (b, answer.1)) f))
      ]

  body_error-fits :
      (policy : RouteLimit) (r : Incoming)
      → body_error platform exceeds policy r ≡ none
      → has_body r.method ≡ true
      → r.body_length ≤ policy.max_body_bytes
  unfolding body_error
  body_error-fits policy r h writes = elim (Bool-cases (ltb policy.max_body_bytes r.body_length)) [
    | inl t ↦ let own = rw (writes, t) at h in cc
    | inr f ↦ ground arith
  ]

  checked_request-IsGuarded :
      (l b : Option (ℕ × String)) (policy : RouteLimit) (key correlation_id : String) (r : Incoming)
      (now : ℕ) (windows : Windows)
      → (b ≡ none → has_body r.method ≡ true → r.body_length ≤ policy.max_body_bytes)
      → IsGuarded policy key r now windows
          (checked_request platform exceeds l b policy key correlation_id now windows)
  unfolding checked_request
  checked_request-IsGuarded (some (status, code)) b policy key correlation_id r now windows fits =
      inr (status, code, correlation_id, refl, inr refl)
  checked_request-IsGuarded none (some (status, code)) policy key correlation_id r now windows
        fits =
      inr (status, code, correlation_id, refl, inr refl)
  checked_request-IsGuarded none none policy key correlation_id r now windows fits =
      limited-IsGuarded policy key correlation_id r now windows (fits refl)

  -- A request to the API never fails for want of a policy. It is handled only with a body, where its method has one, within
  -- the bound of the policy of its route, and after the rate limiter has let it in; otherwise it is refused, by the rate
  -- limiter or without asking it.
  pub dispatch-IsGuarded :
      (r : Incoming) (uuid : String) (now : ℕ) (windows : Windows)
      → starts_with "/api/" r.path ≡ true
      → (policy : RouteLimit) × (policy_of (route_group r.path) policies ≡ some policy)
        × IsGuarded policy
            (limit_key platform exceeds (route_group r.path) r)
            r
            now
            windows
            (dispatch platform exceeds r uuid now windows)
  unfolding dispatch under_policy
  dispatch-IsGuarded r uuid now windows api =
      let (policy, found, minute) = route_group-HasPolicy r.path in
      (
        policy,
        found,
        rw api (
            rw found (
              checked_request-IsGuarded (length_error platform exceeds policy r.content_length)
                (body_error platform exceeds policy r) policy
                (limit_key platform exceeds (route_group r.path) r)
                (or_default r.correlation_header (concat "corr-" uuid)) r now windows
                (body_error-fits policy r))),
      )
