-- ===== src/Limits.antt =====
-- services/agent-api/src/agent_api/security/limits.py: the rate limiter of the API. Times are those of a
-- monotonic clock, in whole seconds.
pub mod Windows
pub mod Forgetting
pub mod Boundary
use tasks_management.Base.{
  Bool, List, Option, String, [], false, if◌then◌else◌, leb, length, ltb, nat_eq, none, option_eq,
  select, some, string_eq, true, ℕ, ◌+◌, ◌==◌, ◌∷◌,
}

pub record RouteLimit : Type 0 where
  pub requests : ℕ
  pub window_seconds : ℕ
  pub max_body_bytes : ℕ

abbrev limit : ℕ → ℕ → ℕ → RouteLimit
limit requests window_seconds max_body_bytes = record {
  requests = requests;
  window_seconds = window_seconds;
  max_body_bytes = max_body_bytes;
}

-- POLICIES
unfoldable pub policies : List (String × RouteLimit)
policies =
    ("investigations", limit 20 60 16384)
    ∷ ("scans", limit 3 60 8192)
    ∷ ("simulations", limit 20 60 16384)
    ∷ ("proposals", limit 10 60 16384)
    ∷ ("reports", limit 30 60 4096)
    ∷ ("default", limit 120 60 65536)
    ∷ []

-- the dict of InMemoryRateLimiter: for each key the start of its window and the requests counted in it
abbrev pub Windows : Type 0
Windows = List (String × (ℕ × ℕ))

unfoldable pub lookup : String → Windows → Option (ℕ × ℕ)
lookup key [] = none
lookup key ((k, v) ∷ rest) = if k == key then some v else lookup key rest

-- `self._windows[key] = value`
unfoldable pub set : String → ℕ × ℕ → Windows → Windows
set key value [] = (key, value) ∷ []
set key value ((k, v) ∷ rest) =
    let rest' = set key value rest in if k == key then (k, value) ∷ rest else (k, v) ∷ rest'

-- the cleaning of a dict that has grown too large
unfoldable pub pruned : ℕ → Windows → Windows
pruned now windows =
    if ltb 10000 (length windows) then select (λ e. ltb now (e.1.0 + 60)) windows else windows

-- the window that a request falls into, and the requests counted in it
unfoldable pub current_window : RouteLimit → ℕ → Option (ℕ × ℕ) → ℕ × ℕ
current_window policy now none = (now, 0)
current_window policy now (some (started, count)) =
    if leb (started + policy.window_seconds) now then (now, 0) else (started, count)

-- InMemoryRateLimiter.allow
unfoldable pub allow : String → RouteLimit → ℕ → Windows → Bool × Windows
allow key policy now windows =
    let windows' = pruned now windows in
    let (started, count) = current_window policy now (lookup key windows') in
    if leb policy.requests count
    then (false, windows')
    else (true, set key (started, count + 1) windows')
