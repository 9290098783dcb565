-- ===== src/Limits/Windows.antt =====
-- InMemoryRateLimiter.allow: how many requests of one key are let through, whatever other keys do.
use tasks_management.Base.{
  ==_eq, ==_refl, All, Bool-cases, List, Option, String, [], ap, arith, false, if◌then◌else◌, inl,
  inr, leb, length, ltb, nat_eq, none, option_eq, refl, select, some, string_eq, subst, sym, true,
  ℕ, ◌&&◌, ◌+◌, ◌<◌, ◌==◌, ◌∙◌, ◌∷◌, ◌≡◌, ◌≤◌, ◌⊎◌,
}
use tasks_management.Limits.{RouteLimit, Windows, allow, current_window, lookup, pruned, set}

-- a request: its key, its policy and its time
pub record Attempt : Type 0 where
  pub key : String
  pub policy : RouteLimit
  pub now : ℕ

-- how many of the requests of `key` are let through
unfoldable pub allowed : String → List Attempt → Windows → ℕ
allowed key [] windows = 0
allowed key (a ∷ rest) windows =
    let (let_in, windows') = allow a.key a.policy a.now windows in
    (if let_in && a.key == key then 1 else 0) + allowed key rest windows'

-- the requests of `key` have the policy, and all are made within a minute of `t`
abbrev pub IsWithin : String → RouteLimit → ℕ → Attempt → Type 0
IsWithin key policy t a =
    (t ≤ a.now) × (a.now < t + 60) × ((a.key == key) ≡ true → a.policy ≡ policy)

-- what is recorded of a key: nothing yet, or a window that starts at `t` or later
abbrev Recorded : ℕ → ℕ → Option (ℕ × ℕ) → Type 0
Recorded t c none = c ≡ 0
Recorded t c (some (started, count)) = (t ≤ started) × (count ≡ c)

pub lookup-set : (key : String) (v : ℕ × ℕ) (ws : Windows) → lookup key (set key v ws) ≡ some v
unfolding lookup set
lookup-set key v [] = rw (==_refl key) refl
lookup-set key v ((k, u) ∷ rest) = elim (Bool-cases (k == key)) [
  | inl t ↦ rw t (rw t refl)
  | inr f ↦ rw f (rw f (lookup-set key v rest))
]

pub lookup-set_other :
    (key other : String) (v : ℕ × ℕ) (ws : Windows)
    → (other == key) ≡ false
    → lookup key (set other v ws) ≡ lookup key ws
unfolding lookup set
lookup-set_other key other v [] h = rw h refl
lookup-set_other key other v ((k, u) ∷ rest) h = elim (Bool-cases (k == other)) [
  | inl t ↦ let differs : (k == key) ≡ false = rw (==_eq {a = k} t) h in rw t (rw differs refl)
  | inr f ↦ rw f (elim (Bool-cases (k == key)) [
    | inl t ↦ rw t refl
    | inr g ↦ rw g (lookup-set_other key other v rest h)
  ])
]

Recorded-select :
    (key : String) (t now c : ℕ) (ws : Windows)
    → now < t + 60
    → Recorded t c (lookup key ws)
    → Recorded t c (lookup key (select (λ e. ltb now (e.1.0 + 60)) ws))
unfolding lookup select
Recorded-select key t now c [] le h = h
Recorded-select key t now c ((k, (s, n)) ∷ rest) le h = elim (Bool-cases (ltb now (s + 60))) [
  | inl kept ↦ rw kept (elim (Bool-cases (k == key)) [
    | inl t ↦ rw t (rw t at h)
    | inr f ↦ rw f (Recorded-select key t now c rest le (rw f at h))
  ])
  | inr dropped ↦ rw dropped (elim (Bool-cases (k == key)) [
    | inl t ↦ let own = rw t at h in absurd (ground arith)
    | inr f ↦ Recorded-select key t now c rest le (rw f at h)
  ])
]

Recorded-pruned :
    (key : String) (t now c : ℕ) (ws : Windows)
    → now < t + 60
    → Recorded t c (lookup key ws)
    → Recorded t c (lookup key (pruned now ws))
unfolding pruned
Recorded-pruned key t now c ws le h = elim (Bool-cases (ltb 10000 (length ws))) [
  | inl large ↦ rw large (Recorded-select key t now c ws le h)
  | inr small ↦ rw small h
]

-- the window that a request of the key falls into
current_window-Recorded :
    (policy : RouteLimit) (t now c : ℕ) (o : Option (ℕ × ℕ))
    → t ≤ now
    → now < t + 60
    → policy.window_seconds ≡ 60
    → Recorded t c o
    → (t ≤ (current_window policy now o).0) × ((current_window policy now o).1 ≡ c)
unfolding current_window
current_window-Recorded policy t now c none from until minute h = (from, sym h)
current_window-Recorded policy t now c (some (started, count)) from until minute (later, same) =
    elim (Bool-cases (leb (started + policy.window_seconds) now)) [
      | inl over ↦ absurd (ground arith)
      | inr within ↦ rw within (later, same)
    ]

allow-foreign :
    (key : String) (t c : ℕ) (a : Attempt) (ws : Windows)
    → a.now < t + 60
    → (a.key == key) ≡ false
    → Recorded t c (lookup key ws)
    → Recorded t c (lookup key (allow a.key a.policy a.now ws).1)
unfolding allow
allow-foreign key t c a ws until foreign h =
    let ws' = pruned a.now ws in
    let h' = Recorded-pruned key t a.now c ws until h in
    let (started, count) = current_window a.policy a.now (lookup a.key ws') in
    elim (Bool-cases (leb a.policy.requests count)) [
      | inl full ↦ rw full h'
      | inr room ↦ rw room (
          subst (Recorded t c) (sym (lookup-set_other key a.key (started, count + 1) ws' foreign))
            h')
    ]

-- what the limiter makes of a request of the key: it is refused, or counted while there is room
allow-own :
    (key : String) (policy : RouteLimit) (t c now : ℕ) (ws : Windows)
    → t ≤ now
    → now < t + 60
    → policy.window_seconds ≡ 60
    → Recorded t c (lookup key ws)
    → let (let_in, ws') = allow key policy now ws in
      ((let_in ≡ false) × Recorded t c (lookup key ws'))
      ⊎ ((let_in ≡ true) × (c < policy.requests) × Recorded t (c + 1) (lookup key ws'))
unfolding allow
allow-own key policy t c now ws from until minute h =
    let ws' = pruned now ws in
    let h' = Recorded-pruned key t now c ws until h in
    let window = current_window policy now (lookup key ws') in
    let (later, same) =
      current_window-Recorded policy t now c (lookup key ws') from until minute h' in
    elim (Bool-cases (leb policy.requests window.1)) [
      | inl full ↦ inl (rw full refl, rw full h')
      | inr room ↦ inr (
        rw room refl,
        ground arith,
        rw room (
            subst (Recorded t (c + 1)) (sym (lookup-set key (window.0, window.1 + 1) ws'))
              (later, omega (arith, same))),
      )
    ]

-- If no window of the key started before a minute, at most `requests` requests of the key are let through
-- within that minute: whatever other keys do, and however often the limiter forgets old windows. The
-- requests that its window has counted already are among them.
pub allowed_bound :
    (key : String) (policy : RouteLimit) (t c : ℕ) (attempts : List Attempt) (ws : Windows)
    → policy.window_seconds ≡ 60
    → All (IsWithin key policy t) attempts
    → Recorded t c (lookup key ws)
    → c ≤ policy.requests
    → c + allowed key attempts ws ≤ policy.requests
unfolding allowed
allowed_bound key policy t c [] ws minute within h le = omega (arith, le)
allowed_bound key policy t c (a ∷ rest) ws minute ((from, until, own), within) h le =
    let windows = (allow a.key a.policy a.now ws).1 in
    elim (Bool-cases (a.key == key)) [
      | inr foreign ↦
          let after = allow-foreign key t c a ws until foreign h in
          ground (arith, allowed_bound key policy t c rest windows minute within after le)
      | inl mine ↦
          let same = ==_eq {a = a.key} (mine) in
          let agreed = own mine in
          let step =
            allow-own a.key a.policy t c a.now ws from until
              (ap (λ (l : RouteLimit). l.window_seconds) agreed ∙ minute)
              (subst (λ k. Recorded t c (lookup k ws)) (sym same) h) in
          elim step [
            | inl (refused, after) ↦ rw refused (
                omega (
                  arith,
                  allowed_bound key policy t c rest windows minute within
                      (subst (λ k. Recorded t c (lookup k windows)) same after) le,
                ))
            | inr (granted, room, after) ↦
                let room' : c < policy.requests =
                  subst (λ (l : RouteLimit). c < l.requests) agreed room in
                rw (granted, mine)
                  (omega (
                    arith,
                    allowed_bound key policy t (c + 1) rest windows minute within
                        (subst (λ k. Recorded t (c + 1) (lookup k windows)) same after)
                        (omega (arith, room')),
                  ))
          ]
    ]
