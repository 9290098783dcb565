-- ===== src/Limits/Forgetting.antt =====
-- InMemoryRateLimiter against a limiter that has a window for each key and forgets none: the cleaning of the dict is not seen.
use tasks_management.Base.{
  ==_eq, ==_refl, Bool, Bool-cases, List, Option, String, [], ap, arith, false, if◌then◌else◌, inl,
  inr, leb, length, list_eq, ltb, nat_eq, none, option_eq, refl, select, some, string_eq, subst,
  sym, true, ℕ, ◌+◌, ◌==◌, ◌∙◌, ◌∷◌, ◌≡◌, ◌≤◌,
}
use tasks_management.Limits.{RouteLimit, Windows, allow, current_window, lookup, pruned, set}
use tasks_management.Limits.Windows.{Attempt, lookup-set, lookup-set_other}

-- the state of the limiter that forgets nothing, and its answer
abbrev pub Counters : Type 0
Counters = String → Option (ℕ × ℕ)

abbrev pub replaced : String → ℕ × ℕ → Counters → Counters
replaced key v f k = if key == k then some v else f k

unfoldable pub counted : String → RouteLimit → ℕ → Counters → Bool × Counters
counted key policy now f =
    let (started, count) = current_window policy now (f key) in
    if leb policy.requests count then (false, f) else (true, replaced key (started, count + 1) f)

-- the answers to a sequence of requests, by either limiter
unfoldable pub answers : List Attempt → Windows → List Bool
answers [] ws = []
answers (a ∷ rest) ws =
    let (let_in, ws') = allow a.key a.policy a.now ws in let_in ∷ answers rest ws'

unfoldable pub counted_answers : List Attempt → Counters → List Bool
counted_answers [] f = []
counted_answers (a ∷ rest) f =
    let (let_in, f') = counted a.key a.policy a.now f in let_in ∷ counted_answers rest f'

-- the requests come in the order of time, and count by the minute as all policies do
abbrev pub InOrder : ℕ → List Attempt → Type 0
InOrder now [] = Unit
InOrder now (a ∷ rest) = (now ≤ a.now) × (a.policy.window_seconds ≡ 60) × InOrder a.now rest

-- no key stands twice
abbrev pub IsDict : Windows → Type 0
IsDict [] = Unit
IsDict ((k, v) ∷ rest) = (lookup k rest ≡ none) × IsDict rest

-- a window that is not over
abbrev pub live : ℕ → Option (ℕ × ℕ) → Option (ℕ × ℕ)
live now none = none
live now (some (started, count)) = if ltb now (started + 60) then some (started, count) else none

-- both know the same windows, those apart that are over
pub record Refines (now : ℕ) (ws : Windows) (f : Counters) : Type 0 where
  pub is_dict : IsDict ws
  pub agree : (k : String) → live now (lookup k ws) ≡ live now (f k)

abbrev kept : ℕ → String × (ℕ × ℕ) → Bool
kept now e = ltb now (e.1.0 + 60)

lookup-select :
    (k : String) (now : ℕ) (ws : Windows)
    → lookup k ws ≡ none
    → lookup k (select (kept now) ws) ≡ none
unfolding lookup select
lookup-select k now [] h = refl
lookup-select k now ((j, v) ∷ rest) h = elim (Bool-cases (j == k)) [
  | inl t ↦ let own = rw t at h in cc
  | inr f ↦ elim (Bool-cases (ltb now (v.0 + 60))) [
    | inl stays ↦ rw stays (rw f (lookup-select k now rest (rw f at h)))
    | inr goes ↦ rw goes (lookup-select k now rest (rw f at h))
  ]
]

live-select :
    (k : String) (now : ℕ) (ws : Windows)
    → IsDict ws
    → live now (lookup k (select (kept now) ws)) ≡ live now (lookup k ws)
unfolding lookup select
live-select k now [] d = refl
live-select k now ((j, v) ∷ rest) (fresh, d) = elim (Bool-cases (j == k)) [
  | inl t ↦ elim (Bool-cases (ltb now (v.0 + 60))) [
    | inl stays ↦ rw stays (rw t refl)
    | inr goes ↦
        let gone : lookup k (select (kept now) rest) ≡ none =
          lookup-select k now rest (subst (λ i. lookup i rest ≡ none) (==_eq {a = j} t) fresh) in
        rw (goes, t) (rw gone (rw goes refl))
  ]
  | inr f ↦ elim (Bool-cases (ltb now (v.0 + 60))) [
    | inl stays ↦ rw stays (rw f (live-select k now rest d))
    | inr goes ↦ rw goes (rw f (live-select k now rest d))
  ]
]

IsDict-select : (now : ℕ) (ws : Windows) → IsDict ws → IsDict (select (kept now) ws)
unfolding select
IsDict-select now [] d = tt
IsDict-select now ((j, v) ∷ rest) (fresh, d) = elim (Bool-cases (ltb now (v.0 + 60))) [
  | inl stays ↦ rw stays (lookup-select j now rest fresh, IsDict-select now rest d)
  | inr goes ↦ rw goes (IsDict-select now rest d)
]

Refines-pruned :
    (now : ℕ) (ws : Windows) (f : Counters) → Refines now ws f → Refines now (pruned now ws) f
unfolding pruned
Refines-pruned now ws f h = elim (Bool-cases (ltb 10000 (length ws))) [
  | inl large ↦ rw large (record {
    is_dict = IsDict-select now ws h.is_dict;
    agree = λ k. live-select k now ws h.is_dict ∙ h.agree k;
  })
  | inr small ↦ rw small h
]

==_sym : (a b : String) → (a == b) ≡ false → (b == a) ≡ false
==_sym a b h = elim (Bool-cases (b == a)) [
  | inl t ↦
      let same : a ≡ b = sym (==_eq {a = b} t) in
      let own = rw same at h in let refl_b : (b == b) ≡ true = ==_refl b in cc
  | inr f ↦ f
]

IsDict-set : (key : String) (v : ℕ × ℕ) (ws : Windows) → IsDict ws → IsDict (set key v ws)
unfolding set lookup
IsDict-set key v [] d = (refl, tt)
IsDict-set key v ((j, u) ∷ rest) (fresh, d) = elim (Bool-cases (j == key)) [
  | inl t ↦ rw t (fresh, d)
  | inr f ↦ rw f (lookup-set_other j key v rest (==_sym j key f) ∙ fresh, IsDict-set key v rest d)
]

Refines-set :
    (key : String) (v : ℕ × ℕ) (now : ℕ) (ws : Windows) (f : Counters)
    → Refines now ws f
    → Refines now (set key v ws) (replaced key v f)
Refines-set key v now ws f h = record {
  is_dict = IsDict-set key v ws h.is_dict;
  agree = λ k. elim (Bool-cases (key == k)) [
    | inl t ↦ rw t (
        ap (live now)
          (subst (λ i. lookup i (set key v ws) ≡ some v) (==_eq {a = key} t) (lookup-set key v ws)))
    | inr o ↦ rw o (ap (live now) (lookup-set_other k key v ws o) ∙ h.agree k)
  ];
}

live_later :
    (now later : ℕ) (o : Option (ℕ × ℕ)) → now ≤ later → live later (live now o) ≡ live later o
live_later now later none le = refl
live_later now later (some (started, count)) le = elim (Bool-cases (ltb now (started + 60))) [
  | inl t ↦ rw t refl
  | inr f ↦ let over : ltb later (started + 60) ≡ false = ground arith in rw (f, over) refl
]

Refines-later :
    (now later : ℕ) (ws : Windows) (f : Counters)
    → now ≤ later
    → Refines now ws f
    → Refines later ws f
Refines-later now later ws f le h = record {
  is_dict = h.is_dict;
  agree = λ k.
      sym (live_later now later (lookup k ws) le)
      ∙ ap (live later) (h.agree k)
      ∙ live_later now later (f k) le;
}

current_window-live :
    (policy : RouteLimit) (now : ℕ) (o : Option (ℕ × ℕ))
    → policy.window_seconds ≡ 60
    → current_window policy now (live now o) ≡ current_window policy now o
unfolding current_window
current_window-live policy now none minute = refl
current_window-live policy now (some (started, count)) minute =
    elim (Bool-cases (ltb now (started + 60))) [
      | inl t ↦ rw t refl
      | inr f ↦
          let over : leb (started + policy.window_seconds) now ≡ true = ground arith in
          rw (f, over) refl
    ]

current_window-agree :
    (policy : RouteLimit) (now : ℕ) (o p : Option (ℕ × ℕ))
    → policy.window_seconds ≡ 60
    → live now o ≡ live now p
    → current_window policy now o ≡ current_window policy now p
current_window-agree policy now o p minute h =
    sym (current_window-live policy now o minute)
    ∙ ap (current_window policy now) h
    ∙ current_window-live policy now p minute

-- one request is answered alike, and leaves both alike
allow-Refines :
    (key : String) (policy : RouteLimit) (now : ℕ) (ws : Windows) (f : Counters)
    → policy.window_seconds ≡ 60
    → Refines now ws f
    → ((allow key policy now ws).0 ≡ (counted key policy now f).0)
      × Refines now (allow key policy now ws).1 (counted key policy now f).1
unfolding allow counted
allow-Refines key policy now ws f minute h =
    let ws' = pruned now ws in
    let h' = Refines-pruned now ws f h in
    let same = current_window-agree policy now (lookup key ws') (f key) minute (h'.agree key) in
    let window = current_window policy now (f key) in
    rw same (elim (Bool-cases (leb policy.requests window.1)) [
      | inl full ↦ rw full (refl, h')
      | inr room ↦ rw room (refl, Refines-set key (window.0, window.1 + 1) now ws' f h')
    ])

-- For requests in the order of time, under policies that count by the minute, the rate limiter gives the same answers as a
-- limiter that keeps a window for every key and forgets none.
pub answers-counted_answers :
    (now : ℕ) (attempts : List Attempt) (ws : Windows) (f : Counters)
    → InOrder now attempts
    → Refines now ws f
    → answers attempts ws ≡ counted_answers attempts f
unfolding answers counted_answers
answers-counted_answers now [] ws f in_order h = refl
answers-counted_answers now (a ∷ rest) ws f (le, minute, in_order) h =
    let (same, after) =
      allow-Refines a.key a.policy a.now ws f minute (Refines-later now a.now ws f le h) in
    let later = answers-counted_answers a.now rest _ _ in_order after in rw (same, later) refl
