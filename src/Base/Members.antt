-- ===== src/Base/Members.antt =====
-- Membership of a row in a table, and what keeps it.
use mathlib.Core.Path.{◌≡◌, refl, subst, ap}
use mathlib.Core.Bool.{Bool, true, false}
use mathlib.Core.Option.{some}
use mathlib.Core.List.{List, [], ◌∷◌, map}
use mathlib.Core.Logic.{◌⊎◌, inl, inr}
use native.Mathlib.Omega.{arith}
use tasks_management.Base.Tests.{Bool-cases, EqTest}
use tasks_management.Base.Table.{any, contains, find_first, select, All}
use tasks_management.Base.Sorting.{insert, sort}

module _ {ℓ} {A : Type ℓ} where
  abbrev pub Member : A → List A → Type ℓ
  Member a [] = ⊥ × Unit {ℓ}
  Member a (x ∷ xs) = (x ≡ a) ⊎ Member a xs

  -- the members of one list are members of the other
  abbrev pub Within : List A → List A → Type ℓ
  Within xs ys = (a : A) → Member a xs → Member a ys

  pub insert-Member :
      (less : A → A → Bool) (x : A) (ys : List A) (a : A)
      → Member a (x ∷ ys)
      → Member a (insert less x ys)
  unfolding insert
  insert-Member less x [] a h = h
  insert-Member less x (y ∷ ys) a h = elim (Bool-cases (less y x)) [
    | inr f ↦ rw f h
    | inl t ↦ rw t (elim h [
      | inl new ↦ inr (insert-Member less x ys a (inl new))
      | inr old ↦ elim old [
        | inl first ↦ inl first
        | inr later ↦ inr (insert-Member less x ys a (inr later))
      ]
    ])
  ]

  pub sort-Member : (less : A → A → Bool) (xs : List A) → Within xs (sort less xs)
  unfolding sort
  sort-Member less [] a h = h
  sort-Member less (x ∷ xs) a h =
      insert-Member less x (sort less xs) a
        (elim h [ inl first ↦ inl first | inr later ↦ inr (sort-Member less xs a later) ])

  -- The row that is found is a member, and one is found if a member passes the test.
  pub find_first-Member :
      (p : A → Bool) (xs : List A) (a : A) → find_first p xs ≡ some a → Member a xs
  unfolding find_first
  find_first-Member p [] a h = cc
  find_first-Member p (x ∷ xs) a h = elim (Bool-cases (p x)) [
    | inl t ↦ inl (cc (rw t at h))
    | inr f ↦ inr (find_first-Member p xs a (rw f at h))
  ]

  pub find_first-exists :
      (p : A → Bool) (xs : List A) (a : A)
      → Member a xs
      → p a ≡ true
      → (b : A) × (find_first p xs ≡ some b)
  unfolding find_first
  find_first-exists p [] a h passes = absurd (h.0)
  find_first-exists p (x ∷ xs) a h passes = elim (Bool-cases (p x)) [
    | inl t ↦ (x, rw t refl)
    | inr f ↦ elim h [
      | inl first ↦ absurd (cc (f, first, passes))
      | inr later ↦ rw f (find_first-exists p xs a later passes)
    ]
  ]

  pub All-Member {κ} : (P : A → Type κ) (xs : List A) (a : A) → All P xs → Member a xs → P a
  All-Member P [] a h m = absurd (m.0)
  All-Member P (x ∷ xs) a (h, hs) m = elim m [
    | inl first ↦ subst P first h
    | inr later ↦ All-Member P xs a hs later
  ]

  pub select-Member :
      (p : A → Bool) (xs : List A) (a : A) → Member a (select p xs) → Member a xs × (p a ≡ true)
  unfolding select
  select-Member p [] a m = absurd (m.0)
  select-Member p (x ∷ xs) a m = elim (Bool-cases (p x)) [
    | inr f ↦ let (old, passes) = select-Member p xs a (rw f at m) in (inr old, passes)
    | inl t ↦ elim (rw t at m) [
      | inl first ↦ (inl first, subst (λ y. p y ≡ true) first t)
      | inr later ↦ let (old, passes) = select-Member p xs a later in (inr old, passes)
    ]
  ]

  pub Member-select :
      (p : A → Bool) (xs : List A) (a : A) → Member a xs → p a ≡ true → Member a (select p xs)
  unfolding select
  Member-select p [] a m passes = absurd (m.0)
  Member-select p (x ∷ xs) a m passes = elim (Bool-cases (p x)) [
    | inl t ↦
        rw t
          (elim m [ inl first ↦ inl first | inr later ↦ inr (Member-select p xs a later passes) ])
    | inr f ↦ rw f (elim m [
      | inl first ↦ absurd (cc (f, first, passes))
      | inr later ↦ Member-select p xs a later passes
    ])
  ]

  pub Member-insert :
      (less : A → A → Bool) (x : A) (ys : List A) (a : A)
      → Member a (insert less x ys)
      → Member a (x ∷ ys)
  unfolding insert
  Member-insert less x [] a h = h
  Member-insert less x (y ∷ ys) a h = elim (Bool-cases (less y x)) [
    | inr f ↦ rw f at h
    | inl t ↦ elim (rw t at h) [
      | inl first ↦ inr (inl first)
      | inr later ↦ elim (Member-insert less x ys a later) [
        | inl new ↦ inl new
        | inr old ↦ inr (inr old)
      ]
    ]
  ]

  pub Member-sort : (less : A → A → Bool) (xs : List A) → Within (sort less xs) xs
  unfolding sort
  Member-sort less [] a h = h
  Member-sort less (x ∷ xs) a h = elim (Member-insert less x (sort less xs) a h) [
    | inl first ↦ inl first
    | inr later ↦ inr (Member-sort less xs a later)
  ]

  pub All-intro {κ} : (P : A → Type κ) (xs : List A) → ((a : A) → Member a xs → P a) → All P xs
  All-intro P [] h = tt
  All-intro P (x ∷ xs) h = (h x (inl refl), All-intro P xs (λ a m. h a (inr m)))

module _ {ℓ} {A : Type ℓ} ⦃e : EqTest A⦄ where
  pub contains-Member : (a : A) (xs : List A) → Member a xs → contains a xs ≡ true
  unfolding contains
  contains-Member a [] m = absurd (m.0)
  contains-Member a (x ∷ xs) m = elim m [
    | inl first ↦ rw ((e.same_iff x a).1 first) refl
    | inr later ↦ ground (arith, contains-Member a xs later)
  ]

  pub Member-contains : (a : A) (xs : List A) → contains a xs ≡ true → Member a xs
  unfolding contains
  Member-contains a [] h = cc
  Member-contains a (x ∷ xs) h = elim (Bool-cases (e.same x a)) [
    | inl t ↦ inl ((e.same_iff x a).0 t)
    | inr n ↦ inr (Member-contains a xs (rw n at h))
  ]

module _ {ℓ κ} {A : Type ℓ} {B : Type κ} where
  pub map-Member : (f : A → B) (xs : List A) (a : A) → Member a xs → Member (f a) (map f xs)
  map-Member f [] a m = absurd (m.0)
  map-Member f (x ∷ xs) a m = elim m [
    | inl first ↦ inl (ap f first)
    | inr later ↦ inr (map-Member f xs a later)
  ]

  -- A member of a mapped list is the image of a member.
  pub Member-map :
      (f : A → B) (xs : List A) (b : B) → Member b (map f xs) → (a : A) × Member a xs × (f a ≡ b)
  Member-map f [] b m = absurd (m.0)
  Member-map f (x ∷ xs) b m = elim m [
    | inl first ↦ (x, inl refl, first)
    | inr later ↦ let (a, old, same) = Member-map f xs b later in (a, inr old, same)
  ]

module _ {ℓ} {A : Type ℓ} where
  pub any_none :
      (p : A → Bool) (xs : List A) → ((a : A) → Member a xs → p a ≡ false) → any p xs ≡ false
  unfolding any
  any_none p [] h = refl
  any_none p (x ∷ xs) h = rw (h x (inl refl), any_none p xs (λ a m. h a (inr m))) refl
