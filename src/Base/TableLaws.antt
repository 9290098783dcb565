-- ===== src/Base/TableLaws.antt =====
-- The laws of the queries of Base/Table.
use Prim.Native.Nat.{◌+◌}
use mathlib.Core.Path.{ap, ◌≡◌, refl}
use mathlib.Core.Bool.{Bool, true, false}
use mathlib.Core.Option
use mathlib.Core.Option.{Option, none, some}
use mathlib.Core.List.{List, [], ◌∷◌, ◌++◌}
use mathlib.Core.Logic.{inl, inr}
use native.Mathlib.Omega.{arith}
use tasks_management.Base.Tests.{if◌then◌else◌, Bool-cases}
use tasks_management.Base.Table.{
  any, count_where, select, find_first, update_first, update_where, length,
}

abbrev pub or_else {ℓ} : {A : Type ℓ} → Option A → Option A → Option A
or_else none b = b
or_else (some a) b = some a

module _ {ℓ} {A : Type ℓ} where
  pub find_first-append :
      (p : A → Bool) (xs ys : List A)
      → find_first p (xs ++ ys) ≡ or_else (find_first p xs) (find_first p ys)
  unfolding find_first
  find_first-append p [] ys = refl
  find_first-append p (x ∷ xs) ys = elim (Bool-cases (p x)) [
    | inl t ↦ rw t
    | inr f ↦ rw f (find_first-append p xs ys)
  ]

  -- An update that does not change what `p` tests moves the row that `p` finds.
  pub find_first-update_where :
      (p q : A → Bool) (f : A → A)
      → ((x : A) → p (f x) ≡ p x)
      → (xs : List A)
      → find_first p (update_where q f xs)
        ≡ Option.map (λ x. if q x then f x else x) (find_first p xs)
  unfolding find_first update_where
  find_first-update_where p q f keep [] = refl
  find_first-update_where p q f keep (x ∷ xs) =
      ground (arith, keep x, find_first-update_where p q f keep xs)

  -- What `find_first` returns passes the test.
  pub find_first-holds :
      (p : A → Bool) (xs : List A) (a : A) → find_first p xs ≡ some a → p a ≡ true
  unfolding find_first
  find_first-holds p [] a h = cc
  find_first-holds p (x ∷ xs) a h = ground (arith, find_first-holds p xs a)

  pub length-update_where :
      (q : A → Bool) (f : A → A) (xs : List A) → length (update_where q f xs) ≡ length xs
  unfolding update_where
  length-update_where q f [] = refl
  length-update_where q f (x ∷ xs) = omega (arith, length-update_where q f xs)

  pub length-append : (xs ys : List A) → length (xs ++ ys) ≡ length xs + length ys
  length-append [] ys = omega arith
  length-append (x ∷ xs) ys = omega (arith, length-append xs ys)

  pub find_first-single : (p : A → Bool) (a : A) → p a ≡ true → find_first p (a ∷ []) ≡ some a
  unfolding find_first
  find_first-single p a h = rw h

  pub select-append :
      (p : A → Bool) (xs ys : List A) → select p (xs ++ ys) ≡ select p xs ++ select p ys
  unfolding select
  select-append p [] ys = refl
  select-append p (x ∷ xs) ys = elim (Bool-cases (p x)) [
    | inl t ↦ rw t (ap (λ r. x ∷ r) (select-append p xs ys))
    | inr f ↦ rw f (select-append p xs ys)
  ]

  pub update_where_idle :
      (p : A → Bool) (f : A → A) (xs : List A) → count_where p xs ≡ 0 → update_where p f xs ≡ xs
  unfolding count_where update_where
  update_where_idle p f [] h = refl
  update_where_idle p f (x ∷ xs) h = elim (Bool-cases (p x)) [
    | inl t ↦ absurd (omega (arith, rw t at h))
    | inr n ↦ rw n (ap (λ r. x ∷ r) (update_where_idle p f xs (omega (arith, rw n at h))))
  ]

  pub count_where-update_where :
      (p : A → Bool) (f : A → A)
      → ((x : A) → p (f x) ≡ false)
      → (xs : List A) → count_where p (update_where p f xs) ≡ 0
  unfolding count_where update_where
  count_where-update_where p f gone [] = refl
  count_where-update_where p f gone (x ∷ xs) = elim (Bool-cases (p x)) [
    | inl t ↦ rw t (rw (gone x) (omega (arith, count_where-update_where p f gone xs)))
    | inr n ↦ rw n (rw n (omega (arith, count_where-update_where p f gone xs)))
  ]

  pub find_first-update_first :
      (p : A → Bool) (f : A → A) (xs : List A) (a : A)
      → find_first p xs ≡ some a
      → p (f a) ≡ true
      → find_first p (update_first p f xs) ≡ some (f a)
  unfolding find_first update_first
  find_first-update_first p f [] a h k = cc
  find_first-update_first p f (x ∷ xs) a h k = elim (Bool-cases (p x)) [
    | inl t ↦ let same : x ≡ a = cc (rw t at h) in rw t (rw same (rw k refl))
    | inr n ↦ rw n (rw n (find_first-update_first p f xs a (rw n at h) k))
  ]

  pub update_first_idle :
      (p : A → Bool) (f : A → A) (xs : List A) (a : A)
      → find_first p xs ≡ some a
      → f a ≡ a
      → update_first p f xs ≡ xs
  unfolding find_first update_first
  update_first_idle p f [] a h k = refl
  update_first_idle p f (x ∷ xs) a h k = elim (Bool-cases (p x)) [
    | inl t ↦ let same : x ≡ a = cc (rw t at h) in rw t (cc (same, k))
    | inr n ↦ rw n (ap (λ r. x ∷ r) (update_first_idle p f xs a (rw n at h) k))
  ]

  pub any-append : (p : A → Bool) (xs ys : List A) → any p xs ≡ true → any p (xs ++ ys) ≡ true
  unfolding any
  any-append p [] ys h = cc
  any-append p (x ∷ xs) ys h = elim (Bool-cases (p x)) [
    | inl t ↦ rw t refl
    | inr n ↦ rw n (any-append p xs ys (rw n at h))
  ]

  pub any-last : (p : A → Bool) (xs : List A) (a : A) → p a ≡ true → any p (xs ++ a ∷ []) ≡ true
  unfolding any
  any-last p [] a h = rw h refl
  any-last p (x ∷ xs) a h = elim (Bool-cases (p x)) [
    | inl t ↦ rw t refl
    | inr n ↦ rw n (any-last p xs a h)
  ]
