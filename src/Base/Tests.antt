-- ===== src/Base/Tests.antt =====
-- Boolean tests as Python writes them. `==` is one operator for every type with an `EqTest`.
use Prim.Native.Nat.{ℕ, compare, Ordering, ◌≤◌, ◌<◌}
use Prim.Native.String.{String}
use mathlib.Core.Path.{◌≡◌, refl}
use mathlib.Core.Logic.{◌↔◌, ◌⊎◌, inl, inr}
use mathlib.Core.Bool.{Bool, true, false, ◌&&◌}
use mathlib.Core.Option.{Option, none, some}
use mathlib.Core.List.{List, [], ◌∷◌}
use native.Mathlib.Omega.{arith}
use text.Mathlib.Text.{◌==◌ as str_eq}
use text.Mathlib.TextEquality.{eq_iff}

abbrev pub ltb : ℕ → ℕ → Bool
ltb a b = elim (compare a b) [ Ordering.lt ↦ true | _ ↦ false ]

abbrev pub leb : ℕ → ℕ → Bool
leb a b = elim (compare a b) [ Ordering.gt ↦ false | _ ↦ true ]

abbrev pub eqb : ℕ → ℕ → Bool
eqb a b = elim (compare a b) [ Ordering.eq ↦ true | _ ↦ false ]

infix 1 if◌then◌else◌
abbrev pub if◌then◌else◌ {ℓ} : {A : Type ℓ} → Bool → A → A → A
if true then x else y = x
if false then x else y = y

pub Bool-cases : (b : Bool) → (b ≡ true) ⊎ (b ≡ false)
Bool-cases true = inl refl
Bool-cases false = inr refl

pub Option-cases {ℓ} : {A : Type ℓ} (o : Option A) → (o ≡ none) ⊎ ((a : A) × (o ≡ some a))
Option-cases none = inl refl
Option-cases (some a) = inr (a, refl)

pub ltb_iff : (a b : ℕ) → (ltb a b ≡ true) ↔ (a < b)
ltb_iff a b = (λ h. ground arith, λ h. ground arith)

pub leb_iff : (a b : ℕ) → (leb a b ≡ true) ↔ (a ≤ b)
leb_iff a b = (λ h. ground arith, λ h. ground arith)

pub eqb_iff : (a b : ℕ) → (eqb a b ≡ true) ↔ (a ≡ b)
eqb_iff a b = (λ h. ground arith, λ h. ground arith)

-- An equality test of a type, with the law that it decides equality.
pub record EqTest {ℓ} (T : Type ℓ) : Type ℓ where
  pub same : T → T → Bool
  pub same_iff : (x y : T) → (same x y ≡ true) ↔ (x ≡ y)

-- identifiers, keys and fingerprints
instance abbrev pub string_eq : EqTest String
string_eq = record { same = str_eq; same_iff = eq_iff }

-- versions and counters
instance abbrev pub nat_eq : EqTest ℕ
nat_eq = record { same = eqb; same_iff = eqb_iff }

infix 50 ◌==◌
abbrev pub ◌==◌ {ℓ} : {T : Type ℓ} ⦃test : EqTest T⦄ → T → T → Bool
◌==◌ ⦃test⦄ x y = test.same x y

abbrev pub option_beq {ℓ} : {A : Type ℓ} → (A → A → Bool) → Option A → Option A → Bool
option_beq f none none = true
option_beq f (some a) (some b) = f a b
option_beq f none (some b) = false
option_beq f (some a) none = false

pub option_beq_iff {ℓ} :
    {A : Type ℓ} (e : EqTest A) (a b : Option A) → (option_beq e.same a b ≡ true) ↔ (a ≡ b)
option_beq_iff e none none = (λ h. refl, λ h. refl)
option_beq_iff e (some a) (some b) =
    (λ h. cc ((e.same_iff a b).0 h), λ h. (e.same_iff a b).1 (cc h))
option_beq_iff e none (some b) = (λ h. cc, λ h. cc)
option_beq_iff e (some a) none = (λ h. cc, λ h. cc)

instance abbrev pub option_eq {ℓ} : {A : Type ℓ} ⦃e : EqTest A⦄ → EqTest (Option A)
option_eq ⦃e⦄ = record { same = option_beq e.same; same_iff = option_beq_iff e }

pub and_intro : (a b : Bool) → a ≡ true → b ≡ true → (a && b) ≡ true
and_intro a b h k = ground arith

pub and_left : (a b : Bool) → (a && b) ≡ true → a ≡ true
and_left a b h = ground arith

pub and_right : (a b : Bool) → (a && b) ≡ true → b ≡ true
and_right a b h = ground arith

unfoldable pub list_beq {ℓ} : {A : Type ℓ} → (A → A → Bool) → List A → List A → Bool
list_beq f [] [] = true
list_beq f [] (y ∷ ys) = false
list_beq f (x ∷ xs) [] = false
list_beq f (x ∷ xs) (y ∷ ys) = f x y && list_beq f xs ys

pub list_beq_iff {ℓ} :
    {A : Type ℓ} (e : EqTest A) (xs ys : List A) → (list_beq e.same xs ys ≡ true) ↔ (xs ≡ ys)
unfolding list_beq
list_beq_iff e [] [] = (λ h. refl, λ h. refl)
list_beq_iff e [] (y ∷ ys) = (λ h. cc, λ h. cc)
list_beq_iff e (x ∷ xs) [] = (λ h. cc, λ h. cc)
list_beq_iff e (x ∷ xs) (y ∷ ys) =
    let (to, from) = list_beq_iff e xs ys in
    (
      λ h. cc (
        (e.same_iff x y).0 (and_left (e.same x y) (list_beq e.same xs ys) h),
        to (and_right (e.same x y) (list_beq e.same xs ys) h),
      ),
      λ h. and_intro (e.same x y) (list_beq e.same xs ys) ((e.same_iff x y).1 (cc h)) (from (cc h)),
    )

instance abbrev pub list_eq {ℓ} : {A : Type ℓ} ⦃e : EqTest A⦄ → EqTest (List A)
list_eq ⦃e⦄ = record { same = list_beq e.same; same_iff = list_beq_iff e }

pub ==_refl {ℓ} : {A : Type ℓ} ⦃e : EqTest A⦄ (a : A) → (a == a) ≡ true
==_refl ⦃e⦄ a = (e.same_iff a a).1 refl

pub ==_eq {ℓ} : {A : Type ℓ} ⦃e : EqTest A⦄ {a b : A} → (a == b) ≡ true → a ≡ b
==_eq ⦃e⦄ {a} {b} h = (e.same_iff a b).0 h
