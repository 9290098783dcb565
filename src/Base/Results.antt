-- ===== src/Base/Results.antt =====
-- Python exceptions as values, with the message of the source's `raise`.
use Prim.Native.String.{String}
use mathlib.Core.Path.{◌≡◌, refl}
use mathlib.Core.Logic.{◌⊎◌, inl, inr}

pub data Error : Type 0 where
  permission_error value_error runtime_error authentication_error : String → Error
  transport_error type_error : String → Error

pub data Result {ℓ} (A : Type ℓ) : Type ℓ where
  ok : A → Result A
  err : Error → Result A

-- What comes after a step: it runs on the value, and an exception passes by it.
abbrev pub on_success {ℓ κ} : {A : Type ℓ} {B : Type κ} → (A → Result B) → Result A → Result B
on_success next (err raised) = err raised
on_success next (ok value) = next value

infixl 10 ◌>>=◌
abbrev pub ◌>>=◌ {ℓ κ} : {A : Type ℓ} {B : Type κ} → Result A → (A → Result B) → Result B
step >>= next = on_success next step

pub ok-injective {ℓ} : {A : Type ℓ} {a b : A} → ok a ≡ ok b → a ≡ b
ok-injective h = cc

-- What a chain of two steps that succeeds has passed through.
pub on_success_inv {ℓ κ} :
    {A : Type ℓ} {B : Type κ} (next : A → Result B) (r : Result A) (b : B)
    → on_success next r ≡ ok b
    → (a : A) × (r ≡ ok a) × (next a ≡ ok b)
on_success_inv next (err raised) b h = cc
on_success_inv next (ok a) b h = (a, refl, h)

pub Result-cases {ℓ} :
    {A : Type ℓ} (r : Result A) → ((a : A) × (r ≡ ok a)) ⊎ ((e : Error) × (r ≡ err e))
Result-cases (ok a) = inl (a, refl)
Result-cases (err e) = inr (e, refl)
