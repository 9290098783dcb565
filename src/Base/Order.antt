-- ===== src/Base/Order.antt =====
-- Sorting by a strict total order does not depend on the order of the input; Python's order of texts is one.
use Prim.Native.Nat.{ℕ, Ordering, compare as compare_ℕ}
use Prim.Native.Char.{code}
use Prim.Native.String.{String, compare, then}
use Prim.Native.String.compare.{nil-nil, nil-cons, cons-nil, cons-cons}
use mathlib.Core.Path.{◌≡◌, refl, ap, ◌∙◌}
use mathlib.Core.Bool.{Bool, true, false}
use mathlib.Core.Logic.{inl, inr, ◌≢◌}
use mathlib.Core.List.{List, [], ◌∷◌}
use mathlib.Core.List.{Permᴰ}
use native.Mathlib.Omega.{arith}
use text.Mathlib.TextEquality.{path_by_compare}
use tasks_management.Base.Tests.{Bool-cases}
use tasks_management.Base.Sorting.{insert, sort}

-- the laws of `<` that sorting relies on
pub record IsOrder {ℓ} {A : Type ℓ} (less : A → A → Bool) : Type ℓ where
  pub asym : (a b : A) → less a b ≡ true → less b a ≡ false
  pub trans : (a b c : A) → less a b ≡ true → less b c ≡ true → less a c ≡ true
  pub total : (a b : A) → less a b ≡ false → less b a ≡ false → a ≡ b

module _ {ℓ} {A : Type ℓ} (less : A → A → Bool) (order : IsOrder less) where
  before_or_at : (x z y : A) → less z x ≡ false → less z y ≡ true → less x y ≡ true
  before_or_at x z y h k = elim (Bool-cases (less x z)) [
    | inl t ↦ order.trans x z y t k
    | inr f ↦ cc (order.total x z f h, k)
  ]

  insert_front : (x y : A) (zs : List A) → less x y ≡ true → insert less x (y ∷ zs) ≡ x ∷ y ∷ zs
  unfolding insert
  insert_front x y zs h = rw (order.asym x y h) refl

  insert_behind :
      (x y : A) (zs : List A) → less y x ≡ true → insert less x (y ∷ zs) ≡ y ∷ insert less x zs
  unfolding insert
  insert_behind x y zs h = rw h refl

  insert_before : (x y : A) (zs : List A) → less y x ≡ false → insert less x (y ∷ zs) ≡ x ∷ y ∷ zs
  unfolding insert
  insert_before x y zs h = rw h refl

  insert_comm :
      (x y : A) (zs : List A) → insert less x (insert less y zs) ≡ insert less y (insert less x zs)
  unfolding insert
  insert_comm x y [] = elim (Bool-cases (less y x)) [
    | inl t ↦ rw (t, order.asym y x t) refl
    | inr f ↦ elim (Bool-cases (less x y)) [
      | inl t ↦ rw (f, t) refl
      | inr g ↦ cc (order.total x y g f)
    ]
  ]
  insert_comm x y (z ∷ zs) = elim (Bool-cases (less z y)) [
    | inl zy ↦ elim (Bool-cases (less z x)) [
      | inl zx ↦ rw (zy, zx, zy) (ap (λ r. z ∷ r) (insert_comm x y zs))
      | inr zx ↦ let xy = before_or_at x z y zx zy in rw (zy, zx, xy, zy) refl
    ]
    | inr zy ↦ elim (Bool-cases (less z x)) [
      | inl zx ↦ let yx = before_or_at y z x zy zx in rw (zy, zx, yx, zy) refl
      | inr zx ↦ elim (Bool-cases (less y x)) [
        | inl yx ↦ let xy = order.asym y x yx in rw (zy, zx, yx, xy) refl
        | inr yx ↦ elim (Bool-cases (less x y)) [
          | inl xy ↦ rw (zy, zx, yx, xy, zy) refl
          | inr xy ↦ cc (order.total x y xy yx)
        ]
      ]
    ]
  ]

  pub sort_perm : {xs ys : List A} → Permᴰ xs ys → sort less xs ≡ sort less ys
  unfolding sort
  sort_perm Permᴰ.nil = refl
  sort_perm (Permᴰ.cons {a} {b} e p) = cc (e, sort_perm p)
  sort_perm (Permᴰ.swap {a} {b} {a'} {b'} {l} e k) = cc (e, k, insert_comm a b (sort less l))
  sort_perm (Permᴰ.trans p q) = sort_perm p ∙ sort_perm q

-- `a < b` on texts
abbrev pub string_lt : String → String → Bool
string_lt a b = elim (compare a b) [ Ordering.lt ↦ true | _ ↦ false ]

abbrev flip : Ordering → Ordering
flip Ordering.lt = Ordering.gt
flip Ordering.eq = Ordering.eq
flip Ordering.gt = Ordering.lt

flip_ℕ : (a b : ℕ) → compare_ℕ b a ≡ flip (compare_ℕ a b)
flip_ℕ a b = ground arith

flip-then : (o p : Ordering) → flip (then o p) ≡ then (flip o) (flip p)
flip-then Ordering.lt p = refl
flip-then Ordering.eq p = refl
flip-then Ordering.gt p = refl

flip-compare : (s t : String) → compare t s ≡ flip (compare s t)
flip-compare String.[] String.[] = rw nil-nil refl
flip-compare String.[] (String.◌∷◌ d t) = rw (nil-cons d t, cons-nil d t) refl
flip-compare (String.◌∷◌ c s) String.[] = rw (nil-cons c s, cons-nil c s) refl
flip-compare (String.◌∷◌ c s) (String.◌∷◌ d t) =
    rw
      (
        cons-cons c d s t,
        cons-cons d c t s,
        flip-then (compare_ℕ (code c) (code d)) (compare s t),
        flip_ℕ (code c) (code d),
        flip-compare s t,
      )
      refl

then_trans :
    (a b c : ℕ) (o p q : Ordering)
    → (o ≡ Ordering.lt → p ≡ Ordering.lt → q ≡ Ordering.lt)
    → then (compare_ℕ a b) o ≡ Ordering.lt
    → then (compare_ℕ b c) p ≡ Ordering.lt
    → then (compare_ℕ a c) q ≡ Ordering.lt
then_trans a b c o p q next h k = ground (arith, next)

-- nothing is before the empty text
nothing_before : (s : String) → compare s String.[] ≢ Ordering.lt
nothing_before String.[] h = cc (rw nil-nil at h)
nothing_before (String.◌∷◌ c s) h = cc (rw (cons-nil c s) at h)

compare_trans :
    (s t u : String)
    → compare s t ≡ Ordering.lt
    → compare t u ≡ Ordering.lt
    → compare s u ≡ Ordering.lt
compare_trans s String.[] u h k = absurd (nothing_before s h)
compare_trans s (String.◌∷◌ d t) String.[] h k = absurd (nothing_before (String.◌∷◌ d t) k)
compare_trans String.[] (String.◌∷◌ d t) (String.◌∷◌ e u) h k = nil-cons e u
compare_trans (String.◌∷◌ c s) (String.◌∷◌ d t) (String.◌∷◌ e u) h k = rw (cons-cons c e s u) (
    then_trans (code c) (code d) (code e) (compare s t) (compare t u) (compare s u)
      (compare_trans s t u) (rw (cons-cons c d s t) at h) (rw (cons-cons d e t u) at k))

lt_of : (a b : String) → string_lt a b ≡ true → compare a b ≡ Ordering.lt
lt_of a b h = ground arith

pub string_lt-IsOrder : IsOrder string_lt
string_lt-IsOrder = record {
  asym = λ a b h. ground (arith, flip-compare a b);
  trans = λ a b c h k. ground (arith, compare_trans a b c (lt_of a b h) (lt_of b c k));
  total = λ a b h k. path_by_compare a b (ground (arith, flip-compare a b));
}
