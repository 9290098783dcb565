-- ===== src/Agent/Ranking/Order.antt =====
-- Sorting by a key that puts some elements first does put them first.
use tasks_management.Base.{
  Bool, Bool-cases, List, [], any, arith, false, inl, inr, insert, not, refl, sort, true, ◌||◌, ◌∷◌,
  ◌≡◌,
}

-- the first element passes, unless none does
abbrev pub leads : {A : Type 0} → (A → Bool) → List A → Bool
leads p [] = true
leads p (x ∷ xs) = p x || not (any p xs)

module _ {A : Type 0} (less : A → A → Bool) (p : A → Bool)
    (before : (a b : A) → p a ≡ true → p b ≡ false → less a b ≡ true)
    (not_before : (a b : A) → p a ≡ false → p b ≡ true → less a b ≡ false) where
  any-insert : (x : A) (ys : List A) → any p (x ∷ ys) ≡ false → any p (insert less x ys) ≡ false
  unfolding insert any
  any-insert x [] h = h
  any-insert x (y ∷ ys) h = elim (Bool-cases (less y x)) [
    | inl t ↦
        let none_x : p x ≡ false = ground arith in
        let none_y : p y ≡ false = ground arith in
        let none_ys : any p ys ≡ false = ground arith in
        rw t (rw none_y (any-insert x ys (rw (none_x, none_ys) refl)))
    | inr f ↦ rw f h
  ]

  insert-leads : (x : A) (xs : List A) → leads p xs ≡ true → leads p (insert less x xs) ≡ true
  unfolding insert any
  insert-leads x [] h = ground arith
  insert-leads x (y ∷ ys) h = elim (Bool-cases (less y x)) [
    | inl t ↦ elim (Bool-cases (p y)) [
      | inl good ↦ rw (t, good) refl
      | inr bad ↦
          let none_x : p x ≡ false = elim (Bool-cases (p x)) [
            | inl good ↦ let own = not_before y x bad good in absurd (ground arith)
            | inr bad_x ↦ bad_x
          ] in
          let none_ys : any p ys ≡ false = ground arith in
          let later = any-insert x ys (rw (none_x, none_ys) refl) in rw t (rw (bad, later) refl)
    ]
    | inr f ↦ elim (Bool-cases (p x)) [
      | inl good ↦ rw (f, good) refl
      | inr bad ↦
          let none_y : p y ≡ false = elim (Bool-cases (p y)) [
            | inl good ↦ let own = before y x good bad in absurd (ground arith)
            | inr bad_y ↦ bad_y
          ] in
          let none_ys : any p ys ≡ false = ground arith in rw f (rw (bad, none_y, none_ys) refl)
    ]
  ]

  pub sort-leads : (xs : List A) → leads p (sort less xs) ≡ true
  unfolding sort
  sort-leads [] = refl
  sort-leads (x ∷ xs) = insert-leads x (sort less xs) (sort-leads xs)
