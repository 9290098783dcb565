-- ===== src/Profiles/Capacity.antt =====
-- The capacity of an employee at a time, of a profile that `validate_profile` accepts.
use tasks_management.Base.{
  All, All-Member, All-intro, List, Member, Member-sort, [], all, ap, arith, false,
  find_first-Member, find_first-exists, find_first-holds, inl, inr, ok, sort, sort-Member, sym,
  true, ℕ, ◌<◌, ◌∙◌, ◌∷◌, ◌≡◌, ◌≤◌,
}
use tasks_management.Profiles.{
  CapacityOverride, ProfileRuntime, WorkforceProfile, covers, effective_capacity, has_overlap,
  overlaps_after, starts_before, validate_profile, validate_window,
}

module _ {F : Type 0} where
  abbrev pub IsWindow : CapacityOverride F → Type 0
  IsWindow o = o.starts_at < o.ends_at

  -- every window starts after the ones before it have ended
  Apart : List (CapacityOverride F) → Type 0
  Apart [] = Unit
  Apart (w ∷ ws) = All (λ v. w.ends_at ≤ v.starts_at) ws × Apart ws

  All-later :
      (t : ℕ) (w : CapacityOverride F) (ws : List (CapacityOverride F))
      → t ≤ w.ends_at
      → All (λ v. w.ends_at ≤ v.starts_at) ws
      → All (λ v. t ≤ v.starts_at) ws
  All-later t w [] h all = tt
  All-later t w (v ∷ ws) h (first, rest) = (omega arith, All-later t w ws h rest)

  overlaps_after-Apart :
      (w : CapacityOverride F) (ws : List (CapacityOverride F))
      → All IsWindow ws
      → overlaps_after w ws ≡ false
      → Apart (w ∷ ws)
  unfolding Apart overlaps_after
  overlaps_after-Apart w [] windows h = (tt, tt)
  overlaps_after-Apart w (v ∷ ws) (window, windows) h =
      let (later, apart) = overlaps_after-Apart v ws windows (ground arith) in
      let first : w.ends_at ≤ v.starts_at = ground arith in
      ((first, All-later w.ends_at v ws (omega arith) later), (later, apart))

  -- Of windows that are apart at most one covers a time.
  one_covers :
      (at : ℕ) (ws : List (CapacityOverride F)) (a b : CapacityOverride F)
      → Apart ws
      → Member a ws
      → Member b ws
      → covers at a ≡ true
      → covers at b ≡ true
      → a ≡ b
  unfolding Apart
  one_covers at [] a b apart ma mb ca cb = absurd (ma.0)
  one_covers at (w ∷ ws) a b (later, apart) ma mb ca cb = elim ma [
    | inl ea ↦ elim mb [
      | inl eb ↦ sym ea ∙ eb
      | inr mb' ↦
          let after : w.ends_at ≤ b.starts_at =
            All-Member (λ v. w.ends_at ≤ v.starts_at) ws b later mb' in
          let ends : w.ends_at ≡ a.ends_at = ap (λ v. v.ends_at) ea in absurd (ground arith)
    ]
    | inr ma' ↦ elim mb [
      | inl eb ↦
          let after : w.ends_at ≤ a.starts_at =
            All-Member (λ v. w.ends_at ≤ v.starts_at) ws a later ma' in
          let ends : w.ends_at ≡ b.ends_at = ap (λ v. v.ends_at) eb in absurd (ground arith)
      | inr mb' ↦ one_covers at ws a b apart ma' mb' ca cb
    ]
  ]

  validate_profile-Apart :
      (r : ProfileRuntime F) (p : WorkforceProfile F)
      → validate_profile r p ≡ ok p
      → has_overlap (sort starts_before p.capacity_overrides) ≡ false
  unfolding validate_profile
  validate_profile-Apart r p h = ground arith

  has_overlap-Apart :
      (ws : List (CapacityOverride F)) → All IsWindow ws → has_overlap ws ≡ false → Apart ws
  unfolding has_overlap Apart
  has_overlap-Apart [] windows h = tt
  has_overlap-Apart (w ∷ ws) (window, windows) h = overlaps_after-Apart w ws windows h

  validate_window-IsWindow : (o : CapacityOverride F) → validate_window o ≡ ok o → IsWindow o
  unfolding validate_window
  validate_window-IsWindow o h = ground arith

  -- In a profile that is accepted, whose overrides are accepted, an override that covers a time is the one in effect, in
  -- whatever order the overrides are listed.
  pub effective_capacity-covers :
      (r : ProfileRuntime F) (p : WorkforceProfile F) (at : ℕ) (o : CapacityOverride F)
      → validate_profile r p ≡ ok p
      → ((v : CapacityOverride F) → Member v p.capacity_overrides → validate_window v ≡ ok v)
      → Member o p.capacity_overrides
      → covers at o ≡ true
      → effective_capacity p at ≡ o.capacity_hours
  unfolding effective_capacity
  effective_capacity-covers r p at o accepted windows member covering =
      let ws = sort starts_before p.capacity_overrides in
      let valid : All IsWindow ws = All-intro IsWindow ws (λ v m.
        validate_window-IsWindow v
          (windows v (Member-sort starts_before p.capacity_overrides v m))) in
      let apart = has_overlap-Apart ws valid (validate_profile-Apart r p accepted) in
      let (found, is_found) =
        find_first-exists (covers at) p.capacity_overrides o member covering in
      let same =
        one_covers at ws found o apart
          (sort-Member starts_before p.capacity_overrides found
            (find_first-Member (covers at) p.capacity_overrides found is_found))
          (sort-Member starts_before p.capacity_overrides o member)
          (find_first-holds (covers at) p.capacity_overrides found is_found) covering in
      rw is_found (ap (λ v. v.capacity_hours) same)
