-- ===== src/Agent/Ranking/Suitable.antt =====
-- An eligible candidate can take over the tasks, and comes before the others.
use tasks_management.Base.{
  Bool, Bool-cases, List, Member, Member-contains, Member-map, Member-select, Member-sort, String,
  [], all, any, ap, arith, concat_map, contains, eqb, false, inl, inr, length, list_eq, map, nat_eq,
  not, option_eq, refl, select, select-Member, sort, sort-Member, string_eq, string_lt, subst, true,
  ℕ, ◌+◌, ◌==◌, ◌∙◌, ◌∷◌, ◌≡◌,
}
use tasks_management.Agent.Ranking.Order.{leads, sort-leads}
use tasks_management.Agent.{
  DashboardSnapshot, EmployeeSummary, HourFloats, MissingData, Unicode, category_eq,
}
use tasks_management.Agent.Ranking.{
  RankedCandidate, candidate_of, distinct, documented, headroom_of, is_eligible, is_empty,
  is_positive, lacking_of, missing_data_of, rank_reassignment_candidates, ranked_before, ranking_of,
  required_skills_of, with_ranks,
}

Member-distinct : (a : String) (xs : List String) → Member a xs → Member a (distinct xs)
unfolding distinct
Member-distinct a [] m = m
Member-distinct a (x ∷ xs) m = elim (Bool-cases (contains x xs)) [
  | inl t ↦ rw t (elim m [
    | inl first ↦ Member-distinct a xs (subst (λ y. Member y xs) first (Member-contains x xs t))
    | inr later ↦ Member-distinct a xs later
  ])
  | inr f ↦ rw f (elim m [ inl first ↦ inl first | inr later ↦ inr (Member-distinct a xs later) ])
]

not_same : {A : Type 0} → false ≡ true → A
not_same h = cc

empty_holds_nothing : (xs : List String) (a : String) → eqb (length xs) 0 ≡ true → ¬ Member a xs
empty_holds_nothing [] a h m = m.0
empty_holds_nothing (x ∷ xs) a h m = absurd (ground arith)

module _ {F : Type 0} (u : Unicode) (lower : String → String) (fl : HourFloats F)
    (min_hours : F) where
  none_lacking :
      (required : List String) (e : EmployeeSummary F) (skill : String)
      → is_empty u lower fl min_hours (lacking_of u lower fl min_hours required e) ≡ true
      → Member skill required
      → contains skill (documented u lower fl min_hours e) ≡ true
  unfolding lacking_of
  none_lacking required e skill empty m =
      let known = documented u lower fl min_hours e in
      let lacks : String → Bool = λ s. not (contains s known) in
      elim (Bool-cases (contains skill known)) [
        | inl t ↦ t
        | inr f ↦
            let among = Member-select lacks required skill m (rw f refl) in
            let once = Member-distinct skill (select lacks required) among in
            absurd (
              empty_holds_nothing _ skill empty
                (sort-Member string_lt (distinct (select lacks required)) skill once))
      ]

  -- an employee of the snapshot who has hours left, and every skill that the tasks of the source ask for
  abbrev pub IsSuitable : DashboardSnapshot F → String → RankedCandidate F → Type 0
  IsSuitable s source_id c =
      (e : EmployeeSummary F) × Member e s.employees
      × (e.employee_id ≡ c.employee_id)
      × ((e.employee_id == source_id) ≡ false)
      × (is_positive u lower fl min_hours (headroom_of u lower fl min_hours e) ≡ true)
      × ((skill : String)
          → Member skill (required_skills_of u lower fl min_hours s source_id)
          → contains skill (documented u lower fl min_hours e) ≡ true)

  with_ranks-Member :
      (start : ℕ) (cs : List (RankedCandidate F)) (c : RankedCandidate F)
      → Member c (with_ranks u lower fl min_hours start cs)
      → (d : RankedCandidate F) × Member d cs
        × (d.employee_id ≡ c.employee_id)
        × (d.eligible ≡ c.eligible)
  unfolding with_ranks
  with_ranks-Member start [] c m = absurd (m.0)
  with_ranks-Member start (d ∷ ds) c m = elim m [
    | inl first ↦ (d, inl refl, ap (λ x. x.employee_id) first, ap (λ x. x.eligible) first)
    | inr later ↦
        let (x, inside, same, alike) = with_ranks-Member (start + 1) ds c later in
        (x, inr inside, same, alike)
  ]

  ranking_of-Member :
      (ranked : List (RankedCandidate F)) (missing : List MissingData) (c : RankedCandidate F)
      → Member c (ranking_of u lower fl min_hours ranked missing).candidates
      → Member c ranked
  unfolding ranking_of
  ranking_of-Member ranked missing c m = elim (Bool-cases (any (λ x. x.eligible) ranked)) [
    | inl t ↦ rw t at m
    | inr f ↦ elim (Bool-cases (eqb (length missing) 0)) [
      | inl e ↦ rw (f, e) at m
      | inr o ↦ let none_there = rw (f, o) at m in absurd (none_there.0)
    ]
  ]

  ranking_of-success :
      (ranked : List (RankedCandidate F)) (missing : List MissingData)
      → (ranking_of u lower fl min_hours ranked missing).status ≡ "success"
      → (any (λ c. c.eligible) ranked ≡ true)
        × ((ranking_of u lower fl min_hours ranked missing).candidates ≡ ranked)
  unfolding ranking_of
  ranking_of-success ranked missing h = elim (Bool-cases (any (λ x. x.eligible) ranked)) [
    | inl t ↦ (t, rw t refl)
    | inr f ↦ elim (Bool-cases (eqb (length missing) 0)) [
      | inl e ↦ let own = rw (f, e) at h in not_same (ap (λ s. s == "success") own)
      | inr o ↦ let own = rw (f, o) at h in not_same (ap (λ s. s == "success") own)
    ]
  ]

  with_ranks-leads :
      (start : ℕ) (cs : List (RankedCandidate F))
      → (any (λ c. c.eligible) (with_ranks u lower fl min_hours start cs)
          ≡ any (λ c. c.eligible) cs)
        × (leads (λ c. c.eligible) (with_ranks u lower fl min_hours start cs)
            ≡ leads (λ c. c.eligible) cs)
  unfolding with_ranks any
  with_ranks-leads start [] = (refl, refl)
  with_ranks-leads start (c ∷ cs) =
      let (same, first) = with_ranks-leads (start + 1) cs in (rw same refl, rw same refl)

  first_passes :
      (cs : List (RankedCandidate F))
      → leads (λ c. c.eligible) cs ≡ true
      → any (λ c. c.eligible) cs ≡ true
      → (c : RankedCandidate F) × (rest : List (RankedCandidate F)) × (cs ≡ c ∷ rest)
        × (c.eligible ≡ true)
  unfolding any
  first_passes [] h k = cc
  first_passes (c ∷ cs) h k = (c, cs, refl, ground arith)

  eligible_first :
      (a b : RankedCandidate F)
      → a.eligible ≡ true
      → b.eligible ≡ false
      → ranked_before u lower fl min_hours a b ≡ true
  unfolding ranked_before
  eligible_first a b t f = ground arith

  other_later :
      (a b : RankedCandidate F)
      → a.eligible ≡ false
      → b.eligible ≡ true
      → ranked_before u lower fl min_hours a b ≡ false
  unfolding ranked_before
  other_later a b f t = ground arith

  candidate_of-IsSuitable :
      (s : DashboardSnapshot F) (source_id : String) (e : EmployeeSummary F)
      → Member e (select (λ e. not (e.employee_id == source_id)) s.employees)
      → is_eligible u lower fl min_hours (required_skills_of u lower fl min_hours s source_id) e
        ≡ true
      → IsSuitable s source_id (
          candidate_of u lower fl min_hours (required_skills_of u lower fl min_hours s source_id) e)
  unfolding is_eligible candidate_of
  candidate_of-IsSuitable s source_id e m good =
      let required = required_skills_of u lower fl min_hours s source_id in
      let (inside, other) = select-Member (λ e. not (e.employee_id == source_id)) s.employees e m in
      let positive : is_positive u lower fl min_hours (headroom_of u lower fl min_hours e) ≡ true =
        ground arith in
      let empty : is_empty u lower fl min_hours (lacking_of u lower fl min_hours required e)
          ≡ true =
        ground arith in
      let differs : (e.employee_id == source_id) ≡ false = ground arith in
      (e, inside, refl, differs, positive, λ skill k. none_lacking required e skill empty k)

  -- Every eligible candidate is another employee of the snapshot who has hours left and every skill that the tasks of the
  -- source ask for; and if the ranking succeeds, its first candidate is eligible.
  pub rank_reassignment_candidates-IsSuitable :
      (s : DashboardSnapshot F) (source_id : String)
      → let r = rank_reassignment_candidates u lower fl min_hours s source_id in
        ((c : RankedCandidate F)
          → Member c r.candidates
          → c.eligible ≡ true
          → IsSuitable s source_id c)
        × (r.status ≡ "success"
            → (c : RankedCandidate F) × (rest : List (RankedCandidate F)) × (r.candidates
                ≡ c ∷ rest)
              × (c.eligible ≡ true))
  unfolding rank_reassignment_candidates candidate_of
  rank_reassignment_candidates-IsSuitable s source_id =
      let required = required_skills_of u lower fl min_hours s source_id in
      let others = select (λ e. not (e.employee_id == source_id)) s.employees in
      let before = ranked_before u lower fl min_hours in
      let cs = map (candidate_of u lower fl min_hours required) others in
      let sorted = sort before cs in
      let ranked = with_ranks u lower fl min_hours 1 sorted in
      let missing = concat_map (missing_data_of u lower fl min_hours required) others in
      (
        λ c m good.
            let (d, there, same, alike) =
              with_ranks-Member 1 sorted c (ranking_of-Member ranked missing c m) in
            let (e, inside, made) =
              Member-map (candidate_of u lower fl min_hours required) others d
                (Member-sort before cs d there) in
            let good_e = ap (λ (x : RankedCandidate F). x.eligible) made ∙ alike ∙ good in
            let (x, known, named, differs, positive, skilled) =
              candidate_of-IsSuitable s source_id e inside good_e in
            (
              x,
              known,
              named ∙ ap (λ (x : RankedCandidate F). x.employee_id) made ∙ same,
              differs,
              positive,
              skilled,
            ),
        λ success.
            let (some_good, all) = ranking_of-success ranked missing success in
            let (alike, leading) = with_ranks-leads 1 sorted in
            let (c, rest, first, good) =
              first_passes ranked
                (leading ∙ sort-leads before (λ c. c.eligible) eligible_first other_later cs)
                some_good in
            (c, rest, all ∙ first, good),
      )
