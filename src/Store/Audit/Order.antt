-- ===== src/Store/Audit/Order.antt =====
-- The order of the audit events of an environment, and the event that `append` takes as the last.
use tasks_management.Base.{
  All, Bool, Bool-cases, List, Option, String, [], ap, arith, inl, inr, insert, ltb, nat_eq, none,
  option_eq, refl, select, some, sort, string_eq, sym, ℕ, ◌++◌, ◌==◌, ◌∙◌, ◌∷◌, ◌≡◌, ◌≤◌,
}
use tasks_management.Store.Rows.{AuditEvent}
use tasks_management.Store.Audit.{latest, newer}

abbrev pub earlier : AuditEvent → AuditEvent → Bool
earlier a b = ltb a.sequence_number b.sequence_number

abbrev AtLeast : ℕ → List AuditEvent → Type 0
AtLeast n = All (λ (e : AuditEvent). n ≤ e.sequence_number)

abbrev pub AtMost : ℕ → List AuditEvent → Type 0
AtMost n = All (λ (e : AuditEvent). e.sequence_number ≤ n)

abbrev Ordered : List AuditEvent → Type 0
Ordered [] = Unit
Ordered (e ∷ es) = AtLeast e.sequence_number es × Ordered es

AtLeast-mono : (m n : ℕ) (es : List AuditEvent) → m ≤ n → AtLeast n es → AtLeast m es
AtLeast-mono m n [] h a = tt
AtLeast-mono m n (e ∷ es) h a = (omega arith, AtLeast-mono m n es h a.1)

AtLeast-insert :
    (n : ℕ) (x : AuditEvent) (es : List AuditEvent)
    → n ≤ x.sequence_number
    → AtLeast n es
    → AtLeast n (insert earlier x es)
unfolding insert
AtLeast-insert n x [] h a = (h, tt)
AtLeast-insert n x (e ∷ es) h a = elim (Bool-cases (earlier e x)) [
  | inl t ↦ rw t (a.0, AtLeast-insert n x es h a.1)
  | inr f ↦ rw f (h, a)
]

Ordered-insert :
    (x : AuditEvent) (es : List AuditEvent) → Ordered es → Ordered (insert earlier x es)
unfolding insert
Ordered-insert x [] o = (tt, tt)
Ordered-insert x (e ∷ es) o = elim (Bool-cases (earlier e x)) [
  | inl t ↦ rw t (AtLeast-insert e.sequence_number x es (ground arith) o.0, Ordered-insert x es o.1)
  | inr f ↦
      let le : x.sequence_number ≤ e.sequence_number = ground arith in
      rw f ((le, AtLeast-mono x.sequence_number e.sequence_number es le o.0), o)
]

Ordered-sort : (es : List AuditEvent) → Ordered (sort earlier es)
unfolding sort
Ordered-sort [] = tt
Ordered-sort (e ∷ es) = Ordered-insert e (sort earlier es) (Ordered-sort es)

abbrev pub last : List AuditEvent → Option AuditEvent
last [] = none
last (e ∷ []) = some e
last (e ∷ f ∷ es) = last (f ∷ es)

-- the last event comes no earlier than any bound of the list
last-AtLeast :
    (n : ℕ) (f : AuditEvent) (es : List AuditEvent)
    → AtLeast n (f ∷ es)
    → (l : AuditEvent) × (last (f ∷ es) ≡ some l) × (n ≤ l.sequence_number)
last-AtLeast n f [] a = (f, refl, a.0)
last-AtLeast n f (g ∷ es) a = last-AtLeast n g es a.1

last-cons_insert :
    (e x : AuditEvent) (es : List AuditEvent)
    → last (e ∷ insert earlier x es) ≡ last (insert earlier x es)
unfolding insert
last-cons_insert e x [] = refl
last-cons_insert e x (f ∷ es) = elim (Bool-cases (earlier f x)) [ inl t ↦ rw t | inr f ↦ rw f ]

last-insert :
    (x : AuditEvent) (es : List AuditEvent)
    → Ordered es
    → last (insert earlier x es) ≡ newer (some x) (last es)
unfolding insert
last-insert x [] o = refl
last-insert x (e ∷ []) o = ground arith
last-insert x (e ∷ f ∷ es) o = elim (Bool-cases (earlier e x)) [
  | inl t ↦ rw t (last-cons_insert e x (f ∷ es) ∙ last-insert x (f ∷ es) o.1)
  | inr t ↦
      let (l, is_last, later) = last-AtLeast e.sequence_number f es o.0 in
      rw t (rw is_last (ground arith))
]

newest : List AuditEvent → Option AuditEvent
newest [] = none
newest (e ∷ es) = newer (some e) (newest es)

last-sort : (es : List AuditEvent) → last (sort earlier es) ≡ newest es
unfolding sort newest
last-sort [] = refl
last-sort (e ∷ es) =
    last-insert e (sort earlier es) (Ordered-sort es) ∙ ap (newer (some e)) (last-sort es)

insert_before :
    (x e : AuditEvent) (es : List AuditEvent)
    → x.sequence_number ≤ e.sequence_number
    → insert earlier x (es ++ e ∷ []) ≡ insert earlier x es ++ e ∷ []
unfolding insert
insert_before x e [] h = ground arith
insert_before x e (f ∷ es) h = ground (arith, insert_before x e es)

-- An event that is numbered last stands last in the sorted log.
pub sort-append :
    (es : List AuditEvent) (e : AuditEvent)
    → AtMost e.sequence_number es
    → sort earlier (es ++ e ∷ []) ≡ sort earlier es ++ e ∷ []
unfolding sort insert
sort-append [] e h = refl
sort-append (x ∷ es) e h =
    ap (insert earlier x) (sort-append es e h.1) ∙ insert_before x e (sort earlier es) h.0

abbrev pub of_environment : String → List AuditEvent → List AuditEvent
of_environment env = select (λ e. e.environment == env)

latest-eq-newest :
    (env : String) (log : List AuditEvent) → latest env log ≡ newest (of_environment env log)
unfolding latest newest select
latest-eq-newest env [] = refl
latest-eq-newest env (e ∷ es) = elim (Bool-cases (e.environment == env)) [
  | inl t ↦ rw t (ap (newer (some e)) (latest-eq-newest env es))
  | inr f ↦ rw f (latest-eq-newest env es)
]

-- The query of `append` finds the last event of the chain that `verify_chain` walks.
pub latest-eq-last :
    (env : String) (log : List AuditEvent)
    → latest env log ≡ last (sort earlier (of_environment env log))
latest-eq-last env log = latest-eq-newest env log ∙ sym (last-sort (of_environment env log))

AtMost-of_insert :
    (n : ℕ) (x : AuditEvent) (es : List AuditEvent)
    → AtMost n (insert earlier x es)
    → (x.sequence_number ≤ n) × AtMost n es
unfolding insert
AtMost-of_insert n x [] = λ a. (a.0, tt)
AtMost-of_insert n x (e ∷ es) = elim (Bool-cases (earlier e x)) [
  | inl t ↦ rw t (λ a. let (first, rest) = AtMost-of_insert n x es a.1 in (first, (a.0, rest)))
  | inr f ↦ rw f (λ a. (a.0, a.1))
]

pub AtMost-of_sort : (n : ℕ) (es : List AuditEvent) → AtMost n (sort earlier es) → AtMost n es
unfolding sort
AtMost-of_sort n [] a = tt
AtMost-of_sort n (e ∷ es) a =
    let (first, rest) = AtMost-of_insert n e (sort earlier es) a in
    (first, AtMost-of_sort n es rest)
