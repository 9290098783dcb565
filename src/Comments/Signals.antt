-- ===== src/Comments/Signals.antt =====
-- What it takes for a comment to become a signal, and what the signal may be used for.
use tasks_management.Base.{
  Bool-cases, List, Option, String, [], false, if◌then◌else◌, inl, inr, none, refl, some, subst,
  sym, true, ◌∙◌, ◌∷◌, ◌≡◌, ◌≢◌,
}
use tasks_management.Comments.Lifecycle.{from_signal}
use tasks_management.Comments.{
  AuthorType, CommentCategory, CommentClassifier, CommentEvidenceSignal, CommentObservation, author,
  automation, classified, classify, classify_by, employee, manager, matches, mentions,
  normalized_body, rejection, reviewer, signal_of, unmapped, verified,
}

-- what nobody may use as evidence
abbrev pub IsReportOnly : CommentEvidenceSignal → Type 0
IsReportOnly s =
    (s.report_only ≡ true)
    × (s.scoring_eligible ≡ false)
    × (s.candidate_eligible ≡ false)
    × (s.proposal_evidence_eligible ≡ false)

-- the signal of a comment that matches one category
abbrev pub IsSignalOf :
    (String → String) → CommentClassifier → CommentObservation → CommentEvidenceSignal → Type 0
IsSignalOf casefold c o s =
    (author c o.author_account_id ≡ (s.author_type, some s.author_reference))
    × (s.author_type ≢ unmapped)
    × (mentions casefold (normalized_body casefold o) c.patterns.disqualifiers ≡ false)
    × (matches casefold (normalized_body casefold o) c.patterns.categories ≡ s.category ∷ [])
    × IsReportOnly s

classified_inv :
    (casefold : String → String) (c : CommentClassifier) (o : CommentObservation) (t : AuthorType)
    (reference : String) (found : List CommentCategory) (s : CommentEvidenceSignal)
    → (classified casefold c o t reference found).signal ≡ some s
    → (found ≡ s.category ∷ [])
      × (s.author_type ≡ t)
      × (s.author_reference ≡ reference)
      × IsReportOnly s
unfolding classified signal_of
classified_inv casefold c o t reference [] s h = cc
classified_inv casefold c o t reference (category ∷ []) s h =
    let same : signal_of casefold c o t reference category ≡ s = cc h in
    subst
      (λ x.
        (category ∷ [] ≡ x.category ∷ [])
        × (x.author_type ≡ t)
        × (x.author_reference ≡ reference)
        × IsReportOnly x)
      same (refl, refl, refl, (refl, refl, refl, refl))
classified_inv casefold c o t reference (a ∷ b ∷ rest) s h = cc

classify_mapped :
    (casefold : String → String) (c : CommentClassifier) (o : CommentObservation) (t : AuthorType)
    (reference : String) (s : CommentEvidenceSignal)
    → t ≢ unmapped
    → author c o.author_account_id ≡ (t, some reference)
    → (if mentions casefold (normalized_body casefold o) c.patterns.disqualifiers
        then rejection t verified "comment is ambiguous or contains untrusted instructions"
        else classified casefold c o t reference
            (matches casefold (normalized_body casefold o) c.patterns.categories)).signal
      ≡ some s
    → IsSignalOf casefold c o s
classify_mapped casefold c o t reference s mapped known h =
    elim (Bool-cases (mentions casefold (normalized_body casefold o) c.patterns.disqualifiers)) [
      | inl held ↦ absurd (cc (rw held at h))
      | inr free ↦
          let (found, type, named, report) =
            classified_inv casefold c o t reference
              (matches casefold (normalized_body casefold o) c.patterns.categories) s
              (rw free at h) in
          (cc (known, type, named), λ u. mapped (sym type ∙ u), free, found, report)
    ]

classify_by_inv :
    (casefold : String → String) (c : CommentClassifier) (o : CommentObservation)
    (a : AuthorType × Option String) (s : CommentEvidenceSignal)
    → author c o.author_account_id ≡ a
    → (classify_by casefold c o a).signal ≡ some s
    → IsSignalOf casefold c o s
unfolding classify_by
classify_by_inv casefold c o (unmapped, reference) s known h = cc
classify_by_inv casefold c o (employee, none) s known h = cc
classify_by_inv casefold c o (manager, none) s known h = cc
classify_by_inv casefold c o (reviewer, none) s known h = cc
classify_by_inv casefold c o (automation, none) s known h = cc
classify_by_inv casefold c o (employee, some reference) s known h =
    classify_mapped casefold c o employee reference s (λ e. cc) known h
classify_by_inv casefold c o (manager, some reference) s known h =
    classify_mapped casefold c o manager reference s (λ e. cc) known h
classify_by_inv casefold c o (reviewer, some reference) s known h =
    classify_mapped casefold c o reviewer reference s (λ e. cc) known h
classify_by_inv casefold c o (automation, some reference) s known h =
    classify_mapped casefold c o automation reference s (λ e. cc) known h

-- A comment gives a signal only if its author is mapped, its text has no disqualifying phrase and exactly one category has a
-- phrase in it, which is the signal's; the signal and the observation that is kept of it are for reports alone.
pub classify-IsSignalOf :
    (casefold : String → String) (c : CommentClassifier) (o : CommentObservation)
    (s : CommentEvidenceSignal)
    → (classify casefold c o).signal ≡ some s
    → IsSignalOf casefold c o s
      × ((from_signal s).scoring_eligible ≡ false)
      × ((from_signal s).candidate_eligible ≡ false)
      × ((from_signal s).proposal_evidence_eligible ≡ false)
unfolding classify from_signal
classify-IsSignalOf casefold c o s h =
    (classify_by_inv casefold c o (author c o.author_account_id) s refl h, refl, refl, refl)
