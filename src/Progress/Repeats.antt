-- ===== src/Progress/Repeats.antt =====
-- An observation that is recorded twice.
use tasks_management.Base.{
  String, [], ap, ok, ok-injective, on_success_inv, refl, subst, ℕ, ◌∙◌, ◌∷◌, ◌≡◌,
}
use tasks_management.Progress.{ProgressRuntime, TaskProgressObservation}
use tasks_management.Progress.Repository.{record_all, record_observations, record_one}
use tasks_management.Progress.Rows.{ProgressDb, ProgressPersistenceResult, Recorded}
use tasks_management.Progress.Recording.{
  IsNumeric, IsSettled, record_one-IsSettled, record_one-settled,
}

module _ {F : Type 0} (r : ProgressRuntime F) (uuid : ℕ → String) (environment : String) where
  -- Recording an observation a second time, right after it was recorded, creates no snapshot and no event and leaves the
  -- tables as they are, if none of its hours is NaN.
  pub record_observations_again :
      (timezone : String) (o : TaskProgressObservation F) (db db' : ProgressDb F)
      (result : ProgressPersistenceResult)
      → IsNumeric r o
      → record_observations r uuid environment timezone (o ∷ []) db ≡ ok (result, db')
      → record_observations r uuid environment timezone (o ∷ []) db'
        ≡ ok (record { observed = 1; snapshots_created = 0; events_created = 0 }, db')
  unfolding record_observations record_all
  record_observations_again timezone o db db' result numeric h =
      let begun : Recorded F = record {
        db = db;
        drawn = 0;
        snapshots_created = 0;
        events_created = 0;
      } in
      let (t, recorded, counts) =
        on_success_inv _ (record_all r uuid environment timezone (o ∷ []) begun) (result, db') h in
      let (u, once, rest) =
        on_success_inv _ (record_one r uuid environment timezone o begun) t recorded in
      let same : u ≡ t = ok-injective rest in
      let tables : t.db ≡ db' = ap (λ x. x.1) (ok-injective counts) in
      let settled : IsSettled r uuid environment timezone o db' =
        subst (λ d. IsSettled r uuid environment timezone o d) (ap (λ x. x.db) same ∙ tables)
          (record_one-IsSettled r uuid environment timezone o begun u once) in
      rw
        (record_one-settled r uuid environment timezone o
          (record { db = db'; drawn = 0; snapshots_created = 0; events_created = 0 }) numeric
          settled)
        refl
