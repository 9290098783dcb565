-- ===== src/Tests/Evidence.antt =====
-- Evidence whose dependencies come in another order.
use mathlib.Core.List.{Permᴰ}
use tasks_management.Base.{[], eqb, inl, inr, join, none, ok, refl, some, subst, true, ℕ, ◌∷◌, ◌≡◌}
use tasks_management.Evidence.{
  EvidenceFingerprintInput, EvidenceRuntime, fingerprint, material_changes,
}
use tasks_management.Evidence.Order.{fingerprint_order, rearranged}

abbrev runtime : EvidenceRuntime ℕ
runtime = record { same = eqb; digest = λ m. join "," m.dependencies }

abbrev evidence : EvidenceFingerprintInput ℕ
evidence = record {
  schema_version = "1.0";
  environment = "dev";
  subject_id = "WRD-1";
  task_state = "open";
  current_assignee = some "EMP-001";
  employee_workloads = ("EMP-001", 12) ∷ [];
  due_date = none;
  dependencies = "WRD-2" ∷ "WRD-1" ∷ [];
  scoring_versions = "1" ∷ [];
  evidence_timestamp = 5;
  irrelevant_metadata = [];
}

fingerprint_order_example :
    (fingerprint runtime (rearranged runtime evidence ("WRD-1" ∷ "WRD-2" ∷ []) ("1" ∷ []) 9 [])
      ≡ fingerprint runtime evidence)
    × (material_changes runtime evidence
          (rearranged runtime evidence ("WRD-1" ∷ "WRD-2" ∷ []) ("1" ∷ []) 9 [])
        ≡ ok [])
fingerprint_order_example =
    fingerprint_order runtime evidence ("WRD-1" ∷ "WRD-2" ∷ []) ("1" ∷ []) 9 []
      (Permᴰ.swap refl refl) (Permᴰ.cons refl Permᴰ.nil)
      (λ e m. elim m [
        | inl first ↦ subst (λ x. eqb x.1 x.1 ≡ true) first refl
        | inr n ↦ absurd (n.0)
      ])
