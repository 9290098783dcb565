-- ===== src/Evidence/Order.antt =====
-- What the fingerprint of evidence depends on.
use mathlib.Core.List.{Permᴰ}
use tasks_management.Base.{
  ==_refl, All, All-intro, List, Member, Member-sort, Payload, String, [], ap, ok, refl, sort,
  sort_perm, string_lt, string_lt-IsOrder, true, ℕ, ◌∷◌, ◌≡◌,
}
use tasks_management.Evidence.{
  EvidenceFingerprintInput, EvidenceRuntime, Material, canonical_material, changed_names,
  fingerprint, key_lt, material_changes, same_workloads,
}

module _ {F : Type 0} (r : EvidenceRuntime F) where
  same_workloads_refl :
      (xs : List (String × F)) → All (λ e. r.same e.1 e.1 ≡ true) xs → same_workloads r xs xs ≡ true
  unfolding same_workloads
  same_workloads_refl [] h = refl
  same_workloads_refl ((k, v) ∷ xs) (reflexive, h) =
      rw (==_refl k, reflexive, same_workloads_refl xs h) refl

  changed_names_refl :
      (m : Material F)
      → same_workloads r m.employee_workloads m.employee_workloads ≡ true
      → changed_names r m m ≡ []
  unfolding changed_names
  changed_names_refl m h =
      rw
        (
          ==_refl m.schema_version,
          ==_refl m.subject_id,
          ==_refl m.task_state,
          ==_refl m.current_assignee,
          h,
          ==_refl m.due_date,
          ==_refl m.dependencies,
          ==_refl m.scoring_versions,
          ==_refl m.environment,
        )
        refl

  abbrev pub rearranged :
      EvidenceFingerprintInput F
      → List String
      → List String
      → ℕ
      → Payload
      → EvidenceFingerprintInput F
  rearranged i dependencies scoring_versions evidence_timestamp irrelevant_metadata = record i {
    dependencies = dependencies;
    scoring_versions = scoring_versions;
    evidence_timestamp = evidence_timestamp;
    irrelevant_metadata = irrelevant_metadata;
  }

  same_material :
      (i : EvidenceFingerprintInput F) (dependencies scoring_versions : List String)
      (evidence_timestamp : ℕ) (irrelevant_metadata : Payload)
      → Permᴰ i.dependencies dependencies
      → Permᴰ i.scoring_versions scoring_versions
      → canonical_material
          (rearranged i dependencies scoring_versions evidence_timestamp irrelevant_metadata)
        ≡ canonical_material i
  unfolding canonical_material
  same_material i dependencies scoring_versions evidence_timestamp irrelevant_metadata d v =
      cc (sort_perm string_lt string_lt-IsOrder d, sort_perm string_lt string_lt-IsOrder v)

  workloads_of :
      (i : EvidenceFingerprintInput F)
      → same_workloads r (sort key_lt i.employee_workloads) (sort key_lt i.employee_workloads)
        ≡ true
      → same_workloads r
          (canonical_material i).employee_workloads
          (canonical_material i).employee_workloads
        ≡ true
  unfolding canonical_material
  workloads_of i h = h

  -- The same evidence with its dependencies and scoring versions in another order, taken at another time and with other
  -- metadata, has the same fingerprint, and no material change is seen if no workload is NaN.
  pub fingerprint_order :
      (i : EvidenceFingerprintInput F) (dependencies scoring_versions : List String)
      (evidence_timestamp : ℕ) (irrelevant_metadata : Payload)
      → Permᴰ i.dependencies dependencies
      → Permᴰ i.scoring_versions scoring_versions
      → ((e : String × F) → Member e i.employee_workloads → r.same e.1 e.1 ≡ true)
      → (fingerprint r
            (rearranged i dependencies scoring_versions evidence_timestamp irrelevant_metadata)
          ≡ fingerprint r i)
        × (material_changes r i
              (rearranged i dependencies scoring_versions evidence_timestamp irrelevant_metadata)
            ≡ ok [])
  unfolding fingerprint material_changes
  fingerprint_order i dependencies scoring_versions evidence_timestamp irrelevant_metadata d v
        numbers =
      let same =
        same_material i dependencies scoring_versions evidence_timestamp irrelevant_metadata d v in
      let workloads : same_workloads r (sort key_lt i.employee_workloads)
            (sort key_lt i.employee_workloads)
          ≡ true =
        same_workloads_refl (sort key_lt i.employee_workloads) (
          All-intro (λ e. r.same e.1 e.1 ≡ true) (sort key_lt i.employee_workloads)
            (λ e m. numbers e (Member-sort key_lt i.employee_workloads e m))) in
      (
        ap r.digest same,
        rw (==_refl i.environment, same)
            (ap ok (changed_names_refl (canonical_material i) (workloads_of i workloads))),
      )
