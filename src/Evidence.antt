-- ===== src/Evidence.antt =====
-- domain/workforce_risk/evidence: what identifies structured evidence (fingerprint.py), its age (freshness.py) and the
-- snapshots of it (snapshot.py). Floats, SHA-256 and the printing of JSON are parameters; a date is its ISO text.
pub mod Order
use tasks_management.Base.{
  Bool, List, Option, Payload, Result, String, [], err, false, if◌then◌else◌, leb, list_eq, ltb,
  nat_eq, not, ok, option_eq, sort, string_eq, string_lt, true, value_error, ℕ, ◌&&◌, ◌++◌, ◌-◌,
  ◌==◌, ◌∷◌,
}
use tasks_management.Scoring.{RiskResult}

pub record EvidenceFingerprintInput (F : Type 0) : Type 0 where
  pub schema_version : String
  pub environment : String
  pub subject_id : String
  pub task_state : String
  pub current_assignee : Option String
  pub employee_workloads : List (String × F)
  pub due_date : Option String
  pub dependencies : List String
  pub scoring_versions : List String
  pub evidence_timestamp : ℕ
  pub irrelevant_metadata : Payload

-- the dict that `canonical_material` returns
pub record Material (F : Type 0) : Type 0 where
  pub schema_version : String
  pub subject_id : String
  pub task_state : String
  pub current_assignee : Option String
  pub employee_workloads : List (String × F)
  pub due_date : Option String
  pub dependencies : List String
  pub scoring_versions : List String
  pub environment : String

-- `==` of floats, and `hashlib.sha256(json.dumps(material, sort_keys=True).encode()).hexdigest()`
pub record EvidenceRuntime (F : Type 0) : Type 0 where
  pub same : F → F → Bool
  pub digest : Material F → String

pub data SnapshotFamily : Type 0 where
  employee_overload task_fit project_delivery : SnapshotFamily

pub record SnapshotRiskResult (F : Type 0) : Type 0 where
  pub score_family : SnapshotFamily
  pub result : RiskResult F

pub record VersionedEvidenceSnapshot (F : Type 0) : Type 0 where
  pub evidence : EvidenceFingerprintInput F
  pub risk_results : List (SnapshotRiskResult F)

module _ {F : Type 0} where
  -- the keys of a dict differ, so they alone order its items
  abbrev pub key_lt : String × F → String × F → Bool
  key_lt (j, v) (k, w) = string_lt j k

  unfoldable pub canonical_material : EvidenceFingerprintInput F → Material F
  canonical_material i = record {
    schema_version = i.schema_version;
    subject_id = i.subject_id;
    task_state = i.task_state;
    current_assignee = i.current_assignee;
    employee_workloads = sort key_lt i.employee_workloads;
    due_date = i.due_date;
    dependencies = sort string_lt i.dependencies;
    scoring_versions = sort string_lt i.scoring_versions;
    environment = i.environment;
  }

  module _ (r : EvidenceRuntime F) where
    unfoldable pub fingerprint : EvidenceFingerprintInput F → String
    fingerprint i = r.digest (canonical_material i)

    unfoldable pub snapshot_fingerprint : VersionedEvidenceSnapshot F → String
    snapshot_fingerprint s = fingerprint s.evidence

    -- `==` of two dicts whose items are in the order of their keys
    unfoldable pub same_workloads : List (String × F) → List (String × F) → Bool
    same_workloads [] [] = true
    same_workloads [] ((k, w) ∷ ys) = false
    same_workloads ((j, v) ∷ xs) [] = false
    same_workloads ((j, v) ∷ xs) ((k, w) ∷ ys) = (j == k && r.same v w) && same_workloads xs ys

    abbrev pub name_unless : Bool → String → List String
    name_unless true name = []
    name_unless false name = name ∷ []

    -- `tuple(name for name in before if before[name] != after[name])`
    unfoldable pub changed_names : Material F → Material F → List String
    changed_names before after =
        name_unless (before.schema_version == after.schema_version) "schema_version"
        ++ name_unless (before.subject_id == after.subject_id) "subject_id"
        ++ name_unless (before.task_state == after.task_state) "task_state"
        ++ name_unless (before.current_assignee == after.current_assignee) "current_assignee"
        ++ name_unless (same_workloads before.employee_workloads after.employee_workloads)
            "employee_workloads"
        ++ name_unless (before.due_date == after.due_date) "due_date"
        ++ name_unless (before.dependencies == after.dependencies) "dependencies"
        ++ name_unless (before.scoring_versions == after.scoring_versions) "scoring_versions"
        ++ name_unless (before.environment == after.environment) "environment"

    unfoldable pub material_changes :
        EvidenceFingerprintInput F → EvidenceFingerprintInput F → Result (List String)
    material_changes previous current =
        if not (previous.environment == current.environment)
        then err (value_error "evidence environment mismatch")
        else ok (changed_names (canonical_material previous) (canonical_material current))

-- `evidence_is_stale`; a timedelta that is not positive is 0 here
unfoldable pub evidence_is_stale : ℕ → ℕ → ℕ → Result Bool
evidence_is_stale evidence_timestamp checked_at max_age =
    if leb max_age 0
    then err (value_error "maximum evidence age must be positive")
    else if ltb checked_at evidence_timestamp
    then err (value_error "evidence timestamp cannot be in the future")
    else ok (ltb max_age (checked_at - evidence_timestamp))
