-- ===== src/Comments.antt =====
-- domain/workforce_risk/comments: what a Jira comment says (models.py) and how it is classified by configured phrases
-- (classifier.py). `str.casefold` is a parameter; the reading of the configuration file is not modelled. Times are in seconds.
pub mod Lifecycle
pub mod Signals
use tasks_management.Base.{
  Bool, List, Option, Result, String, [], any, contains, err, false, has_text, has_value,
  if◌then◌else◌, join, leb, list_eq, map, nat_eq, none, ok, option_eq, select, some, string_eq,
  true, value_error, words, ℕ, ◌+◌, ◌==◌, ◌∷◌,
}

pub data CommentCategory : Type 0 where
  temporary_unavailability_report clarification_request technical_help_request : CommentCategory
  blocker_report review_waiting_report workload_concern deadline_concern : CommentCategory
  missing_access_report task_frustration_report collaboration_concern : CommentCategory

pub data AuthorType : Type 0 where
  employee manager reviewer automation unmapped : AuthorType

pub data AttributionStatus : Type 0 where
  verified unverified : AttributionStatus

pub data AvailabilityStatus : Type 0 where
  available unavailable : AvailabilityStatus

pub data FreshnessStatus : Type 0 where
  current stale : FreshnessStatus

pub record AvailabilityWindow : Type 0 where
  pub starts_at : ℕ
  pub ends_at : ℕ

-- `AvailabilityWindow.validate_order`
unfoldable pub validate_order : AvailabilityWindow → Result AvailabilityWindow
validate_order w =
    if leb w.ends_at w.starts_at
    then err (value_error "availability window must end after it starts")
    else ok w

pub record CommentObservation : Type 0 where
  pub jira_comment_id : String
  pub jira_issue_key : String
  pub author_account_id : Option String
  pub body : String
  pub created_at : ℕ
  pub updated_at : ℕ
  pub retrieved_at : ℕ
  pub availability_window : Option AvailabilityWindow

pub record CommentEvidenceSignal : Type 0 where
  pub schema_version : String
  pub classifier_version : String
  pub category : CommentCategory
  pub jira_comment_id : String
  pub jira_issue_key : String
  pub author_reference : String
  pub author_type : AuthorType
  pub attribution_status : AttributionStatus
  pub created_at : ℕ
  pub updated_at : ℕ
  pub retrieved_at : ℕ
  pub freshness : FreshnessStatus
  pub availability_status : AvailabilityStatus
  pub availability_window : Option AvailabilityWindow
  pub extraction_confidence : String
  pub report_only : Bool
  pub scoring_eligible : Bool
  pub candidate_eligible : Bool
  pub proposal_evidence_eligible : Bool
  pub time_bounded_impact_allowed : Bool

pub record CommentClassificationResult : Type 0 where
  pub signal : Option CommentEvidenceSignal
  pub author_type : AuthorType
  pub attribution_status : AttributionStatus
  pub reason : String

-- the dict of the categories as the list of its items
pub record PatternConfiguration : Type 0 where
  pub version : String
  pub categories : List (CommentCategory × List String)
  pub disqualifiers : List String

pub record CommentClassifier : Type 0 where
  pub patterns : PatternConfiguration
  pub employees : List (String × String)
  pub managers : List String
  pub reviewers : List String
  pub automation_accounts : List String

unfoldable pub account : String → List (String × String) → Option String
account key [] = none
account key ((k, v) ∷ rest) = if k == key then some v else account key rest

-- `_author` of an account that is in none of the employee accounts
unfoldable pub other_author : CommentClassifier → String → AuthorType × Option String
other_author c id =
    if contains id c.managers
    then (manager, some id)
    else if contains id c.reviewers
    then (reviewer, some id)
    else if contains id c.automation_accounts
    then (automation, some id)
    else (unmapped, some id)

abbrev employee_or : Option String → AuthorType × Option String → AuthorType × Option String
employee_or none other = other
employee_or (some reference) other = (employee, some reference)

-- `CommentClassifier._author`
unfoldable pub author : CommentClassifier → Option String → AuthorType × Option String
author c none = (unmapped, none)
author c (some id) = employee_or (account id c.employees) (other_author c id)

abbrev pub rejection : AuthorType → AttributionStatus → String → CommentClassificationResult
rejection author_type attribution_status reason = record {
  signal = none;
  author_type = author_type;
  attribution_status = attribution_status;
  reason = reason;
}

abbrev pub window_of : CommentCategory → Option AvailabilityWindow → Option AvailabilityWindow
window_of temporary_unavailability_report window = window
window_of _ window = none

-- not older than a day when it was retrieved
abbrev pub freshness_of : CommentObservation → FreshnessStatus
freshness_of o = if leb o.retrieved_at (o.updated_at + 86_400) then current else stale

module _ (casefold : String → String) where
  -- any of the phrases is in the text
  abbrev pub mentions : String → List String → Bool
  mentions normalized phrases = any (λ phrase. has_text (casefold phrase) normalized) phrases

  unfoldable pub matches : String → List (CommentCategory × List String) → List CommentCategory
  matches normalized categories = map (λ c. c.0) (select (λ c. mentions normalized c.1) categories)

  unfoldable pub signal_of :
      CommentClassifier
      → CommentObservation
      → AuthorType
      → String
      → CommentCategory
      → CommentEvidenceSignal
  signal_of c o author_type author_reference category =
      let window = window_of category o.availability_window in
      record {
        schema_version = "1.0";
        classifier_version = c.patterns.version;
        category = category;
        jira_comment_id = o.jira_comment_id;
        jira_issue_key = o.jira_issue_key;
        author_reference = author_reference;
        author_type = author_type;
        attribution_status = verified;
        created_at = o.created_at;
        updated_at = o.updated_at;
        retrieved_at = o.retrieved_at;
        freshness = freshness_of o;
        availability_status = available;
        availability_window = window;
        extraction_confidence = "high";
        report_only = true;
        scoring_eligible = false;
        candidate_eligible = false;
        proposal_evidence_eligible = false;
        time_bounded_impact_allowed = has_value window;
      }

  -- the result once the author and the categories that match are known
  unfoldable pub classified :
      CommentClassifier
      → CommentObservation
      → AuthorType
      → String
      → List CommentCategory
      → CommentClassificationResult
  classified c o author_type author_reference (category ∷ []) = record {
    signal = some (signal_of c o author_type author_reference category);
    author_type = author_type;
    attribution_status = verified;
    reason = "one explicit configured category matched";
  }
  classified c o author_type author_reference [] =
      rejection author_type verified "no single explicit configured category"
  classified c o author_type author_reference (a ∷ b ∷ rest) =
      rejection author_type verified "no single explicit configured category"

  abbrev pub normalized_body : CommentObservation → String
  normalized_body o = join " " (words (casefold o.body))

  unfoldable pub classify_by :
      CommentClassifier
      → CommentObservation
      → AuthorType × Option String
      → CommentClassificationResult
  classify_by c o (unmapped, reference) =
      rejection unmapped unverified "author is missing or not mapped"
  classify_by c o (author_type, none) =
      rejection unmapped unverified "author is missing or not mapped"
  classify_by c o (author_type, some reference) =
      if mentions (normalized_body o) c.patterns.disqualifiers
      then rejection author_type verified "comment is ambiguous or contains untrusted instructions"
      else classified c o author_type reference (matches (normalized_body o) c.patterns.categories)

  -- `CommentClassifier.classify`
  unfoldable pub classify : CommentClassifier → CommentObservation → CommentClassificationResult
  classify c o = classify_by c o (author c o.author_account_id)
