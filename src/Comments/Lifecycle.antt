-- ===== src/Comments/Lifecycle.antt =====
-- domain/workforce_risk/comments/lifecycle.py: the observation that is kept of a comment. The digest of its JSON is a
-- parameter.
use tasks_management.Base.{Bool, Option, String, false, true, ℕ}
use tasks_management.Comments.{
  AttributionStatus, AuthorType, AvailabilityStatus, AvailabilityWindow, CommentCategory,
  CommentEvidenceSignal, FreshnessStatus, stale, unavailable,
}

pub record CommentLifecycleObservation : Type 0 where
  pub schema_version : String
  pub classifier_version : String
  pub category : CommentCategory
  pub jira_comment_id : String
  pub jira_issue_key : String
  pub author_reference : String
  pub author_type : AuthorType
  pub attribution_status : AttributionStatus
  pub comment_created_at : ℕ
  pub updated_at : ℕ
  pub retrieved_at : ℕ
  pub freshness : FreshnessStatus
  pub availability_status : AvailabilityStatus
  pub availability_window : Option AvailabilityWindow
  pub report_only : Bool
  pub scoring_eligible : Bool
  pub candidate_eligible : Bool
  pub proposal_evidence_eligible : Bool

unfoldable pub from_signal : CommentEvidenceSignal → CommentLifecycleObservation
from_signal s = record {
  schema_version = s.schema_version;
  classifier_version = s.classifier_version;
  category = s.category;
  jira_comment_id = s.jira_comment_id;
  jira_issue_key = s.jira_issue_key;
  author_reference = s.author_reference;
  author_type = s.author_type;
  attribution_status = s.attribution_status;
  comment_created_at = s.created_at;
  updated_at = s.updated_at;
  retrieved_at = s.retrieved_at;
  freshness = s.freshness;
  availability_status = s.availability_status;
  availability_window = s.availability_window;
  report_only = true;
  scoring_eligible = false;
  candidate_eligible = false;
  proposal_evidence_eligible = false;
}

unfoldable pub mark_unavailable : CommentLifecycleObservation → ℕ → CommentLifecycleObservation
mark_unavailable previous retrieved_at = record previous {
  retrieved_at = retrieved_at;
  freshness = stale;
  availability_status = unavailable;
}

unfoldable pub observation_fingerprint :
    (CommentLifecycleObservation → String) → CommentLifecycleObservation → String
observation_fingerprint digest o = digest o
