-- ===== src/Tests/Comments.antt =====
-- A comment of an employee about leave.
use tasks_management.Base.{
  String, [], any, false, has_text, is_space, join, refl, scan_words, select, some, starts_with,
  words, ◌∷◌, ◌≡◌,
}
use tasks_management.Comments.{
  CommentClassifier, CommentEvidenceSignal, CommentObservation, account, author, blocker_report,
  classified, classify, classify_by, matches, signal_of, temporary_unavailability_report,
}
use tasks_management.Comments.Lifecycle.{from_signal}
use tasks_management.Comments.Signals.{IsSignalOf, classify-IsSignalOf}

abbrev casefold : String → String
casefold s = s

abbrev classifier : CommentClassifier
classifier = record {
  patterns = record {
    version = "1";
    categories =
        (blocker_report, "blocked" ∷ []) ∷ (temporary_unavailability_report, "on leave" ∷ []) ∷ [];
    disqualifiers = "ignore" ∷ [];
  };
  employees = ("a1", "EMP-001") ∷ [];
  managers = [];
  reviewers = [];
  automation_accounts = [];
}

abbrev comment : CommentObservation
comment = record {
  jira_comment_id = "10";
  jira_issue_key = "WRD-1";
  author_account_id = some "a1";
  body = "I am on   leave";
  created_at = 5;
  updated_at = 5;
  retrieved_at = 100_000;
  availability_window = some (record { starts_at = 1; ends_at = 9 });
}

classified_comment :
    (s : CommentEvidenceSignal) × ((classify casefold classifier comment).signal ≡ some s)
unfolding classify classify_by author account any has_text starts_with words scan_words is_space
    join matches select classified signal_of
classified_comment = (_, refl)

classify-IsSignalOf_example :
    IsSignalOf casefold classifier comment classified_comment.0
    × ((from_signal classified_comment.0).scoring_eligible ≡ false)
    × ((from_signal classified_comment.0).candidate_eligible ≡ false)
    × ((from_signal classified_comment.0).proposal_evidence_eligible ≡ false)
classify-IsSignalOf_example =
    classify-IsSignalOf casefold classifier comment classified_comment.0 classified_comment.1
