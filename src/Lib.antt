-- ===== src/Lib.antt =====
-- Workforce risk management: a service that scores the delivery risk of employees, tasks and projects, raises
-- alerts, and reassigns Jira issues after a manager has approved the proposal.
--
-- The parts and how they interact. A scan (domain/workforce_risk/scans) runs a pipeline that scores evidence
-- (domain/workforce_risk/scoring) and records risks as alerts (domain/workforce_risk/alerts). A manager proposes
-- a reassignment, decides on it, and has it carried out (domain/workforce_risk/proposals) by the Jira mutation
-- client (packages/jira-mcp-client). Executions whose outcome is not known are settled by a reconciliation that
-- reads the issue. Changes of proposals and the moves of alerts by managers are written to a hash-chained audit
-- log, and what a manager has to hear of goes through an outbox to the notification worker
-- (services/notification-worker). Candidates for a reassignment are compared by a simulation. State is kept
-- in the tables of packages/persistence. The API in front of it (services/agent-api) authenticates keys and
-- limits the rate of requests.
--
-- Which file models which part:
--   Base: the shared names; Boolean tests, exceptions as a `Result`, tables as lists of rows with the queries
--     that the repositories make (`find_first`, `select`, `update_where`, `count_where`), membership, sorting and
--     orders, JSON values, strings.
--   Risk, Scoring: domain/workforce_risk/models.py and scoring/*.py.
--     `score_employee_overload` and `score_normalized_family` are in `Scoring.Overload` and `Scoring.Family`,
--     the scores of tasks and projects in `Scoring.Inputs`.
--   Simulation: domain/workforce_risk/simulation/candidates.py and service.py.
--   Store: packages/persistence/src/workforce_persistence/models.py (the rows), `AuditRepository` of
--     repositories.py (`append` is `append_audit`, `verify_chain`), `OutboxRepository` of outbox_repository.py.
--   Proposals: domain/workforce_risk/proposals/state.py and models.py; `ProposalRepository` of
--     proposal_repository.py is `Proposals.Repository` and `SimulationRepository` of
--     simulation_repository.py `Proposals.Simulations`; `ReassignmentExecutionService` of proposals/execution.py is
--     `Proposals.Execution` over `DatabaseExecutionStore` of execution_repository.py, `Proposals.Execution.Store`;
--     `ReconciliationService` of proposals/reconciliation.py is `Proposals.Reconciliation` over
--     `DatabaseReconciliationStore`, `Proposals.Reconciliation.Store`.
--   Jira: packages/jira-mcp-client/src/jira_mcp_client/mutation.py, `JiraAssigneeMutationClient`; its `execute`
--     is `execute_mutation`.
--   Alerts: domain/workforce_risk/alerts/rules.py and state.py, and `AlertRepository` of alert_repository.py
--     (`record_risk` and `resolve_active_risk` in `Alerts.Repository`, `transition` in `Alerts.Transitions`).
--   Scans: domain/workforce_risk/scans/service.py over `DatabaseScanStore` of scan_repository.py.
--   Notifications: services/notification-worker/src/notification_worker/{worker,delivery_store,email}.py, and
--     sqs.py and outbox.py in `Notifications.Publishing`.
--   Profiles: domain/workforce_risk/profiles.py. Evidence: domain/workforce_risk/evidence (fingerprint.py, freshness.py,
--     snapshot.py).
--   Comments: domain/workforce_risk/comments (models.py, classifier.py).
--   Progress: packages/persistence/src/workforce_persistence/progress_repository.py, `ProgressRepository` in
--     `Progress.Repository`.
--   Auth: services/agent-api/src/agent_api/auth/api_keys.py; packages/contracts/src/workforce_contracts/auth.py,
--     the signed contexts that services hand on, in `Auth.Context`, over `Auth.Base64`. Limits:
--     security/limits.py of the agent API, its middleware in `Limits.Boundary`.
--   Agent: services/agent-api/src/agent_api: the evidence of an answer (evidence/focus.py, `Agent.Focus`),
--     who could take over tasks (evidence/derivation.py, `Agent.Ranking`), the
--     read plan (evidence/planner.py and normalizer.py, `Agent.Planner` and `Agent.Normalizer`), and the control
--     of the calls of the language model and the checks of its text (llm/bedrock.py over llm/schemas.py,
--     `Agent.Explanation`). The regular expressions are functions over the text in `Agent.Patterns`, or terms
--     of `Agent.Patterns.Regex`.
--   Tests: concrete inputs.
--
-- How the code is modelled. A method that runs in one database transaction is a function from the tables to a
-- result with the new tables; an exception is an `err`, which leaves the old tables, as a rollback does. A
-- service makes several such transactions and calls of other services, in the order of the code; its state is a
-- `World` of the tables and the state of the service it calls. A table is the list of its rows, oldest first. A
-- query that expects one row takes the first; identifiers are compared as the strings they print as. The clock
-- and the values of `uuid.uuid4()` are the argument `Call`; times are natural numbers of one unit (whole seconds
-- in Limits). SHA-256 and the printing of JSON are the parameter `Platform`, of which nothing is assumed. The
-- Jira tool server is the parameter `Transport`, the mail service `Mailer`, the queue `Queue`, the scan
-- pipeline `ScanPipeline`; any answer and any failure of them is allowed. The calls made of the Jira server are
-- recorded. Floats are the record `Floats`: the operations that the scores use and the laws of IEEE doubles that
-- are relied on, NaN included. Loops are structural recursions over the list they run through or over the number
-- of attempts. Only the loop of `_conservative_bedrock_answer` in `Agent.Explanation` has fuel, as its condition
-- sets no bound: the configured attempts and one more are enough, or 1024 with `persistent_retry`, when the pause
-- before the next attempt overflows. What a language model replies is a function of the number of the call.
--
-- Not modelled: the checks of field patterns and lengths that pydantic makes of the commands and of the missing data of
-- a ranking (the limits of scoring factors and of the missing data of an answer are modelled), the database beyond what the queries need (isolation between transactions is
-- taken as serial; of the unique constraints, those of the progress tables are enforced), logging and metrics,
-- reports, the validators of grounding.py and the prompts of the model, the workflow graph, the HTTP routes and the MCP
-- servers. Each is left out because it is input and output, rendering of text, or calls of libraries that are not
-- in the repository.
mod Base
pub mod Risk
pub mod Proposals
pub mod Store
pub mod Jira
pub mod Alerts
pub mod Scans
pub mod Notifications
pub mod Scoring
pub mod Auth
pub mod Limits
pub mod Simulation
pub mod Profiles
pub mod Evidence
pub mod Comments
pub mod Progress
pub mod Agent
mod Tests
