-- ===== src/Jira.antt =====
-- packages/jira-mcp-client/src/jira_mcp_client/mutation.py: the answers of the Jira tools
-- (Jira/Response) and the client that changes an assignee (Jira/Mutation).
mod Response
pub mod Mutation
use tasks_management.Base.{◌*◌}
unfoldable pub use Response.*
