-- ===== src/Jira/Response.antt =====
-- packages/jira-mcp-client/src/jira_mcp_client/mutation.py, assignee_from_response: reading an
-- assignee out of the answer of a Jira tool, a tree of mappings.
use tasks_management.Base.{
  Option, String, if◌then◌else◌, nat_eq, none, option_eq, some, string_eq, ◌==◌,
}

mutual
  pub data Value : Type 0 where
    -- a value that is neither a string nor a mapping
    other : Value
    string_value : String → Value
    mapping : Mapping → Value

  pub data Mapping : Type 0 where
    end : Mapping
    entry : String → Value → Mapping → Mapping

unfoldable pub get : String → Mapping → Option Value
get key end = none
get key (entry k v rest) = if k == key then some v else get key rest

-- `x if isinstance(x, Mapping) else None`
abbrev pub as_mapping : Option Value → Option Mapping
as_mapping (some (mapping m)) = some m
as_mapping _ = none

abbrev pub get_mapping : String → Option Mapping → Option Mapping
get_mapping key none = none
get_mapping key (some m) = as_mapping (get key m)

-- `response.get("data", response)`
abbrev pub data_of : Mapping → Option Value → Option Mapping
data_of response none = some response
data_of response (some v) = as_mapping (some v)

-- `if isinstance(data.get("data"), Mapping): data = data["data"]`
abbrev pub inner_or : Option Mapping → Option Mapping → Option Mapping
inner_or m (some inner) = some inner
inner_or m none = m

-- `value if isinstance(value, str) and value else None`
abbrev pub as_text : Option Value → Option String
as_text (some (string_value s)) = if s == "" then none else some s
as_text _ = none

unfoldable pub assignee_from_response : Mapping → Option String
unfolding get
assignee_from_response response =
    let outer = data_of response (get "data" response) in
    let inner = inner_or outer (get_mapping "data" outer) in
    let assignee = get_mapping "assignee" (get_mapping "fields" inner) in
    elim assignee [ none ↦ none | some m ↦ as_text (get "accountId" m) ]
