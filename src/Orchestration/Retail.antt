-- ===== src/Orchestration/Retail.antt =====
-- src/commerce_agent/orchestration/retail_graph.py: the state of a retail run, the limits and
-- the graph's dependencies. A state holds the values whose JSON text the source stores,
-- and `W` is the world that the gateway, the tools and the turn store act on.
pub mod Nodes
pub mod Graph
pub mod Progress
pub mod Limits
pub mod Retries
pub mod Cleanup
pub mod Resuming
use commerce_analyst_agent.Prelude.{
  ℕ, String, Bool, false, not, ◌&&◌, ◌||◌, Option, none, List, [], ◌∷◌, leb, ◌==◌, string_eq,
  option_eq,
}
use commerce_analyst_agent.Prelude.Outcome.{Result, Method}
use commerce_analyst_agent.Operations.Contracts.{Uuid}
use commerce_analyst_agent.Turns.{AttemptRef}
use commerce_analyst_agent.RunErrors.{RunError}
use commerce_analyst_agent.Model.{
  ConversationGroup, Hashes, ModelRequest, ModelResponse, PendingToolBatch, ResultStatus, RunScope,
  ToolCall, ToolResult,
}
use commerce_analyst_agent.Context.{ContextRequest, PromptBundle, RunProfile}
use commerce_analyst_agent.Orchestration.{RetailRunRequest, StopKind, StopOutcome}

-- `RetailLoopPolicy` with the bounds of its fields.
pub record RetailLoopPolicy : Type 0 where
  pub max_model_calls : ℕ
  pub max_tool_calls : ℕ
  pub max_replans : ℕ
  pub max_repairs : ℕ
  pub max_clarifications : ℕ

unfoldable pub validate_policy : RetailLoopPolicy → Bool
validate_policy policy =
    leb 1 policy.max_model_calls
    && leb policy.max_model_calls 6
    && leb 1 policy.max_tool_calls
    && leb policy.max_tool_calls 12
    && leb policy.max_replans 2
    && leb policy.max_repairs 3
    && leb policy.max_clarifications 2

-- The nodes that `__init__` adds, and what a state's `current_node` names.
pub data Node : Type 0 where
  prepare_context call_model route_output validate_tools : Node
  execute_tools close_exchange finalize : Node

pub data NodeName : Type 0 where
  at : Node → NodeName
  complete : NodeName

-- `_RetailState`, the keys that this loop reads or writes.
pub record RetailState : Type 0 where
  pub state_schema_revision : String
  pub node_revision : String
  pub request : RetailRunRequest
  pub current_node : NodeName
  pub model_call_count : ℕ
  pub tool_call_count : ℕ
  pub hashes : Hashes
  pub history : List ConversationGroup
  pub pending_tool_batch : Option PendingToolBatch
  pub final_output : Option String
  pub stop_reason : Option StopOutcome
  pub model_request : Option ModelRequest
  pub tool_results : List ToolResult
  pub last_evidence_digest : Option String
  pub cleanup_complete : Bool

-- One row of the list that `_execute_tools` hashes.
pub record EvidenceRow : Type 0 where
  pub arguments_json : String
  pub error_class : Option String
  pub name : String
  pub result_sha256 : String
  pub status : ResultStatus

-- What `RetailGraph` is built from, with the hashes and the printer it calls.
pub record RetailGraph (W : Type 0) : Type 0 where
  pub build : ContextRequest → Result RunError PromptBundle
  pub profile : RunProfile
  pub gateway_complete : ModelRequest → Method RunError W ModelResponse
  pub dispatcher : Option (RunScope → Uuid → ToolCall → Method RunError W ToolResult)
  pub delete_attempt : AttemptRef → Method RunError W (Unit {0})
  pub loop_policy : RetailLoopPolicy
  pub scope_digest : RunScope → String
  pub evidence_digest : List EvidenceRow → String
  pub request_json : RetailRunRequest → String
  pub scope_json : RunScope → String

abbrev pub schema_revision : String
schema_revision = "retail-state-v2"

abbrev pub nodes_revision : String
nodes_revision = "retail-nodes-v2"

abbrev pub zero_hash : String
zero_hash = "0000000000000000000000000000000000000000000000000000000000000000"

abbrev pub zero_hashes : RetailRunRequest → Hashes
zero_hashes request = record {
  prompt_policy_hash = zero_hash;
  rendered_prompt_hash = zero_hash;
  tool_hash = zero_hash;
  context_hash = zero_hash;
  config_hash = request.run_scope.config_hash;
}

unfoldable pub initial_state : RetailRunRequest → RetailState
initial_state request = record {
  state_schema_revision = schema_revision;
  node_revision = nodes_revision;
  request = request;
  current_node = at prepare_context;
  model_call_count = 0;
  tool_call_count = 0;
  hashes = zero_hashes request;
  history = [];
  pending_tool_batch = none;
  final_output = none;
  stop_reason = none;
  model_request = none;
  tool_results = [];
  last_evidence_digest = none;
  cleanup_complete = false;
}

abbrev pub stop_outcome : StopKind → String → Option String → Bool → StopOutcome
stop_outcome kind reason_code digest retryable = record {
  kind = kind;
  reason_code = reason_code;
  evidence_digest = digest;
  retryable = retryable;
}

abbrev pub retail_tool_names : List String
retail_tool_names =
    "retrieve_retail_knowledge" ∷ "resolve_business_value" ∷ "request_clarification"
    ∷ "submit_investigation_plan" ∷ []

abbrev pub rows : List ToolCall → List ToolResult → List EvidenceRow
rows (call ∷ calls) (result ∷ results) =
    record {
      arguments_json = call.arguments_json;
      error_class = result.error_class;
      name = result.name;
      result_sha256 = result.content_sha256;
      status = result.status;
    }
    ∷ rows calls results
rows _ _ = []

-- `any((result.call_id, result.name) != (call.call_id, call.name) for ... in zip(...))`
unfoldable pub is_mismatched : List ToolCall → List ToolResult → Bool
is_mismatched (call ∷ calls) (result ∷ results) =
    not ((result.call_id == call.call_id) && (result.name == call.name))
    || is_mismatched calls results
is_mismatched _ _ = false
