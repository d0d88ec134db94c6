-- ===== src/Orchestration/Day4.antt =====
-- src/commerce_agent/orchestration/retail_graph.py, `_run_day4`: the state of an investigation, the
-- values that its steps exchange (sql_reasoning/contracts.py, query_engine/contracts.py) and what
-- the run depends on. The hook that interrupts a run for tests is empty.
pub mod Ends
pub mod Queries
pub mod Reports
pub mod Runs
pub mod Budget
pub mod Ending
pub mod Sound
pub mod Chains
pub mod Candidates
pub mod Rounds
pub mod Loops
pub mod Reporting
pub mod Submitting
pub mod Keeping
pub mod Opening
pub mod Outcomes
use text.Mathlib.Text.{find?}
use Prim.Native.String.{len, slice}
use commerce_analyst_agent.Prelude.{
  ℕ, ◌-◌, String, Bool, true, false, not, ◌&&◌, ◌||◌, Option, none, some, List, [], leb, length,
  if◌then◌else◌, ◌==◌, string_eq, nat_beq,
}
use commerce_analyst_agent.Prelude.Outcome.{Method}
use commerce_analyst_agent.Operations.Contracts.{Uuid}
use commerce_analyst_agent.RunErrors.{RunError}
use commerce_analyst_agent.Model.{Hashes, RunScope, ToolCall, ToolResult}
use commerce_analyst_agent.Context.{ContextDatum}
use commerce_analyst_agent.Orchestration.{
  ClarificationRequest, InvestigationPlan, InvestigationReport, RetailRunOutcome, RetailRunRequest,
  RetailTerminal, RunStatus, StopKind, StopOutcome, stopped,
}
use commerce_analyst_agent.Orchestration.Retail.{
  RetailGraph, nodes_revision, schema_revision, stop_outcome, zero_hashes,
}

pub data ErrorSource : Type 0 where
  postgres query_engine : ErrorSource

pub record ProductDbError : Type 0 where
  pub source : ErrorSource
  pub reason_code : String
  pub retryable : Bool
  pub evidence_digest : String

pub data FingerprintKind : Type 0 where
  structural execution : FingerprintKind

pub record SqlFingerprint : Type 0 where
  pub kind : FingerprintKind
  pub digest : String
  pub parser_version : String

-- `SqlCandidate`, less the accounting of its model call.
pub record SqlCandidate : Type 0 where
  pub sql : String
  pub step_id : String
  pub repair_number : ℕ
  pub evidence_refs : List String
  pub structural_fingerprint : SqlFingerprint
  pub execution_fingerprint : SqlFingerprint

pub record SqlReasoningRequest : Type 0 where
  pub run_scope : RunScope
  pub attempt_id : Uuid
  pub sequence : ℕ
  pub step_id : String
  pub current_input : ContextDatum
  pub confirmed_facts : List ContextDatum
  pub evidence : List ContextDatum
  pub repair_number : ℕ
  pub latest_error : Option ProductDbError
  pub previous : Option SqlCandidate

-- The bounds of the fields and `validate_repair_state`.
unfoldable pub validate_repair_state : SqlReasoningRequest → Bool
validate_repair_state request =
    leb 1 (length request.evidence)
    && leb (length request.evidence) 64
    && leb request.repair_number 3
    && elim request.latest_error [
      | none ↦
          nat_beq request.repair_number 0
          && elim request.previous [ none ↦ true | some candidate ↦ false ]
      | some error ↦
          not (nat_beq request.repair_number 0)
          && elim request.previous [ none ↦ false | some candidate ↦ true ]
    ]

-- The columns and rows that a query returns, a cell as its text.
pub record QueryResult : Type 0 where
  pub columns : List String
  pub rows : List (List String)

pub record EvidenceResult : Type 0 where
  pub evidence_id : String
  pub columns : List String
  pub rows : List (List String)
  pub query_fingerprint : String

pub record ReconciliationCheck : Type 0 where
  pub rule_type : String
  pub passed : Bool
  pub reason_code : String
  pub actual_digest : String
  pub expected_digest : String

pub record ReconciliationResult : Type 0 where
  pub passed : Bool
  pub checks : List ReconciliationCheck

-- The values of `current_node`.
pub data Day4Node : Type 0 where
  prepare_context prepare_plan_step execute_query sql_reason : Day4Node
  prepare_report create_proposal finalize complete : Day4Node

-- The keys of `_RetailState` that this loop reads or writes; `pending_call` is the tool call whose
-- JSON stands under `pending_tool_batch_json`.
pub record Day4State : Type 0 where
  pub state_schema_revision : String
  pub node_revision : String
  pub request : RetailRunRequest
  pub current_node : Day4Node
  pub model_call_count : ℕ
  pub tool_call_count : ℕ
  pub repair_count : ℕ
  pub investigation_plan : Option InvestigationPlan
  pub pending_plan_step_ids : List String
  pub sql_candidate : Option SqlCandidate
  pub latest_error : Option ProductDbError
  pub query_evidence : List EvidenceResult
  pub reconciliation : Option ReconciliationResult
  pub proposal_refs : List String
  pub pending_call : Option ToolCall
  pub terminal : Option RetailTerminal
  pub stop_reason : Option StopOutcome
  pub hashes : Hashes
  pub cleanup_complete : Bool

-- The world, and the checkpoint that is kept for the request's thread.
pub record Kept (W : Type 0) : Type 0 where
  pub world : W
  pub saved : Option Day4State

abbrev pub Day4Method : Type 0 → Type 0 → Type 0
Day4Method W A = Method RunError (Kept W) A

-- What the run depends on beside the graph's own fields.
pub record Day4Graph (W : Type 0) : Type 0 where
  pub graph : RetailGraph W
  -- `self._sql_reasoner.generate`, `self._query_engine.execute`, `self._dispatcher.execute`
  pub generate : Option (SqlReasoningRequest → Method RunError W SqlCandidate)
  pub execute : Option (String → Method RunError W QueryResult)
  pub dispatch : Option (RunScope → Uuid → ToolCall → Method RunError W ToolResult)
  -- the write of a checkpoint
  pub update_state : Day4State → Method RunError W (Unit {0})
  -- `model_validate_json` less the validators that the models define, `none` for its error
  pub clarification_of : String → Option ClarificationRequest
  pub plan_of : String → Option InvestigationPlan
  pub report_of : String → Option InvestigationReport
  -- canonical JSON texts, their sha256, and the text of a UUID
  pub evidence_json : EvidenceResult → String
  pub evidence_list_json : List EvidenceResult → String
  pub reconciliation_json : ReconciliationResult → String
  pub sha256_hex : String → String
  pub uuid_str : Uuid → String

-- `_initial_state`
unfoldable pub new_state : RetailRunRequest → Day4State
new_state request = record {
  state_schema_revision = schema_revision;
  node_revision = nodes_revision;
  request = request;
  current_node = prepare_context;
  model_call_count = 0;
  tool_call_count = 0;
  repair_count = 0;
  investigation_plan = none;
  pending_plan_step_ids = [];
  sql_candidate = none;
  latest_error = none;
  query_evidence = [];
  reconciliation = none;
  proposal_refs = [];
  pending_call = none;
  terminal = none;
  stop_reason = none;
  hashes = zero_hashes request;
  cleanup_complete = false;
}

-- `text.endswith(suffix)` and `part in text`
abbrev pub ends_with : String → String → Bool
ends_with text suffix = slice text (len text - len suffix) (len text) == suffix

abbrev pub contains_text : String → String → Bool
contains_text part text = elim (find? text part) [ none ↦ false | some place ↦ true ]

-- `_day4_outcome`
abbrev pub day4_outcome :
    RetailRunRequest
    → RunStatus
    → Option RetailTerminal
    → Option StopOutcome
    → ℕ
    → ℕ
    → Hashes
    → RetailRunOutcome
day4_outcome request status terminal stop model_calls tool_calls hashes = record {
  status = status;
  terminal = terminal;
  stop = stop;
  model_calls = model_calls;
  tool_calls = tool_calls;
  hashes = hashes;
  attempt_id = request.attempt_id;
}

unfoldable pub stop_kind : String → Bool → StopKind
stop_kind reason_code retryable =
    if ends_with reason_code "_limit"
    then StopKind.budget_exhausted
    else if retryable
        || contains_text "unavailable" reason_code
        || contains_text "cleanup" reason_code
    then StopKind.infrastructure_error
    else StopKind.no_progress

-- `_stopped_day4`
unfoldable pub stopped_day4 : RetailRunRequest → String → ℕ → ℕ → Hashes → Bool → RetailRunOutcome
stopped_day4 request reason_code model_calls tool_calls hashes retryable =
    day4_outcome request stopped none
      (some (stop_outcome (stop_kind reason_code retryable) reason_code none retryable)) model_calls
      tool_calls hashes
