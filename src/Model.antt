-- ===== src/Model.antt =====
-- src/commerce_agent/model/contracts.py: the provider-neutral requests and responses. The field
-- patterns and length bounds of texts are not written; usage, cost and the attempts of a response
-- are accounting that the orchestration does not read.
use commerce_analyst_agent.Prelude.{
  ℕ, String, Bool, true, false, not, ◌&&◌, Option, none, List, [], ◌∷◌, map, leb,
  length as list_length, unique, list_eq, string_eq, ◌==◌,
}
use commerce_analyst_agent.Operations.Contracts.{Uuid}
use commerce_analyst_agent.Turns.{ProviderTurnRef}

pub data Track : Type 0 where
  retail bird : Track

pub data Mode : Type 0 where
  retail a c : Mode

pub record RunScope : Type 0 where
  pub run_id : Uuid
  pub track : Track
  pub mode : Mode
  pub subject_id : String
  pub experiment_id : String
  pub config_hash : String

-- `validate_track_mode`
unfoldable pub validate_track_mode : RunScope → Bool
validate_track_mode scope = elim scope.track [
  | Track.retail ↦ elim scope.mode [ Mode.retail ↦ true | _ ↦ false ]
  | Track.bird ↦ elim scope.mode [ Mode.retail ↦ false | _ ↦ true ]
]

pub data Effort : Type 0 where
  low high max : Effort

-- `ThinkingConfig` and `NonThinkingConfig`; a temperature is the text of its float.
pub data InferenceConfig : Type 0 where
  thinking : Effort → ℕ → InferenceConfig
  non_thinking : String → ℕ → InferenceConfig

pub record ToolCall : Type 0 where
  pub call_id : String
  pub name : String
  pub arguments_json : String

pub data ResultStatus : Type 0 where
  success error : ResultStatus

pub data ContentMode : Type 0 where
  raw summary : ContentMode

pub record ToolResult : Type 0 where
  pub call_id : String
  pub name : String
  pub status : ResultStatus
  pub content_json : String
  pub deterministic_summary : String
  pub content_sha256 : String
  pub source_refs : List String
  pub error_class : Option String
  pub content_mode : ContentMode

-- `validate_error_class`
unfoldable pub validate_error_class : ToolResult → Bool
validate_error_class result = elim result.status [
  | success ↦ elim result.error_class [ none ↦ true | _ ↦ false ]
  | error ↦ elim result.error_class [ none ↦ false | _ ↦ true ]
]

pub record ToolExchangeGroup : Type 0 where
  pub provider_turn_ref : ProviderTurnRef
  pub tool_calls : List ToolCall
  pub tool_results : List ToolResult

pub data ConversationGroup : Type 0 where
  assistant : ProviderTurnRef → ConversationGroup
  tool_exchange : ToolExchangeGroup → ConversationGroup

abbrev pub call_ids : List ToolCall → List String
call_ids calls = map (λ call. call.call_id) calls

abbrev pub result_ids : List ToolResult → List String
result_ids results = map (λ result. result.call_id) results

abbrev pub is_empty : {A : Type 0} → List A → Bool
is_empty [] = true
is_empty (x ∷ xs) = false

-- `all(call.name == result.name for call, result in zip(...))`
unfoldable pub names_match : List ToolCall → List ToolResult → Bool
names_match (call ∷ calls) (result ∷ results) =
    (call.name == result.name) && names_match calls results
names_match _ _ = true

-- The bounds of `ToolExchangeGroup`'s fields and its `validate_closed_exchange`.
unfoldable pub validate_closed_exchange : ToolExchangeGroup → Bool
validate_closed_exchange group =
    not (is_empty group.tool_calls)
    && leb (list_length group.tool_calls) 8
    && leb (list_length group.tool_results) 8
    && (result_ids group.tool_results == call_ids group.tool_calls)
    && (call_ids group.tool_calls == group.provider_turn_ref.expected_tool_call_ids)
    && names_match group.tool_calls group.tool_results

-- The validators of the two kinds of `ConversationGroup`.
unfoldable pub is_closed : ConversationGroup → Bool
is_closed (assistant ref) = is_empty ref.expected_tool_call_ids
is_closed (tool_exchange group) = validate_closed_exchange group

-- The audit hashes that a request, a batch, a state and an outcome carry.
pub record Hashes : Type 0 where
  pub prompt_policy_hash : String
  pub rendered_prompt_hash : String
  pub tool_hash : String
  pub context_hash : String
  pub config_hash : String

-- The loop over the five names that compares two objects' hashes.
unfoldable pub same_hashes : Hashes → Hashes → Bool
same_hashes x y =
    (x.prompt_policy_hash == y.prompt_policy_hash)
    && (x.rendered_prompt_hash == y.rendered_prompt_hash)
    && (x.tool_hash == y.tool_hash)
    && (x.context_hash == y.context_hash)
    && (x.config_hash == y.config_hash)

pub record PendingToolBatch : Type 0 where
  pub provider_turn_ref : ProviderTurnRef
  pub tool_calls : List ToolCall
  pub expected_tool_call_ids : List String
  pub graph_node_revision : String
  pub budget_model_calls : ℕ
  pub budget_tool_calls : ℕ
  pub hashes : Hashes

-- The bounds of `PendingToolBatch`'s fields and its `validate_expected_calls`.
unfoldable pub validate_expected_calls : PendingToolBatch → Bool
validate_expected_calls pending =
    not (is_empty pending.tool_calls)
    && leb (list_length pending.tool_calls) 8
    && unique (call_ids pending.tool_calls)
    && (call_ids pending.tool_calls == pending.expected_tool_call_ids)
    && (call_ids pending.tool_calls == pending.provider_turn_ref.expected_tool_call_ids)

pub data Role : Type 0 where
  system user : Role

pub record ChatMessage : Type 0 where
  pub role : Role
  pub content : String

pub record ToolDefinition : Type 0 where
  pub name : String
  pub description : String
  pub parameters_json : String
  pub catalog_revision : String
  pub capability_sha256 : String

-- `FinalOutput` and `ToolCallOutput`
pub data ModelOutput : Type 0 where
  final : String → ModelOutput
  tool_calls : List ToolCall → ModelOutput

pub record ModelRequest : Type 0 where
  pub run_scope : RunScope
  pub attempt_id : Uuid
  pub sequence : ℕ
  pub inference : InferenceConfig
  pub messages : List ChatMessage
  pub history : List ConversationGroup
  pub tools : List ToolDefinition
  pub timeout_seconds : ℕ
  pub capability_revision : String
  pub provider_user_id : String
  pub hashes : Hashes

pub data FinishReason : Type 0 where
  stop tool_calls length content_filter insufficient_system_resource : FinishReason

pub record ModelResponse : Type 0 where
  pub output : ModelOutput
  pub provider_turn_ref : ProviderTurnRef
  pub finish_reason : FinishReason
  pub actual_model : String

-- The part of `validate_tool_call_binding` from `if isinstance(self.output, ...)` on.
unfoldable pub validate_tool_call_binding : ModelResponse → Bool
validate_tool_call_binding response = elim response.output [
  | ModelOutput.tool_calls calls ↦
      let bound = call_ids calls == response.provider_turn_ref.expected_tool_call_ids in
      elim response.finish_reason [ FinishReason.tool_calls ↦ bound | _ ↦ false ]
  | final content ↦
      let unbound = is_empty response.provider_turn_ref.expected_tool_call_ids in
      elim response.finish_reason [ FinishReason.tool_calls ↦ false | _ ↦ unbound ]
]
