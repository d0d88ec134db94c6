-- ===== src/Context.antt =====
-- src/commerce_agent/context_builder/contracts.py: what context assembly is given and what it
-- returns. The child is the assembly itself.
pub mod Checks
pub mod Trimming
pub mod Builder
pub mod Dropping
pub mod Compressing
pub mod Keeping
pub mod Assembly
pub mod Promises
use commerce_analyst_agent.Prelude.{ℕ, String, Bool, ◌&&◌, Option, List, nat_beq, string_eq}
use commerce_analyst_agent.Operations.Contracts.{Uuid}
use commerce_analyst_agent.Model.{
  ConversationGroup, Hashes, InferenceConfig, ModelRequest, RunScope, same_hashes,
}

pub data DatumKind : Type 0 where
  user_input confirmed_fact schema knowledge business_value : DatumKind
  tool_result official_feedback phase error : DatumKind

pub data DataNamespace : Type 0 where
  user_input confirmed_fact runtime_error olist_schema retail_knowledge : DataNamespace
  business_value product_query_result bird_schema bird_official_feedback : DataNamespace
  bird_a_tool_result bird_c_phase : DataNamespace

pub data PromptStep : Type 0 where
  retail_decide retail_clarify retail_report retail_sql_generate retail_sql_repair : PromptStep
  bird_a_act bird_c_respond : PromptStep

pub data RunProfileKey : Type 0 where
  retail bird_a bird_c : RunProfileKey

pub record ContextDatum : Type 0 where
  pub kind : DatumKind
  pub namespace : DataNamespace
  pub source_ref : String
  pub revision : Option String
  pub content : String
  pub digest : String

pub record TypedErrorDatum : Type 0 where
  pub error_type : String
  pub reason_code : String
  pub retryable : Bool
  pub message : String
  pub digest : String

pub record InferenceRule : Type 0 where
  pub step : PromptStep
  pub inference : InferenceConfig
  pub tool_names : List String

-- `_RunProfileBase`; its stop rules are not read by the code.
pub record RunProfile : Type 0 where
  pub key : RunProfileKey
  pub revision : String
  pub prompt_policy_revision : String
  pub tool_catalog_revision : String
  pub allowed_namespaces : List DataNamespace
  pub inference_rules : List InferenceRule
  pub input_token_limit : ℕ
  pub tool_result_max_bytes : ℕ
  pub minimum_recent_groups : ℕ
  pub capability_revision : String
  pub estimator_revision : String
  pub canonicalization_revision : String

pub record ContextRequest : Type 0 where
  pub run_scope : RunScope
  pub attempt_id : Uuid
  pub sequence : ℕ
  pub profile : RunProfile
  pub step : PromptStep
  pub current_input : ContextDatum
  pub confirmed_facts : List ContextDatum
  pub evidence : List ContextDatum
  pub latest_error : Option TypedErrorDatum
  pub history : List ConversationGroup

pub record TrimmingSummary : Type 0 where
  pub original_groups : ℕ
  pub retained_groups : ℕ
  pub removed_group_digests : List String
  pub compressed_result_digests : List String
  pub removed_evidence_digests : List String
  pub estimated_before : ℕ
  pub estimated_after : ℕ

pub record PromptBundle : Type 0 where
  pub model_request : ModelRequest
  pub profile : RunProfileKey
  pub hashes : Hashes
  pub estimated_input_tokens : ℕ
  pub trimming : TrimmingSummary

-- `validate_embedded_request`
unfoldable pub validate_embedded_request : PromptBundle → Bool
validate_embedded_request bundle =
    same_hashes bundle.hashes bundle.model_request.hashes
    && nat_beq bundle.estimated_input_tokens bundle.trimming.estimated_after
