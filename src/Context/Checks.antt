-- ===== src/Context/Checks.antt =====
-- `ContextBuilder._validate_request` (src/commerce_agent/context_builder/builder.py), and what the
-- builder is given: the registry (context_builder/profiles.py), the token estimator, the JSON
-- printer and the hashes, which are the parameter `BuilderPorts`.
use commerce_analyst_agent.Prelude.{
  ℕ, String, Bool, true, false, not, ◌&&◌, ◌||◌, Option, none, some, List, [], ◌∷◌, map, any, all,
  contains, unique, ltb, leb, nat_beq, if◌then◌else◌, ◌==◌, string_eq, list_eq, nat_eq,
}
use commerce_analyst_agent.Prelude.Outcome.{Result, ok, ◌>>=◌, ◌>>◌, raise_if}
use commerce_analyst_agent.Operations.Contracts.{Uuid}
use commerce_analyst_agent.Turns.{ProviderTurnRef}
use commerce_analyst_agent.RunErrors.{
  RunError, context_integrity_error, data_namespace_violation, profile_mismatch, revision_mismatch,
  tool_result_mismatch,
}
use commerce_analyst_agent.Model.{
  ChatMessage, ConversationGroup, InferenceConfig, Mode, ModelRequest, RunScope, ToolDefinition,
  Track, assistant, is_closed, tool_exchange, validate_error_class,
}
use commerce_analyst_agent.Context.{
  ContextDatum, ContextRequest, DataNamespace, DatumKind, InferenceRule, PromptStep, RunProfile,
  RunProfileKey, TrimmingSummary, TypedErrorDatum,
}

-- The values of the three enumerations, by which they are compared.
abbrev pub kind_value : DatumKind → String
kind_value DatumKind.user_input = "user_input"
kind_value DatumKind.confirmed_fact = "confirmed_fact"
kind_value DatumKind.schema = "schema"
kind_value DatumKind.knowledge = "knowledge"
kind_value DatumKind.business_value = "business_value"
kind_value DatumKind.tool_result = "tool_result"
kind_value DatumKind.official_feedback = "official_feedback"
kind_value DatumKind.phase = "phase"
kind_value DatumKind.error = "error"

abbrev pub namespace_value : DataNamespace → String
namespace_value DataNamespace.user_input = "user_input"
namespace_value DataNamespace.confirmed_fact = "confirmed_fact"
namespace_value DataNamespace.runtime_error = "runtime_error"
namespace_value DataNamespace.olist_schema = "olist_schema"
namespace_value DataNamespace.retail_knowledge = "retail_knowledge"
namespace_value DataNamespace.business_value = "business_value"
namespace_value DataNamespace.product_query_result = "product_query_result"
namespace_value DataNamespace.bird_schema = "bird_schema"
namespace_value DataNamespace.bird_official_feedback = "bird_official_feedback"
namespace_value DataNamespace.bird_a_tool_result = "bird_a_tool_result"
namespace_value DataNamespace.bird_c_phase = "bird_c_phase"

abbrev pub step_value : PromptStep → String
step_value PromptStep.retail_decide = "retail_decide"
step_value PromptStep.retail_clarify = "retail_clarify"
step_value PromptStep.retail_report = "retail_report"
step_value PromptStep.retail_sql_generate = "retail_sql_generate"
step_value PromptStep.retail_sql_repair = "retail_sql_repair"
step_value PromptStep.bird_a_act = "bird_a_act"
step_value PromptStep.bird_c_respond = "bird_c_respond"

pub record TokenEstimate : Type 0 where
  pub input_tokens : ℕ
  pub estimator_revision : String

pub record BuilderPorts : Type 0 where
  -- `registry.get`, `registry.policy_for`, `registry.tools_for_step`
  pub registered : RunProfileKey → Result RunError RunProfile
  pub policy_for : RunProfileKey → String × String
  pub tools_for_step : RunProfileKey → PromptStep → Result RunError (List ToolDefinition)
  pub estimator_revision : String
  pub estimate : ModelRequest → Result RunError TokenEstimate
  pub requested_model : String
  pub timeout_seconds : ℕ
  pub provider_user_id : String
  -- `sha256(content.encode("utf-8")).hexdigest()`, and the search of `_SENSITIVE_ERROR`
  pub sha256_hex : String → String
  pub is_sensitive : String → Bool
  -- the texts of `canonical_json`
  pub profile_json : RunProfile → String
  pub records_json : List ContextDatum → Option TypedErrorDatum → String
  pub summary_json : String → String → Option String → String
  -- `compute_config_hash` and the other audit hashes, `_group_digest`, `scope_digest`
  pub config_hash : RunProfile → InferenceConfig → String → String
  pub prompt_policy_hash : String → String → String
  pub rendered_prompt_hash : List ChatMessage → String
  pub tool_hash : RunProfile → List ToolDefinition → String
  pub context_hash :
      List ContextDatum → List ConversationGroup → TrimmingSummary → Option TypedErrorDatum → String
  pub group_digest : ConversationGroup → String
  pub scope_digest : RunScope → String

abbrev pub ref_of_group : ConversationGroup → ProviderTurnRef
ref_of_group (assistant ref) = ref
ref_of_group (tool_exchange group) = group.provider_turn_ref

abbrev pub results_are_valid : ConversationGroup → Bool
results_are_valid (assistant ref) = true
results_are_valid (tool_exchange group) = all validate_error_class group.tool_results

-- `type(group).model_validate(group.model_dump())`
unfoldable pub is_valid_group : ConversationGroup → Bool
is_valid_group group =
    unique (ref_of_group group).expected_tool_call_ids
    && not (contains "" (ref_of_group group).expected_tool_call_ids)
    && results_are_valid group
    && is_closed group

-- The scope that a profile's key expects.
unfoldable pub has_expected_scope : RunProfileKey → RunScope → Bool
has_expected_scope RunProfileKey.retail scope = elim scope.track [
  | Track.retail ↦ elim scope.mode [ Mode.retail ↦ true | _ ↦ false ]
  | Track.bird ↦ false
]
has_expected_scope RunProfileKey.bird_a scope = elim scope.track [
  | Track.retail ↦ false
  | Track.bird ↦ elim scope.mode [ Mode.a ↦ true | _ ↦ false ]
]
has_expected_scope RunProfileKey.bird_c scope = elim scope.track [
  | Track.retail ↦ false
  | Track.bird ↦ elim scope.mode [ Mode.c ↦ true | _ ↦ false ]
]

-- The next rule of a step, as `next(rule.inference for ... if rule.step == step)` finds it.
unfoldable pub rule_of : PromptStep → List InferenceRule → Option InferenceRule
rule_of step [] = none
rule_of step (rule ∷ rules) =
    let later = rule_of step rules in
    if step_value rule.step == step_value step then some rule else later

-- `sorted(set(xs))`
unfoldable pub insert_new : ℕ → List ℕ → List ℕ
insert_new n [] = n ∷ []
insert_new n (x ∷ xs) =
    let rest = insert_new n xs in
    if ltb n x then n ∷ x ∷ xs else if nat_beq n x then x ∷ xs else x ∷ rest

unfoldable pub sorted_set : List ℕ → List ℕ
sorted_set [] = []
sorted_set (x ∷ xs) = insert_new x (sorted_set xs)

abbrev pub sequences : List ConversationGroup → List ℕ
sequences groups = map (λ group. (ref_of_group group).sequence) groups

module _ (p : BuilderPorts) where
  unfoldable pub check_datum : RunProfile → ContextDatum → Result RunError (Unit {0})
  check_datum profile datum =
      raise_if (not (datum.digest == p.sha256_hex datum.content))
        (context_integrity_error "context_integrity_error")
      >> raise_if
          (not (
            contains (namespace_value datum.namespace)
              (map namespace_value profile.allowed_namespaces)))
          data_namespace_violation

  abbrev pub check_data : RunProfile → List ContextDatum → Result RunError (Unit {0})
  check_data profile [] = ok tt
  check_data profile (datum ∷ data_left) = check_datum profile datum >> check_data profile data_left

  abbrev pub check_error : Option TypedErrorDatum → Result RunError (Unit {0})
  check_error none = ok tt
  check_error (some datum) =
      raise_if (p.is_sensitive datum.message || not (datum.digest == p.sha256_hex datum.message))
        (context_integrity_error "context_integrity_error")

  -- A group that belongs to the attempt and is closed.
  unfoldable pub check_group : RunScope → Uuid → ConversationGroup → Result RunError (Unit {0})
  check_group scope attempt_id group =
      raise_if (not (is_valid_group group)) tool_result_mismatch
      >> raise_if
          (not ((ref_of_group group).scope_digest == p.scope_digest scope)
            || not (nat_beq (ref_of_group group).attempt_id attempt_id))
          tool_result_mismatch

  abbrev pub check_groups : RunScope → Uuid → List ConversationGroup → Result RunError (Unit {0})
  check_groups scope attempt_id [] = ok tt
  check_groups scope attempt_id (group ∷ groups) =
      check_group scope attempt_id group >> check_groups scope attempt_id groups

  -- The loop over `request.history` and the test of the sequence numbers.
  unfoldable pub check_history :
      RunScope → Uuid → ℕ → List ConversationGroup → Result RunError (Unit {0})
  check_history scope attempt_id sequence history =
      check_groups scope attempt_id history
      >> raise_if
          (not (sequences history == sorted_set (sequences history))
            || any (λ n. leb sequence n) (sequences history))
          tool_result_mismatch

  abbrev pub is_registered : RunProfile → ContextRequest → Result RunError (Unit {0})
  is_registered profile request =
      raise_if (not (p.profile_json profile == p.profile_json request.profile))
        (profile_mismatch "profile_mismatch")
      >> raise_if
          (not (
            contains (step_value request.step)
              (map (λ rule. step_value rule.step) profile.inference_rules)))
          (profile_mismatch "profile_step_mismatch")
      >> raise_if (not (has_expected_scope profile.key request.run_scope))
          (profile_mismatch "profile_scope_mismatch")
      >> raise_if (not (p.estimator_revision == profile.estimator_revision)) revision_mismatch

  -- `_validate_request`
  unfoldable pub validate_request : ContextRequest → Result RunError RunProfile
  validate_request request = p.registered request.profile.key >>= λ profile.
      is_registered profile request
      >> check_datum profile request.current_input
      >> check_data profile request.confirmed_facts
      >> check_data profile request.evidence
      >> check_error request.latest_error
      >> check_history request.run_scope request.attempt_id request.sequence request.history
      >>= λ checked. ok profile
