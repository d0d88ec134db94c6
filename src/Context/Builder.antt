-- ===== src/Context/Builder.antt =====
-- `ContextBuilder.build` (src/commerce_agent/context_builder/builder.py): the checked
-- request, the trimming loops one after the other, and the bundle.
use commerce_analyst_agent.Prelude.{
  ℕ, String, not, none, some, List, [], ◌∷◌, ◌++◌, length, ltb, nat_beq, if◌then◌else◌, ◌==◌,
  string_eq,
}
use commerce_analyst_agent.Prelude.Outcome.{Result, ok, err, ◌>>=◌, ◌>>◌, raise_if}
use commerce_analyst_agent.RunErrors.{
  RunError, context_budget_exceeded, context_integrity_error, missing_key, revision_mismatch,
}
use commerce_analyst_agent.Model.{
  ConversationGroup, Hashes, InferenceConfig, ModelRequest, ToolDefinition,
}
use commerce_analyst_agent.Context.{
  ContextDatum, ContextRequest, PromptBundle, RunProfile, TrimmingSummary,
}
use commerce_analyst_agent.Context.Checks.{BuilderPorts, rule_of, validate_request}
use commerce_analyst_agent.Context.Trimming.{
  Trimmed, assembled, compress_groups, drop_groups, estimate, messages, removed_evidence,
  retained_evidence, weigh,
}

module _ (p : BuilderPorts) where
  module _ (request : ContextRequest) (profile : RunProfile) (inference : InferenceConfig) where
    -- The step after the loops: the evidence that is left, its removed digests and `after`.
    abbrev pub deduplicated :
        String
        → List ConversationGroup
        → List ContextDatum
        → ℕ
        → Result RunError (List ContextDatum × List String × ℕ)
    deduplicated config_hash history evidence after =
        if ltb profile.input_token_limit after
        then weigh p request profile inference config_hash history (retained_evidence evidence)
          >>= (λ lighter. ok (retained_evidence evidence, removed_evidence evidence, lighter))
        else ok (evidence, [], after)

    -- `_final_request`
    abbrev pub final_hashes :
        List ConversationGroup
        → List ContextDatum
        → String
        → TrimmingSummary
        → List ToolDefinition
        → Hashes
    final_hashes history evidence config_hash trimming tools = record {
      prompt_policy_hash =
          p.prompt_policy_hash (p.policy_for profile.key).0 (p.policy_for profile.key).1;
      rendered_prompt_hash = p.rendered_prompt_hash (messages p request profile evidence);
      tool_hash = p.tool_hash profile tools;
      context_hash =
          p.context_hash (request.current_input ∷ request.confirmed_facts ++ evidence) history
            trimming request.latest_error;
      config_hash = config_hash;
    }

    abbrev pub summary_of : ℕ → Trimmed → Trimmed → List String → ℕ → TrimmingSummary
    summary_of before dropped compressed removed after = record {
      original_groups = length request.history;
      retained_groups = length compressed.history;
      removed_group_digests = dropped.digests;
      compressed_result_digests = compressed.digests;
      removed_evidence_digests = removed;
      estimated_before = before;
      estimated_after = after;
    }

    abbrev pub final_request :
        List ConversationGroup
        → List ContextDatum
        → String
        → TrimmingSummary
        → List ToolDefinition
        → ModelRequest
    final_request history evidence config_hash trimming tools =
        assembled p request profile inference history evidence
          (final_hashes history evidence config_hash trimming tools) tools

    abbrev pub bundle_of : ModelRequest → TrimmingSummary → PromptBundle
    bundle_of hashed trimming = record {
      model_request = hashed;
      profile = profile.key;
      hashes = hashed.hashes;
      estimated_input_tokens = trimming.estimated_after;
      trimming = trimming;
    }

    -- The end of `build`: the second estimate, and the bundle.
    unfoldable pub seal : ModelRequest → TrimmingSummary → Result RunError PromptBundle
    seal hashed trimming = estimate p request profile inference hashed >>= λ again.
        raise_if (not (nat_beq again trimming.estimated_after))
          (context_integrity_error "estimate_changed_after_hashing")
        >> ok (bundle_of hashed trimming)

    -- The end of `build` from `_final_request` on.
    unfoldable pub finish :
        List ConversationGroup
        → List ContextDatum
        → String
        → TrimmingSummary
        → Result RunError PromptBundle
    finish history evidence config_hash trimming =
        p.tools_for_step profile.key request.step >>= λ tools.
        seal (final_request history evidence config_hash trimming tools) trimming

    -- `build` from `history = list(request.history)` on
    unfoldable pub trim : String → Result RunError PromptBundle
    trim config_hash =
        weigh p request profile inference config_hash request.history request.evidence >>= λ before.
        drop_groups p request profile inference config_hash request.evidence request.history before
        >>= λ dropped.
            compress_groups p request profile inference config_hash request.evidence []
              dropped.history dropped.after
            >>= λ compressed.
                deduplicated config_hash compressed.history request.evidence compressed.after
                >>= λ left.
                    raise_if (ltb profile.input_token_limit left.2) context_budget_exceeded
                    >> finish compressed.history left.0 config_hash
                        (summary_of before dropped compressed left.1 left.2)

  -- `build` with the profile that `_validate_request` returns
  unfoldable pub build_with : ContextRequest → RunProfile → Result RunError PromptBundle
  build_with request profile = elim (rule_of request.step profile.inference_rules) [
    | none ↦ err missing_key
    | some rule ↦
        let config_hash = p.config_hash profile rule.inference p.requested_model in
        raise_if (not (request.run_scope.config_hash == config_hash)) revision_mismatch
        >> trim request profile rule.inference config_hash
  ]

  -- `build`
  unfoldable pub build : ContextRequest → Result RunError PromptBundle
  build request = validate_request p request >>= build_with request
