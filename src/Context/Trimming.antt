-- ===== src/Context/Trimming.antt =====
-- The candidate requests of `ContextBuilder.build` (src/commerce_agent/context_builder/builder.py),
-- and the loops that trim the history and the evidence to the token limit of the profile.
use commerce_analyst_agent.Prelude.{
  ℕ, String, Bool, true, false, not, ◌&&◌, List, [], ◌∷◌, ◌++◌, any, length, ltb, if◌then◌else◌,
  ◌==◌, string_eq,
}
use commerce_analyst_agent.Prelude.Outcome.{Result, ok, ◌>>=◌, ◌>>◌, raise_if}
use commerce_analyst_agent.RunErrors.{RunError, revision_mismatch}
use commerce_analyst_agent.Model.{
  ChatMessage, ConversationGroup, Hashes, InferenceConfig, ModelRequest, ToolDefinition,
  ToolExchangeGroup, ToolResult, assistant, raw, summary, system, tool_exchange, user,
}
use commerce_analyst_agent.Context.{ContextDatum, ContextRequest, RunProfile}
use commerce_analyst_agent.Context.Checks.{BuilderPorts, kind_value, namespace_value}

abbrev pub no_hash : String
no_hash = "0000000000000000000000000000000000000000000000000000000000000000"

abbrev pub unhashed : String → Hashes
unhashed config_hash = record {
  prompt_policy_hash = no_hash;
  rendered_prompt_hash = no_hash;
  tool_hash = no_hash;
  context_hash = no_hash;
  config_hash = config_hash;
}

-- The identities `(kind, namespace, source_ref)` of two data are the same.
unfoldable pub same_identity : ContextDatum → ContextDatum → Bool
same_identity x y =
    (kind_value x.kind == kind_value y.kind)
    && (namespace_value x.namespace == namespace_value y.namespace)
    && (x.source_ref == y.source_ref)

-- A datum stays where its index is the last one of its identity: no later datum has it.
unfoldable pub retained_evidence : List ContextDatum → List ContextDatum
retained_evidence [] = []
retained_evidence (datum ∷ later) =
    let rest = retained_evidence later in
    if any (same_identity datum) later then rest else datum ∷ rest

unfoldable pub removed_evidence : List ContextDatum → List String
removed_evidence [] = []
removed_evidence (datum ∷ later) =
    let rest = removed_evidence later in
    if any (same_identity datum) later then datum.digest ∷ rest else rest

-- The variables of the loops: `history`, the digests taken out of it, and `after`.
pub record Trimmed : Type 0 where
  pub history : List ConversationGroup
  pub digests : List String
  pub after : ℕ

-- One exchange and its results so far compressed.
pub record Compressed : Type 0 where
  pub group : ToolExchangeGroup
  pub digests : List String
  pub after : ℕ

abbrev pub is_raw : ToolResult → Bool
is_raw result = elim result.content_mode [ raw ↦ true | summary ↦ false ]

abbrev pub with_results : ToolExchangeGroup → List ToolResult → ToolExchangeGroup
with_results group results = record group { tool_results = results }

module _ (p : BuilderPorts) where
  -- `_summarize_result`
  unfoldable pub summarize_result : ToolResult → ToolResult
  summarize_result result = record result {
    content_json =
        p.summary_json result.content_sha256 result.deterministic_summary result.error_class;
    content_mode = summary;
  }

  -- `_messages`
  unfoldable pub messages : ContextRequest → RunProfile → List ContextDatum → List ChatMessage
  messages request profile evidence =
      record { role = system; content = (p.policy_for profile.key).0 }
      ∷ record { role = system; content = (p.policy_for profile.key).1 }
      ∷ record {
        role = user;
        content =
            p.records_json (request.current_input ∷ request.confirmed_facts ++ evidence)
              request.latest_error;
      }
      ∷ []

  module _ (request : ContextRequest) (profile : RunProfile) (inference : InferenceConfig) where
    abbrev pub assembled :
        List ConversationGroup → List ContextDatum → Hashes → List ToolDefinition → ModelRequest
    assembled history evidence hashes tools = record {
      run_scope = request.run_scope;
      attempt_id = request.attempt_id;
      sequence = request.sequence;
      inference = inference;
      messages = messages request profile evidence;
      history = history;
      tools = tools;
      timeout_seconds = p.timeout_seconds;
      capability_revision = profile.capability_revision;
      provider_user_id = p.provider_user_id;
      hashes = hashes;
    }

    -- `_model_request`
    unfoldable pub model_request :
        List ConversationGroup → List ContextDatum → String → Result RunError ModelRequest
    model_request history evidence config_hash =
        p.tools_for_step profile.key request.step >>= λ tools.
        ok (assembled history evidence (unhashed config_hash) tools)

    -- `_estimate`
    unfoldable pub estimate : ModelRequest → Result RunError ℕ
    estimate candidate = p.estimate candidate >>= λ value.
        raise_if (not (value.estimator_revision == profile.estimator_revision)) revision_mismatch
        >> ok value.input_tokens

    -- `candidate = self._model_request(...)` and `after = self._estimate(candidate, profile)`
    unfoldable pub weigh : String → List ConversationGroup → List ContextDatum → Result RunError ℕ
    weigh config_hash history evidence = model_request history evidence config_hash >>= estimate

    module _ (config_hash : String) (evidence : List ContextDatum) where
      abbrev pub is_over : ℕ → Bool
      is_over after = ltb profile.input_token_limit after

      -- The loop that removes the oldest group.
      unfoldable pub drop_groups : List ConversationGroup → ℕ → Result RunError Trimmed
      drop_groups [] after = ok (record { history = []; digests = []; after = after })
      drop_groups (group ∷ groups) after =
          if is_over after && ltb profile.minimum_recent_groups (length (group ∷ groups))
          then weigh config_hash groups evidence >>= (λ lighter.
            drop_groups groups lighter >>= λ rest.
            ok (record rest { digests = p.group_digest group ∷ rest.digests }))
          else ok (record { history = group ∷ groups; digests = []; after = after })

      -- The loop over the results of one group; the groups before and after it, and the results
      -- that it has passed, are arguments.
      unfoldable pub compress_results :
          List ConversationGroup
          → ToolExchangeGroup
          → List ConversationGroup
          → List ToolResult
          → List ToolResult
          → ℕ
          → Result RunError Compressed
      compress_results before group behind passed [] after =
          ok (record { group = with_results group passed; digests = []; after = after })
      compress_results before group behind passed (result ∷ results) after =
          if not (is_over after)
          then ok (record {
            group = with_results group (passed ++ (result ∷ results));
            digests = [];
            after = after;
          })
          else if not (is_raw result)
          then compress_results before group behind (passed ++ (result ∷ [])) results after
          else weigh config_hash
              (before
                ++ (tool_exchange
                      (with_results group (passed ++ (summarize_result result ∷ results)))
                    ∷ behind))
              evidence
            >>= λ lighter.
                compress_results before group behind (passed ++ (summarize_result result ∷ []))
                  results lighter
                >>= λ rest. ok (record rest { digests = result.content_sha256 ∷ rest.digests })

      -- The loop over the groups.
      unfoldable pub compress_groups :
          List ConversationGroup → List ConversationGroup → ℕ → Result RunError Trimmed
      compress_groups before [] after =
          ok (record { history = before; digests = []; after = after })
      compress_groups before (assistant ref ∷ groups) after =
          if not (is_over after)
          then ok
              (record { history = before ++ (assistant ref ∷ groups); digests = []; after = after })
          else compress_groups (before ++ (assistant ref ∷ [])) groups after
      compress_groups before (tool_exchange group ∷ groups) after =
          if not (is_over after)
          then ok (record {
            history = before ++ (tool_exchange group ∷ groups);
            digests = [];
            after = after;
          })
          else compress_results before group groups [] group.tool_results after >>= λ done.
              compress_groups (before ++ (tool_exchange done.group ∷ [])) groups done.after
              >>= λ rest. ok (record rest { digests = done.digests ++ rest.digests })
