-- ===== src/Tests/Assembling.antt =====
-- The theorems on context assembly, applied.
use commerce_analyst_agent.Prelude.{
  ℕ, ◌+◌, ◌*◌, ◌≡◌, refl, String, true, false, none, List, [], ◌∷◌, nat_eq, length,
}
use commerce_analyst_agent.Prelude.Outcome.{ok}
use commerce_analyst_agent.Turns.{ProviderTurnRef}
use commerce_analyst_agent.Model.{
  ContentMode, ConversationGroup, Hashes, Mode, ResultStatus, RunScope, ToolCall, ToolResult, Track,
  non_thinking, system, tool_exchange, user, validate_error_class, is_closed,
  validate_closed_exchange, names_match,
}
use commerce_analyst_agent.Context.{
  ContextDatum, ContextRequest, DataNamespace, DatumKind, PromptBundle, PromptStep, RunProfile,
  RunProfileKey,
}
use commerce_analyst_agent.Context.Checks.{
  BuilderPorts, validate_request, has_expected_scope, check_datum, check_history, check_group,
  is_valid_group, sorted_set, insert_new, rule_of,
}
use commerce_analyst_agent.Context.Trimming.{
  removed_evidence, retained_evidence, weigh, compress_groups, compress_results, drop_groups,
  estimate, messages, model_request, same_identity, summarize_result,
}
use commerce_analyst_agent.Context.Builder.{build, build_with, trim, finish, seal}
use commerce_analyst_agent.Context.Promises.{
  IsRecent, IsWithinBudget, build-IsRecent, build-IsWithinBudget, digests, has_no_repeats,
  occurrences, last_same, retained_evidence_lem,
}

abbrev pub scope : RunScope
scope = record {
  run_id = 1;
  track = Track.retail;
  mode = Mode.retail;
  subject_id = "shop";
  experiment_id = "pilot";
  config_hash = "config";
}

abbrev pub datum : String → ContextDatum
datum source_ref = record {
  kind = DatumKind.knowledge;
  namespace = DataNamespace.retail_knowledge;
  source_ref = source_ref;
  revision = none;
  content = "text";
  digest = "digest";
}

abbrev pub profile : RunProfile
profile = record {
  key = RunProfileKey.retail;
  revision = "r1";
  prompt_policy_revision = "retail-policy-v2";
  tool_catalog_revision = "t1";
  allowed_namespaces = DataNamespace.retail_knowledge ∷ [];
  inference_rules =
      record { step = PromptStep.retail_decide; inference = non_thinking "0" 4096; tool_names = [] }
      ∷ [];
  input_token_limit = 20;
  tool_result_max_bytes = 65536;
  minimum_recent_groups = 1;
  capability_revision = "c1";
  estimator_revision = "e1";
  canonicalization_revision = "j1";
}

-- Ten tokens a group.
abbrev pub builder : BuilderPorts
builder = record {
  registered = λ key. ok profile;
  policy_for = λ key. ("common", "retail");
  tools_for_step = λ key step. ok [];
  estimator_revision = "e1";
  estimate = λ request.
      ok (record { input_tokens = 10 * length request.history; estimator_revision = "e1" });
  requested_model = "m";
  timeout_seconds = 60;
  provider_user_id = "u";
  sha256_hex = λ text. "digest";
  is_sensitive = λ text. false;
  profile_json = λ value. "{}";
  records_json = λ records error. "[]";
  summary_json = λ digest text error. "{}";
  config_hash = λ value inference model. "config";
  prompt_policy_hash = λ common own. "policy";
  rendered_prompt_hash = λ messages. "prompt";
  tool_hash = λ value tools. "tools";
  context_hash = λ records history trimming error. "context";
  group_digest = λ group. "group";
  scope_digest = λ value. "scope";
}

abbrev pub turn_ref : ℕ → List String → ProviderTurnRef
turn_ref sequence ids = record {
  turn_id = sequence;
  scope_digest = "scope";
  attempt_id = 7;
  sequence = sequence;
  payload_sha256 = "payload";
  expected_tool_call_ids = ids;
  token_weight = 1;
  expires_at = 100;
}

abbrev pub call : ToolCall
call = record { call_id = "call"; name = "resolve_business_value"; arguments_json = "{}" }

abbrev pub result : ToolResult
result = record {
  call_id = "call";
  name = "resolve_business_value";
  status = ResultStatus.success;
  content_json = "{}";
  deterministic_summary = "done";
  content_sha256 = "result";
  source_refs = [];
  error_class = none;
  content_mode = ContentMode.raw;
}

abbrev exchanged : ℕ → ConversationGroup
exchanged sequence = tool_exchange (record {
  provider_turn_ref = turn_ref sequence ("call" ∷ []);
  tool_calls = call ∷ [];
  tool_results = result ∷ [];
})

-- Three groups, of which the limit leaves two.
abbrev long_request : ContextRequest
long_request = record {
  run_scope = scope;
  attempt_id = 7;
  sequence = 3;
  profile = profile;
  step = PromptStep.retail_decide;
  current_input = datum "input";
  confirmed_facts = [];
  evidence = datum "a" ∷ datum "a" ∷ [];
  latest_error = none;
  history = exchanged 0 ∷ exchanged 1 ∷ exchanged 2 ∷ [];
}

abbrev pub hashes_of_trimmed : Hashes
hashes_of_trimmed = record {
  prompt_policy_hash = "policy";
  rendered_prompt_hash = "prompt";
  tool_hash = "tools";
  context_hash = "context";
  config_hash = "config";
}

abbrev trimmed : PromptBundle
trimmed = record {
  model_request = record {
    run_scope = scope;
    attempt_id = 7;
    sequence = 3;
    inference = non_thinking "0" 4096;
    messages =
        record { role = system; content = "common" }
        ∷ record { role = system; content = "retail" }
        ∷ record { role = user; content = "[]" }
        ∷ [];
    history = exchanged 1 ∷ exchanged 2 ∷ [];
    tools = [];
    timeout_seconds = 60;
    capability_revision = "c1";
    provider_user_id = "u";
    hashes = hashes_of_trimmed;
  };
  profile = RunProfileKey.retail;
  hashes = hashes_of_trimmed;
  estimated_input_tokens = 20;
  trimming = record {
    original_groups = 3;
    retained_groups = 2;
    removed_group_digests = "group" ∷ [];
    compressed_result_digests = [];
    removed_evidence_digests = [];
    estimated_before = 30;
    estimated_after = 20;
  };
}

long_request-built : build builder long_request ≡ ok trimmed
unfolding build build_with trim finish seal validate_request has_expected_scope check_datum
    check_history check_group is_valid_group sorted_set insert_new rule_of validate_error_class
    is_closed validate_closed_exchange names_match weigh compress_groups compress_results
    drop_groups estimate messages model_request same_identity summarize_result removed_evidence
    retained_evidence
long_request-built = refl

build-IsWithinBudget_example : IsWithinBudget builder long_request trimmed
build-IsWithinBudget_example = build-IsWithinBudget builder long_request trimmed long_request-built

build-IsRecent_example : IsRecent builder long_request trimmed
build-IsRecent_example = build-IsRecent builder long_request trimmed long_request-built

abbrev repeated : List ContextDatum
repeated = datum "a" ∷ datum "b" ∷ datum "a" ∷ []

retained_evidence_lem_example :
    ((d : ContextDatum) → last_same d (retained_evidence repeated) ≡ last_same d repeated)
    × (has_no_repeats (retained_evidence repeated) ≡ true)
    × (length (retained_evidence repeated) + length (removed_evidence repeated) ≡ length repeated)
    × ((name : String)
        → occurrences name (digests (retained_evidence repeated))
            + occurrences name (removed_evidence repeated)
          ≡ occurrences name (digests repeated))
retained_evidence_lem_example = retained_evidence_lem repeated
