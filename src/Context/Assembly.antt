-- ===== src/Context/Assembly.antt =====
-- What `ContextBuilder.build` returns (src/commerce_agent/context_builder/builder.py).
use commerce_analyst_agent.Prelude.{
  ℕ, ◌≤◌, ◌≡◌, String, inl, inr, List, [], arith, Bool-cases, Option-cases, ◌==◌, string_eq,
}
use commerce_analyst_agent.Prelude.Outcome.{ok, Result-cases}
use commerce_analyst_agent.Model.{ConversationGroup, InferenceConfig, ModelRequest, ToolDefinition}
use commerce_analyst_agent.Context.{
  ContextDatum, ContextRequest, PromptBundle, RunProfile, TrimmingSummary,
}
use commerce_analyst_agent.Context.Checks.{BuilderPorts, rule_of, validate_request}
use commerce_analyst_agent.Context.Trimming.{
  Trimmed, assembled, compress_groups, drop_groups, estimate, weigh,
}
use commerce_analyst_agent.Context.Builder.{
  build, build_with, deduplicated, bundle_of, final_request, finish, seal, summary_of, trim,
}

module _ (p : BuilderPorts) (request : ContextRequest) (bundle : PromptBundle) where
  -- The values that `build` computes on its way to a bundle.
  pub record IsBuilt : Type 0 where
    pub profile : RunProfile
    pub inference : InferenceConfig
    pub config_hash : String
    pub before : ℕ
    pub dropped : Trimmed
    pub compressed : Trimmed
    pub left : List ContextDatum × List String × ℕ
    pub tools : List ToolDefinition
    pub validated : validate_request p request ≡ ok profile
    pub same_config : request.run_scope.config_hash ≡ config_hash
    pub weighed :
        weigh p request profile inference config_hash request.history request.evidence ≡ ok before
    pub drops :
        drop_groups p request profile inference config_hash request.evidence request.history before
        ≡ ok dropped
    pub compresses :
        compress_groups p request profile inference config_hash request.evidence [] dropped.history
          dropped.after
        ≡ ok compressed
    pub deduplicates :
        deduplicated p request profile inference config_hash compressed.history request.evidence
          compressed.after
        ≡ ok left
    pub fits : left.2 ≤ profile.input_token_limit
    pub estimated :
        estimate p request profile inference bundle.model_request
        ≡ ok bundle.trimming.estimated_after
    pub requested :
        bundle.model_request
        ≡ assembled p request profile inference compressed.history left.0 bundle.hashes tools
    pub counted : bundle.estimated_input_tokens ≡ bundle.trimming.estimated_after
    pub hashed : bundle.hashes.config_hash ≡ config_hash
    pub summarized :
        bundle.trimming
        ≡ summary_of p request profile inference before dropped compressed left.1 left.2

  module _ (profile : RunProfile) (inference : InferenceConfig) where
    seal_ok :
        (hashed : ModelRequest) (trimming : TrimmingSummary)
        → seal p request profile inference hashed trimming ≡ ok bundle
        → (estimate p request profile inference hashed ≡ ok trimming.estimated_after)
          × (bundle ≡ bundle_of p request profile inference hashed trimming)
    unfolding seal
    seal_ok hashed trimming h = elim (Result-cases (estimate p request profile inference hashed)) [
      | inr (e, failed) ↦ absurd (ground arith)
      | inl (again, weighed) ↦ (ground arith, ground arith)
    ]

    finish_ok :
        (history : List ConversationGroup) (evidence : List ContextDatum) (config_hash : String)
        (trimming : TrimmingSummary)
        → finish p request profile inference history evidence config_hash trimming ≡ ok bundle
        → (tools : List ToolDefinition) × (seal p request profile inference
              (final_request p request profile inference history evidence config_hash trimming
                tools)
              trimming
            ≡ ok bundle)
    unfolding finish
    finish_ok history evidence config_hash trimming h =
        elim (Result-cases (p.tools_for_step profile.key request.step)) [
          | inr (e, failed) ↦ absurd (ground arith)
          | inl (tools, given) ↦ (tools, ground arith)
        ]

    trim_ok :
        (config_hash : String)
        → trim p request profile inference config_hash ≡ ok bundle
        → (before : ℕ) × (dropped : Trimmed) × (compressed : Trimmed) × (left : List ContextDatum
            × List String
            × ℕ)
          × (weigh p request profile inference config_hash request.history request.evidence
              ≡ ok before)
          × (drop_groups p request profile inference config_hash request.evidence request.history
                before
              ≡ ok dropped)
          × (compress_groups p request profile inference config_hash request.evidence []
                dropped.history dropped.after
              ≡ ok compressed)
          × (deduplicated p request profile inference config_hash compressed.history
                request.evidence compressed.after
              ≡ ok left)
          × (left.2 ≤ profile.input_token_limit)
          × (finish p request profile inference compressed.history left.0 config_hash
                (summary_of p request profile inference before dropped compressed left.1 left.2)
              ≡ ok bundle)
    unfolding trim
    trim_ok config_hash h =
        elim (Result-cases
          (weigh p request profile inference config_hash request.history request.evidence)) [
            | inr (e, failed) ↦ absurd (ground arith)
            | inl (before, weighed) ↦
                elim (Result-cases (
                  drop_groups p request profile inference config_hash request.evidence
                    request.history before)) [
                      | inr (e, failed) ↦ absurd (ground arith)
                      | inl (dropped, drops) ↦
                          elim (Result-cases (
                            compress_groups p request profile inference config_hash request.evidence
                              [] dropped.history dropped.after)) [
                                | inr (e, failed) ↦ absurd (ground arith)
                                | inl (compressed, compresses) ↦
                                    elim (Result-cases (
                                      deduplicated p request profile inference config_hash
                                        compressed.history request.evidence compressed.after)) [
                                          | inr (e, failed) ↦ absurd (ground arith)
                                          | inl (left, dedup) ↦ (
                                            before,
                                            dropped,
                                            compressed,
                                            left,
                                            weighed,
                                            drops,
                                            compresses,
                                            dedup,
                                            ground arith,
                                            ground arith,
                                          )
                                        ]
                              ]
                    ]
          ]

    trim-IsBuilt :
        (config_hash : String)
        → validate_request p request ≡ ok profile
        → request.run_scope.config_hash ≡ config_hash
        → trim p request profile inference config_hash ≡ ok bundle
        → IsBuilt
    trim-IsBuilt config_hash validated config h =
        let (before, dropped, compressed, left, weighed, drops, compresses, dedup, fits, finished) =
          trim_ok config_hash h in
        let trimming =
          summary_of p request profile inference before dropped compressed left.1 left.2 in
        let (tools, sealed) = finish_ok compressed.history left.0 config_hash trimming finished in
        let hashed : ModelRequest =
          final_request p request profile inference compressed.history left.0 config_hash trimming
            tools in
        let (again, made) = seal_ok hashed trimming sealed in
        record {
          profile = profile;
          inference = inference;
          config_hash = config_hash;
          before = before;
          dropped = dropped;
          compressed = compressed;
          left = left;
          tools = tools;
          validated = validated;
          same_config = config;
          weighed = weighed;
          drops = drops;
          compresses = compresses;
          deduplicates = dedup;
          fits = fits;
          estimated = rw made again;
          requested = rw made;
          counted = rw made;
          hashed = rw made;
          summarized = rw made;
        }

  build_with-IsBuilt :
      (profile : RunProfile)
      → validate_request p request ≡ ok profile
      → build_with p request profile ≡ ok bundle
      → IsBuilt
  unfolding build_with
  build_with-IsBuilt profile validated h =
      elim (Option-cases (rule_of request.step profile.inference_rules)) [
        | inl missing ↦ absurd (ground arith)
        | inr (rule, found) ↦
            let config_hash : String = p.config_hash profile rule.inference p.requested_model in
            elim (Bool-cases (request.run_scope.config_hash == config_hash)) [
              | inr differs ↦ absurd (ground arith)
              | inl same ↦
                  trim-IsBuilt profile rule.inference config_hash validated
                    ((string_eq.test_iff request.run_scope.config_hash config_hash).0 same)
                    (ground arith)
            ]
      ]

  pub build-IsBuilt : build p request ≡ ok bundle → IsBuilt
  unfolding build
  build-IsBuilt h = elim (Result-cases (validate_request p request)) [
    | inr (e, failed) ↦ absurd (ground arith)
    | inl (profile, validated) ↦ build_with-IsBuilt profile validated (ground arith)
  ]
