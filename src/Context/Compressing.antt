-- ===== src/Context/Compressing.antt =====
-- What the loops that summarize tool results keep (src/commerce_agent/context_builder/builder.py).
use mathlib.Core.Path.{subst}
use mathlib.Core.List.{append-nil, append_assoc}
use commerce_analyst_agent.Prelude.{
  ℕ, ◌≡◌, refl, sym, String, true, ◌⊎◌, inl, inr, List, [], ◌∷◌, ◌++◌, arith, Bool-cases,
}
use commerce_analyst_agent.Prelude.Outcome.{ok, Result-cases}
use commerce_analyst_agent.Model.{
  ConversationGroup, InferenceConfig, ToolExchangeGroup, ToolResult, assistant, tool_exchange,
}
use commerce_analyst_agent.Context.{ContextDatum, ContextRequest, RunProfile}
use commerce_analyst_agent.Context.Checks.{BuilderPorts}
use commerce_analyst_agent.Context.Trimming.{
  Compressed, compress_results, is_over, is_raw, summarize_result, weigh, with_results,
}

module _ (p : BuilderPorts) where
  -- A result is kept as it is, or a raw one as its summary.
  abbrev pub IsShortened : ToolResult → ToolResult → Type 0
  IsShortened result kept =
      (kept ≡ result) ⊎ ((is_raw result ≡ true) × (kept ≡ summarize_result p result))

  abbrev pub AreShortened : List ToolResult → List ToolResult → Type 0
  AreShortened [] [] = Unit {0}
  AreShortened (result ∷ results) (kept ∷ rest) =
      IsShortened result kept × AreShortened results rest
  AreShortened _ _ = ⊥

  pub AreShortened-refl : (results : List ToolResult) → AreShortened results results
  AreShortened-refl [] = tt
  AreShortened-refl (result ∷ results) = (inl refl, AreShortened-refl results)

  -- A group is kept with its turn and its calls, and with its results shortened.
  abbrev pub IsKept : ConversationGroup → ConversationGroup → Type 0
  IsKept (assistant ref) kept = kept ≡ assistant ref
  IsKept (tool_exchange group) kept =
      (results : List ToolResult) × (kept ≡ tool_exchange (with_results group results))
      × AreShortened group.tool_results results

  abbrev pub AreKept : List ConversationGroup → List ConversationGroup → Type 0
  AreKept [] [] = Unit {0}
  AreKept (group ∷ groups) (kept ∷ rest) = IsKept group kept × AreKept groups rest
  AreKept _ _ = ⊥

  pub AreKept-refl : (groups : List ConversationGroup) → AreKept groups groups
  AreKept-refl [] = tt
  AreKept-refl (assistant ref ∷ groups) = (refl, AreKept-refl groups)
  AreKept-refl (tool_exchange group ∷ groups) =
      ((group.tool_results, refl, AreShortened-refl group.tool_results), AreKept-refl groups)

module _ (p : BuilderPorts) (request : ContextRequest) (profile : RunProfile)
    (inference : InferenceConfig) (config_hash : String) (evidence : List ContextDatum) where
  -- What the loop over results returns: the passed results, then the others shortened.
  pub record IsCompressed (before : List ConversationGroup) (group : ToolExchangeGroup)
      (behind : List ConversationGroup) (passed results : List ToolResult) (c : Compressed)
      : Type 0 where
    pub results_left : List ToolResult
    pub grouped : c.group ≡ with_results group (passed ++ results_left)
    pub shortened : AreShortened p results results_left
    pub weighed :
        weigh p request profile inference config_hash
          (before ++ (tool_exchange c.group ∷ behind))
          evidence
        ≡ ok c.after

  regrouped : Compressed → List String → Compressed
  regrouped c digests = record c { digests = digests }

  regrouped-IsCompressed :
      (before : List ConversationGroup) (group : ToolExchangeGroup)
      (behind : List ConversationGroup) (passed results : List ToolResult) (c : Compressed)
      (digests : List String) (result kept : ToolResult)
      → IsShortened p result kept
      → IsCompressed before group behind (passed ++ (kept ∷ [])) results c
      → IsCompressed before group behind passed (result ∷ results) (regrouped c digests)
  unfolding regrouped
  regrouped-IsCompressed before group behind passed results c digests result kept short h = record {
    results_left = kept ∷ h.results_left;
    grouped = rw (append_assoc passed (kept ∷ []) h.results_left) at h.grouped;
    shortened = (short, h.shortened);
    weighed = h.weighed;
  }

  -- The loop ends, stops at a result, passes it or summarizes it.
  results_cases :
      (before : List ConversationGroup) (group : ToolExchangeGroup)
      (behind : List ConversationGroup) (passed results : List ToolResult) (result : ToolResult)
      (after : ℕ) (c : Compressed)
      → compress_results p request profile inference config_hash evidence before group behind passed
          (result ∷ results)
          after
        ≡ ok c
      → (c ≡ record {
        group = with_results group (passed ++ (result ∷ results));
        digests = [];
        after = after;
      })
        ⊎ ((compress_results p request profile inference config_hash evidence before group behind
                (passed ++ (result ∷ []))
                results
                after
              ≡ ok c)
            ⊎ ((lighter : ℕ) × (rest : Compressed) × (is_raw result ≡ true)
                × (weigh p request profile inference config_hash
                      (before
                        ++ (tool_exchange
                              (with_results group (passed ++ (summarize_result p result ∷ results)))
                            ∷ behind))
                      evidence
                    ≡ ok lighter)
                × (compress_results p request profile inference config_hash evidence before group
                      behind
                      (passed ++ (summarize_result p result ∷ []))
                      results
                      lighter
                    ≡ ok rest)
                × (c ≡ regrouped rest (result.content_sha256 ∷ rest.digests))))
  unfolding compress_results regrouped
  results_cases before group behind passed results result after c h =
      elim (Bool-cases (is_over p request profile inference config_hash evidence after)) [
        | inr under ↦ inl (ground arith)
        | inl over ↦ elim (Bool-cases (is_raw result)) [
          | inr done ↦ inr (inl (ground arith))
          | inl fresh ↦
              elim (Result-cases (
                weigh p request profile inference config_hash
                  (before
                    ++ (tool_exchange
                          (with_results group (passed ++ (summarize_result p result ∷ results)))
                        ∷ behind))
                  evidence)) [
                    | inr (e, failed) ↦ absurd (ground arith)
                    | inl (lighter, weighed) ↦
                        elim (Result-cases (
                          compress_results p request profile inference config_hash evidence before
                            group behind (passed ++ (summarize_result p result ∷ [])) results
                            lighter)) [
                              | inr (e, failed) ↦ absurd (ground arith)
                              | inl (rest, left) ↦
                                  inr (inr (lighter, rest, fresh, weighed, left, ground arith))
                            ]
                  ]
        ]
      ]

  pub compress_results-IsCompressed :
      (before : List ConversationGroup) (group : ToolExchangeGroup)
      (behind : List ConversationGroup) (passed results : List ToolResult) (after : ℕ)
      (c : Compressed)
      → weigh p request profile inference config_hash
          (before ++ (tool_exchange (with_results group (passed ++ results)) ∷ behind))
          evidence
        ≡ ok after
      → compress_results p request profile inference config_hash evidence before group behind passed
          results after
        ≡ ok c
      → IsCompressed before group behind passed results c
  unfolding compress_results regrouped
  compress_results-IsCompressed before group behind passed [] after c w h =
      let same : c ≡ record { group = with_results group passed; digests = []; after = after } =
        ground arith in
      let all_passed = append-nil passed in
      subst (IsCompressed before group behind passed []) (sym same) (record {
        results_left = [];
        grouped = rw all_passed;
        shortened = tt;
        weighed = rw all_passed at w;
      })
  compress_results-IsCompressed before group behind passed (result ∷ results) after c w h =
      elim (results_cases before group behind passed results result after c h) [
        | inl same ↦
            subst (IsCompressed before group behind passed (result ∷ results)) (sym same) (record {
              results_left = result ∷ results;
              grouped = refl;
              shortened = AreShortened-refl p (result ∷ results);
              weighed = w;
            })
        | inr (inl onward) ↦
            regrouped-IsCompressed before group behind passed results c c.digests result result
              (inl refl)
              (compress_results-IsCompressed before group behind (passed ++ (result ∷ [])) results
                after c (rw (append_assoc passed (result ∷ []) results) w) onward)
        | inr (inr (lighter, rest, fresh, weighed, onward, same)) ↦
            let kept = summarize_result p result in
            subst (IsCompressed before group behind passed (result ∷ results)) (sym same) (
              regrouped-IsCompressed before group behind passed results rest
                (result.content_sha256 ∷ rest.digests) result kept (inr (fresh, refl))
                (compress_results-IsCompressed before group behind (passed ++ (kept ∷ [])) results
                  lighter rest (rw (append_assoc passed (kept ∷ []) results) weighed) onward))
      ]
