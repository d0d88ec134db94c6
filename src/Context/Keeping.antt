-- ===== src/Context/Keeping.antt =====
-- What the loop over the groups that summarizes tool results keeps (src/commerce_agent/context_builder/builder.py).
use mathlib.Core.Path.{subst}
use mathlib.Core.List.{append-nil, append_assoc}
use commerce_analyst_agent.Prelude.{
  ℕ, ◌≡◌, refl, sym, ap, String, ◌⊎◌, inl, inr, List, [], ◌∷◌, ◌++◌, arith, Bool-cases,
}
use commerce_analyst_agent.Prelude.Outcome.{ok, Result-cases}
use commerce_analyst_agent.Model.{
  ConversationGroup, InferenceConfig, ToolExchangeGroup, assistant, tool_exchange,
}
use commerce_analyst_agent.Context.{ContextDatum, ContextRequest, RunProfile}
use commerce_analyst_agent.Context.Checks.{BuilderPorts}
use commerce_analyst_agent.Context.Trimming.{
  Compressed, Trimmed, compress_groups, compress_results, is_over, weigh,
}
use commerce_analyst_agent.Context.Compressing.{
  AreKept, AreKept-refl, IsKept, compress_results-IsCompressed,
}

module _ (p : BuilderPorts) (request : ContextRequest) (profile : RunProfile)
    (inference : InferenceConfig) (config_hash : String) (evidence : List ContextDatum) where
  -- What the loop over groups returns: the passed groups, then the others kept.
  pub record AreCompressed (before groups : List ConversationGroup) (t : Trimmed) : Type 0 where
    pub groups_left : List ConversationGroup
    pub joined : t.history ≡ before ++ groups_left
    pub shortened : AreKept p groups groups_left
    pub weighed : weigh p request profile inference config_hash t.history evidence ≡ ok t.after

  -- The loop stops at an exchange, or compresses it and goes on.
  groups_cases :
      (before groups : List ConversationGroup) (group : ToolExchangeGroup) (after : ℕ) (t : Trimmed)
      → compress_groups p request profile inference config_hash evidence before
          (tool_exchange group ∷ groups)
          after
        ≡ ok t
      → (t ≡ record {
        history = before ++ (tool_exchange group ∷ groups);
        digests = [];
        after = after;
      })
        ⊎ ((c : Compressed) × (rest : Trimmed) × (compress_results p request profile inference
                config_hash evidence before group groups [] group.tool_results after
              ≡ ok c)
            × (compress_groups p request profile inference config_hash evidence
                  (before ++ (tool_exchange c.group ∷ []))
                  groups
                  c.after
                ≡ ok rest)
            × (t ≡ record rest { digests = c.digests ++ rest.digests }))
  unfolding compress_groups
  groups_cases before groups group after t h =
      elim (Bool-cases (is_over p request profile inference config_hash evidence after)) [
        | inr under ↦ inl (ground arith)
        | inl over ↦
            elim (Result-cases (
              compress_results p request profile inference config_hash evidence before group groups
                [] group.tool_results after)) [
                  | inr (e, failed) ↦ absurd (ground arith)
                  | inl (c, compressed) ↦
                      elim (Result-cases (
                        compress_groups p request profile inference config_hash evidence
                          (before ++ (tool_exchange c.group ∷ [])) groups c.after)) [
                            | inr (e, failed) ↦ absurd (ground arith)
                            | inl (rest, left) ↦ inr (c, rest, compressed, left, ground arith)
                          ]
                ]
      ]

  passed-AreCompressed :
      (before groups : List ConversationGroup) (group kept : ConversationGroup) (t : Trimmed)
      (digests : List String)
      → IsKept p group kept
      → AreCompressed (before ++ (kept ∷ [])) groups t
      → AreCompressed before (group ∷ groups) (record t { digests = digests })
  passed-AreCompressed before groups group kept t digests keep h = record {
    groups_left = kept ∷ h.groups_left;
    joined = rw (append_assoc before (kept ∷ []) h.groups_left) at h.joined;
    shortened = (keep, h.shortened);
    weighed = h.weighed;
  }

  stays-AreCompressed :
      (before groups : List ConversationGroup) (after : ℕ) (t : Trimmed)
      → weigh p request profile inference config_hash (before ++ groups) evidence ≡ ok after
      → t ≡ record { history = before ++ groups; digests = []; after = after }
      → AreCompressed before groups t
  stays-AreCompressed before groups after t w same =
      subst (AreCompressed before groups) (sym same) (record {
        groups_left = groups;
        joined = refl;
        shortened = AreKept-refl p groups;
        weighed = w;
      })

  pub compress_groups-AreCompressed :
      (before groups : List ConversationGroup) (after : ℕ) (t : Trimmed)
      → weigh p request profile inference config_hash (before ++ groups) evidence ≡ ok after
      → compress_groups p request profile inference config_hash evidence before groups after ≡ ok t
      → AreCompressed before groups t
  unfolding compress_groups
  compress_groups-AreCompressed before [] after t w h =
      let same : t ≡ record { history = before; digests = []; after = after } = ground arith in
      let all_passed = append-nil before in
      subst (AreCompressed before []) (sym same) (record {
        groups_left = [];
        joined = rw all_passed;
        shortened = tt;
        weighed = rw all_passed at w;
      })
  compress_groups-AreCompressed before (assistant ref ∷ groups) after t w h =
      elim (Bool-cases (is_over p request profile inference config_hash evidence after)) [
        | inr under ↦ stays-AreCompressed before (assistant ref ∷ groups) after t w (ground arith)
        | inl over ↦
            passed-AreCompressed before groups (assistant ref) (assistant ref) t t.digests refl (
              compress_groups-AreCompressed (before ++ (assistant ref ∷ [])) groups after t
                (rw (append_assoc before (assistant ref ∷ []) groups) w) (ground arith))
      ]
  compress_groups-AreCompressed before (tool_exchange group ∷ groups) after t w h =
      elim (groups_cases before groups group after t h) [
        | inl same ↦ stays-AreCompressed before (tool_exchange group ∷ groups) after t w same
        | inr (c, rest, compressed, left, same) ↦
            let inner =
              compress_results-IsCompressed p request profile inference config_hash evidence before
                group groups [] group.tool_results after c w compressed in
            subst (AreCompressed before (tool_exchange group ∷ groups)) (sym same) (
              passed-AreCompressed before groups (tool_exchange group) (tool_exchange c.group) rest
                (c.digests ++ rest.digests)
                (inner.results_left, ap tool_exchange inner.grouped, inner.shortened)
                (compress_groups-AreCompressed (before ++ (tool_exchange c.group ∷ [])) groups
                  c.after rest
                  (rw (append_assoc before (tool_exchange c.group ∷ []) groups) inner.weighed)
                  left))
      ]
