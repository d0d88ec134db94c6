-- ===== src/Context/Dropping.antt =====
-- What the loop that removes old groups keeps (src/commerce_agent/context_builder/builder.py).
use mathlib.Core.Path.{subst}
use commerce_analyst_agent.Prelude.{
  ◌&&◌, ℕ, ◌≤◌, ◌≡◌, refl, sym, ap, String, ◌⊎◌, inl, inr, List, [], ◌∷◌, ◌++◌, map, length, ltb,
  arith, Bool-cases,
}
use commerce_analyst_agent.Prelude.Outcome.{Result, ok, Result-cases}
use commerce_analyst_agent.RunErrors.{RunError}
use commerce_analyst_agent.Model.{ConversationGroup, InferenceConfig}
use commerce_analyst_agent.Context.{ContextDatum, ContextRequest, RunProfile}
use commerce_analyst_agent.Context.Checks.{BuilderPorts}
use commerce_analyst_agent.Context.Trimming.{Trimmed, drop_groups, is_over, weigh}

module _ (p : BuilderPorts) (request : ContextRequest) (profile : RunProfile)
    (inference : InferenceConfig) (config_hash : String) (evidence : List ContextDatum) where
  -- What is left after the oldest groups are removed.
  pub record IsSuffix (history : List ConversationGroup) (t : Trimmed) : Type 0 where
    pub dropped : List ConversationGroup
    pub split : history ≡ dropped ++ t.history
    pub named : t.digests ≡ map p.group_digest dropped
    pub recent : (dropped ≡ []) ⊎ (profile.minimum_recent_groups ≤ length t.history)
    pub weighed : weigh p request profile inference config_hash t.history evidence ≡ ok t.after

  pub weigh_here : List ConversationGroup → Result RunError ℕ
  weigh_here groups = weigh p request profile inference config_hash groups evidence

  drop_here : List ConversationGroup → ℕ → Result RunError Trimmed
  drop_here = drop_groups p request profile inference config_hash evidence

  removed : ConversationGroup → Trimmed → Trimmed
  removed group t = record t { digests = p.group_digest group ∷ t.digests }

  removed-IsSuffix :
      (group : ConversationGroup) (groups : List ConversationGroup) (t : Trimmed)
      → profile.minimum_recent_groups ≤ length groups
      → IsSuffix groups t
      → IsSuffix (group ∷ groups) (removed group t)
  unfolding removed
  removed-IsSuffix group groups t many h = record {
    dropped = group ∷ h.dropped;
    split = ap (λ rest. group ∷ rest) h.split;
    named = ap (λ rest. p.group_digest group ∷ rest) h.named;
    recent = elim h.recent [
      | inl none_left ↦
          let same : groups ≡ t.history = rw none_left at h.split in inr (rw (← same) many)
      | inr enough ↦ inr enough
    ];
    weighed = h.weighed;
  }

  -- The loop stops at once, or removes a group and goes on.
  drop_cases :
      (group : ConversationGroup) (groups : List ConversationGroup) (after : ℕ) (t : Trimmed)
      → drop_here (group ∷ groups) after ≡ ok t
      → (t ≡ record { history = group ∷ groups; digests = []; after = after })
        ⊎ ((lighter : ℕ) × (rest : Trimmed) × (profile.minimum_recent_groups ≤ length groups)
            × (weigh_here groups ≡ ok lighter)
            × (drop_here groups lighter ≡ ok rest)
            × (t ≡ removed group rest))
  unfolding drop_here drop_groups weigh_here removed
  drop_cases group groups after t h =
      elim (Bool-cases (
        is_over p request profile inference config_hash evidence after
        && ltb profile.minimum_recent_groups (length (group ∷ groups)))) [
          | inr stays ↦ inl (ground arith)
          | inl goes ↦
              elim (Result-cases (weigh p request profile inference config_hash groups evidence)) [
                | inr (e, failed) ↦ absurd (ground arith)
                | inl (lighter, weighed) ↦
                    elim (Result-cases (
                      drop_groups p request profile inference config_hash evidence groups
                        lighter)) [
                          | inr (e, failed) ↦ absurd (ground arith)
                          | inl (rest, left) ↦
                              inr (lighter, rest, ground arith, weighed, left, ground arith)
                        ]
              ]
        ]

  pub drop_groups-IsSuffix :
      (groups : List ConversationGroup) (after : ℕ) (t : Trimmed)
      → weigh p request profile inference config_hash groups evidence ≡ ok after
      → drop_groups p request profile inference config_hash evidence groups after ≡ ok t
      → IsSuffix groups t
  unfolding drop_groups drop_here weigh_here
  drop_groups-IsSuffix [] after t w h = record {
    dropped = [];
    split = ground arith;
    named = ground arith;
    recent = inl refl;
    weighed = ground arith;
  }
  drop_groups-IsSuffix (group ∷ groups) after t w h = elim (drop_cases group groups after t h) [
    | inl same ↦
        subst (IsSuffix (group ∷ groups)) (sym same)
          (record { dropped = []; split = refl; named = refl; recent = inl refl; weighed = w })
    | inr (lighter, rest, many, weighed, left, same) ↦
        subst (IsSuffix (group ∷ groups)) (sym same) (
          removed-IsSuffix group groups rest many
            (drop_groups-IsSuffix groups lighter rest weighed left))
  ]
