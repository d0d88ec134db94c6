-- ===== src/Context/Promises.antt =====
-- What `ContextBuilder.build` promises its callers (src/commerce_agent/context_builder/builder.py).
use text.Mathlib.TextEquality.{eq_iff}
use commerce_analyst_agent.Prelude.{
  ℕ, suc, String, ◌==◌, ◌+◌, ◌≤◌, ◌≡◌, refl, sym, ◌∙◌, ap, Bool, true, false, not, ◌&&◌, ◌⊎◌,
  Option, none, some, List, [], ◌∷◌, ◌++◌, map, any, length, arith, if◌then◌else◌, beq_refl,
  string_eq,
}
use commerce_analyst_agent.Prelude.Outcome.{ok}
use commerce_analyst_agent.Model.{ConversationGroup, Hashes, same_hashes}
use commerce_analyst_agent.Context.{
  ContextDatum, ContextRequest, PromptBundle, RunProfile, validate_embedded_request,
}
use commerce_analyst_agent.Context.Checks.{
  BuilderPorts, kind_value, namespace_value, validate_request,
}
use commerce_analyst_agent.Context.Trimming.{
  estimate, removed_evidence, retained_evidence, same_identity,
}
use commerce_analyst_agent.Context.Builder.{build}
use commerce_analyst_agent.Context.Dropping.{drop_groups-IsSuffix}
use commerce_analyst_agent.Context.Compressing.{AreKept}
use commerce_analyst_agent.Context.Keeping.{compress_groups-AreCompressed}
use commerce_analyst_agent.Context.Assembly.{build-IsBuilt}

-- The last datum with the identity of `d`.
unfoldable pub last_same : ContextDatum → List ContextDatum → Option ContextDatum
last_same d [] = none
last_same d (x ∷ xs) = elim (last_same d xs) [
  | some y ↦ some y
  | none ↦ if same_identity d x then some x else none
]

-- No two data have one identity.
unfoldable pub has_no_repeats : List ContextDatum → Bool
has_no_repeats [] = true
has_no_repeats (x ∷ xs) = not (any (same_identity x) xs) && has_no_repeats xs

same_identity_trans :
    (x y z : ContextDatum)
    → same_identity x y ≡ true
    → same_identity y z ≡ true
    → same_identity x z ≡ true
unfolding same_identity
same_identity_trans x y z h k = ground (
  arith,
  eq_iff (kind_value x.kind) (kind_value y.kind),
  eq_iff (kind_value y.kind) (kind_value z.kind),
  eq_iff (kind_value x.kind) (kind_value z.kind),
  eq_iff (namespace_value x.namespace) (namespace_value y.namespace),
  eq_iff (namespace_value y.namespace) (namespace_value z.namespace),
  eq_iff (namespace_value x.namespace) (namespace_value z.namespace),
  eq_iff x.source_ref y.source_ref,
  eq_iff y.source_ref z.source_ref,
  eq_iff x.source_ref z.source_ref,
)

any-same_identity :
    (d x : ContextDatum) (xs : List ContextDatum)
    → same_identity d x ≡ true
    → any (same_identity x) xs ≡ true
    → any (same_identity d) xs ≡ true
any-same_identity d x [] h k = ground arith
any-same_identity d x (y ∷ ys) h k =
    ground (arith, same_identity_trans d x y h, any-same_identity d x ys h)

last_same-none :
    (d : ContextDatum) (xs : List ContextDatum)
    → last_same d xs ≡ none
    → any (same_identity d) xs ≡ false
unfolding last_same
last_same-none d [] h = ground arith
last_same-none d (x ∷ xs) h = ground (arith, last_same-none d xs)

last_same-retained_evidence :
    (d : ContextDatum) (xs : List ContextDatum)
    → last_same d (retained_evidence xs) ≡ last_same d xs
unfolding last_same retained_evidence
last_same-retained_evidence d [] = refl
last_same-retained_evidence d (x ∷ xs) =
    ground (arith, last_same-retained_evidence d xs, last_same-none d xs, any-same_identity d x xs)

any-retained_evidence :
    (d : ContextDatum) (xs : List ContextDatum)
    → any (same_identity d) xs ≡ false
    → any (same_identity d) (retained_evidence xs) ≡ false
unfolding retained_evidence
any-retained_evidence d [] h = ground arith
any-retained_evidence d (x ∷ xs) h = ground (arith, any-retained_evidence d xs)

has_no_repeats-retained_evidence :
    (xs : List ContextDatum) → has_no_repeats (retained_evidence xs) ≡ true
unfolding retained_evidence has_no_repeats
has_no_repeats-retained_evidence [] = refl
has_no_repeats-retained_evidence (x ∷ xs) =
    ground (arith, has_no_repeats-retained_evidence xs, any-retained_evidence x xs)

length-retained_evidence :
    (xs : List ContextDatum)
    → length (retained_evidence xs) + length (removed_evidence xs) ≡ length xs
unfolding retained_evidence removed_evidence
length-retained_evidence [] = omega arith
length-retained_evidence (x ∷ xs) = ground (arith, length-retained_evidence xs)

-- How often a text occurs.
abbrev pub occurrences : String → List String → ℕ
occurrences name [] = 0
occurrences name (x ∷ xs) = let rest = occurrences name xs in if x == name then suc rest else rest

abbrev pub digests : List ContextDatum → List String
digests xs = map (λ d. d.digest) xs

occurrences-digests :
    (name : String) (xs : List ContextDatum)
    → occurrences name (digests (retained_evidence xs)) + occurrences name (removed_evidence xs)
      ≡ occurrences name (digests xs)
unfolding retained_evidence removed_evidence
occurrences-digests name [] = omega arith
occurrences-digests name (x ∷ xs) = ground (arith, occurrences-digests name xs)

-- Of the evidence with one identity the last datum stays and no other, and every datum that does
-- not stay is named by its digest: the digests of the evidence are those of what stays and the
-- names, each as often.
pub retained_evidence_lem :
    (xs : List ContextDatum)
    → ((d : ContextDatum) → last_same d (retained_evidence xs) ≡ last_same d xs)
      × (has_no_repeats (retained_evidence xs) ≡ true)
      × (length (retained_evidence xs) + length (removed_evidence xs) ≡ length xs)
      × ((name : String)
          → occurrences name (digests (retained_evidence xs))
              + occurrences name (removed_evidence xs)
            ≡ occurrences name (digests xs))
retained_evidence_lem xs = (
  λ d. last_same-retained_evidence d xs,
  has_no_repeats-retained_evidence xs,
  length-retained_evidence xs,
  λ name. occurrences-digests name xs,
)

same_hashes_refl : (h : Hashes) → same_hashes h h ≡ true
unfolding same_hashes
same_hashes_refl h = ground (
  arith,
  beq_refl h.prompt_policy_hash,
  beq_refl h.rendered_prompt_hash,
  beq_refl h.tool_hash,
  beq_refl h.context_hash,
  beq_refl h.config_hash,
)

module _ (p : BuilderPorts) (request : ContextRequest) (bundle : PromptBundle) where
  -- A bundle for the request, whose estimate is the estimator's and within the profile's limit.
  pub record IsWithinBudget : Type 0 where
    pub profile : RunProfile
    pub validated : validate_request p request ≡ ok profile
    pub fits : bundle.trimming.estimated_after ≤ profile.input_token_limit
    pub estimated :
        estimate p request profile bundle.model_request.inference bundle.model_request
        ≡ ok bundle.trimming.estimated_after
    pub valid : validate_embedded_request bundle ≡ true
    pub scope : bundle.model_request.run_scope ≡ request.run_scope
    pub attempt : bundle.model_request.attempt_id ≡ request.attempt_id
    pub sequence : bundle.model_request.sequence ≡ request.sequence
    pub config : bundle.hashes.config_hash ≡ request.run_scope.config_hash

  -- A bundle that is built is for the request's scope, attempt, sequence number and configuration,
  -- passes its validator, and its model request is estimated at no more than the token limit of the
  -- registered profile.
  pub build-IsWithinBudget : build p request ≡ ok bundle → IsWithinBudget
  unfolding validate_embedded_request estimate
  build-IsWithinBudget h =
      let b = build-IsBuilt p request bundle h in
      let same = b.requested in
      let own_hashes : bundle.model_request.hashes ≡ bundle.hashes = ap (λ r. r.hashes) same in
      let after : bundle.trimming.estimated_after ≡ b.left.2 =
        ap (λ t. t.estimated_after) b.summarized in
      record {
        profile = b.profile;
        validated = b.validated;
        fits = rw after b.fits;
        estimated = b.estimated;
        valid = rw own_hashes (ground (arith, same_hashes_refl bundle.hashes, b.counted));
        scope = ap (λ r. r.run_scope) same;
        attempt = ap (λ r. r.attempt_id) same;
        sequence = ap (λ r. r.sequence) same;
        config = b.hashed ∙ sym b.same_config;
      }

  -- The history of a bundle is the end of the request's.
  pub record IsRecent : Type 0 where
    pub profile : RunProfile
    pub dropped : List ConversationGroup
    pub recent : List ConversationGroup
    pub validated : validate_request p request ≡ ok profile
    pub split : request.history ≡ dropped ++ recent
    pub enough : (dropped ≡ []) ⊎ (profile.minimum_recent_groups ≤ length recent)
    pub named : bundle.trimming.removed_group_digests ≡ map p.group_digest dropped
    pub kept : AreKept p recent bundle.model_request.history

  -- The history of a bundle is the end of the request's history, whose groups keep their turns and
  -- calls and have some raw results replaced by their summaries; the groups before it are named by
  -- their digests, and there are some only where the minimum of recent groups is kept.
  pub build-IsRecent : build p request ≡ ok bundle → IsRecent
  build-IsRecent h =
      let b = build-IsBuilt p request bundle h in
      let suffix =
        drop_groups-IsSuffix p request b.profile b.inference b.config_hash request.evidence
          request.history b.before b.dropped b.weighed b.drops in
      let short =
        compress_groups-AreCompressed p request b.profile b.inference b.config_hash request.evidence
          [] b.dropped.history b.dropped.after b.compressed suffix.weighed b.compresses in
      record {
        profile = b.profile;
        dropped = suffix.dropped;
        recent = b.dropped.history;
        validated = b.validated;
        split = suffix.split;
        enough = suffix.recent;
        named = ap (λ t. t.removed_group_digests) b.summarized ∙ suffix.named;
        kept = rw (ap (λ r. r.history) b.requested, short.joined) short.shortened;
      }
