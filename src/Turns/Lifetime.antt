-- ===== src/Turns/Lifetime.antt =====
-- What the store of private turns promises (src/commerce_agent/model/_turn_store.py).
use mathlib.Core.Path.{subst}
use text.Mathlib.TextEquality.{eq_iff}
use commerce_analyst_agent.Prelude.{
  option_eq, option_beq_iff, ◌+◌, ◌≤◌, ◌<◌, ◌≡◌, refl, sym, ◌∙◌, true, false, not, ◌&&◌, none, some,
  List, [], ◌∷◌, inl, inr, arith, nat_eq, string_eq, list_eq, Bool-cases, Option-cases, any,
  beq_refl, contains, list_beq_iff, ◌==◌, if◌then◌else◌,
}
use commerce_analyst_agent.Prelude.Dict.{
  any-get, get, get-put_cases, get-put_self, get-remove, put, values, remove,
}
use commerce_analyst_agent.Prelude.Outcome.{ok}
use commerce_analyst_agent.Operations.Contracts.{Instant, Uuid, hours}
use commerce_analyst_agent.Turns.{
  AttemptRef, PrivateProviderTurn, ProviderTurnRef, TurnPorts, TurnStore, delete_attempt, is_bound,
  is_expired, is_of, matching, payload_sha256, ref_of, remove_all, renewed, resolve, same_place,
  save,
}

is_bound-ref_of :
    (turn_id : Uuid) (turn : PrivateProviderTurn) → is_bound (ref_of turn_id turn) turn ≡ true
unfolding is_bound
is_bound-ref_of turn_id turn = ground (
  arith,
  beq_refl turn.scope_digest,
  beq_refl turn.payload_sha256,
  beq_refl turn.expected_tool_call_ids,
)

-- A saved turn is what its reference resolves to, with the time of its use, until it has been idle
-- for more than a day or its week is over.
pub resolve-save :
    (p : TurnPorts) (uuid4 : Uuid) (turn : PrivateProviderTurn) (now : Instant) (s : TurnStore)
    (ref : ProviderTurnRef)
    → (save p uuid4 turn s).0 ≡ ok ref
    → now < turn.absolute_expires_at
    → now ≤ turn.last_used_at + hours 24
    → (resolve ref now (save p uuid4 turn s).1).0 ≡ ok (renewed turn now)
unfolding save resolve is_expired
resolve-save p uuid4 turn now s ref h young busy =
    ground (arith, is_bound-ref_of uuid4 turn, get-put_self s uuid4 turn)

-- No two turns of one attempt have one sequence number, and each has the digest of its payload.
pub record IsSound (p : TurnPorts) (s : TurnStore) : Type 0 where
  pub distinct :
      (k j : Uuid) (t u : PrivateProviderTurn)
      → get s k ≡ some t
      → get s j ≡ some u
      → same_place t u ≡ true
      → k ≡ j
  pub genuine :
      (k : Uuid) (t : PrivateProviderTurn)
      → get s k ≡ some t
      → payload_sha256 p t ≡ some t.payload_sha256

same_place_sym : (t u : PrivateProviderTurn) → same_place t u ≡ true → same_place u t ≡ true
same_place_sym t u h =
    ground (arith, eq_iff t.scope_digest u.scope_digest, eq_iff u.scope_digest t.scope_digest)

-- Writing a turn whose place no other turn has.
put-IsSound :
    (p : TurnPorts) (s : TurnStore) (k : Uuid) (new : PrivateProviderTurn)
    → IsSound p s
    → payload_sha256 p new ≡ some new.payload_sha256
    → ((j : Uuid) (u : PrivateProviderTurn) → get s j ≡ some u → same_place new u ≡ true → k ≡ j)
    → IsSound p (put s k new)
put-IsSound p s k new sound digest alone = record {
  distinct = λ i j t u there here same. elim (get-put_cases s k new i) [
    | inl (e, f) ↦ elim (get-put_cases s k new j) [
      | inl (d, g) ↦ sym e ∙ d
      | inr (n, g) ↦ sym e ∙ alone j u (sym g ∙ here) (ground arith)
    ]
    | inr (m, f) ↦ elim (get-put_cases s k new j) [
      | inl (d, g) ↦
          let back : same_place new t ≡ true = same_place_sym t new (ground arith) in
          sym (alone i t (sym f ∙ there) back) ∙ d
      | inr (n, g) ↦ sound.distinct i j t u (sym f ∙ there) (sym g ∙ here) same
    ]
  ];
  genuine = λ i t there. elim (get-put_cases s k new i) [
    | inl (e, f) ↦
        let same : new ≡ t = ground arith in
        subst (λ x. payload_sha256 p x ≡ some (PrivateProviderTurn.payload_sha256 x)) same digest
    | inr (m, f) ↦ sound.genuine i t (sym f ∙ there)
  ];
}

save-IsSound :
    (p : TurnPorts) (uuid4 : Uuid) (turn : PrivateProviderTurn) (s : TurnStore)
    → IsSound p s
    → IsSound p (save p uuid4 turn s).1
unfolding save
save-IsSound p uuid4 turn s sound =
    elim (Bool-cases (payload_sha256 p turn == some turn.payload_sha256)) [
      | inr wrong ↦ rw wrong sound
      | inl right ↦ elim (Bool-cases (any (same_place turn) (values s))) [
        | inl taken ↦ subst (IsSound p) (ground arith) sound
        | inr free ↦ subst (IsSound p) (ground arith) (
            put-IsSound p s uuid4 turn sound
              ((option_beq_iff (payload_sha256 p turn) (some turn.payload_sha256)).0 right)
              (λ j u there same. absurd (cc (any-get (same_place turn) s j u free there, same))))
      ]
    ]

resolve-IsSound :
    (p : TurnPorts) (ref : ProviderTurnRef) (now : Instant) (s : TurnStore)
    → IsSound p s
    → IsSound p (resolve ref now s).1
unfolding resolve
resolve-IsSound p ref now s sound = elim (Option-cases (get s ref.turn_id)) [
  | inl absent ↦ subst (IsSound p) (ground arith) sound
  | inr (turn, there) ↦ elim (Bool-cases (is_bound ref turn && not (is_expired turn now))) [
    | inr refused ↦ subst (IsSound p) (ground arith) sound
    | inl accepted ↦ subst (IsSound p) (ground arith) (
        put-IsSound p s ref.turn_id (renewed turn now) sound
          (unfold payload_sha256 in sound.genuine ref.turn_id turn there)
          (λ j u here same. sound.distinct ref.turn_id j turn u there here same))
  ]
]

get-remove_all :
    (ks : List Uuid) (s : TurnStore) (k : Uuid)
    → get (remove_all ks s) k ≡ (if contains k ks then none else get s k)
get-remove_all [] s k = refl
get-remove_all (j ∷ ks) s k = ground (arith, get-remove s j k, get-remove_all ks (remove s j) k)

matched :
    (attempt : AttemptRef) (s : TurnStore) (k : Uuid) (t : PrivateProviderTurn)
    → get s k ≡ some t
    → is_of attempt t ≡ true
    → contains k (matching attempt s) ≡ true
unfolding get
matched attempt [] k t there own = ground arith
matched attempt (e ∷ s) k t there own = ground (arith, matched attempt s k t)

-- After an attempt is deleted none of its turns is held, and a turn that is held was there before.
pub delete_attempt_lem :
    (attempt : AttemptRef) (s : TurnStore) (k : Uuid) (t : PrivateProviderTurn)
    → get (delete_attempt attempt s) k ≡ some t
    → (is_of attempt t ≡ false) × (get s k ≡ some t)
unfolding delete_attempt
delete_attempt_lem attempt s k t h =
    let read = get-remove_all (matching attempt s) s k in
    let before : get s k ≡ some t = ground arith in
    elim (Bool-cases (is_of attempt t)) [
      | inl own ↦ absurd (ground (arith, matched attempt s k t before own))
      | inr other ↦ (other, before)
    ]

delete-IsSound :
    (p : TurnPorts) (attempt : AttemptRef) (s : TurnStore)
    → IsSound p s
    → IsSound p (delete_attempt attempt s)
delete-IsSound p attempt s sound = record {
  distinct = λ i j t u there here same.
      sound.distinct i j t u (delete_attempt_lem attempt s i t there).1
        (delete_attempt_lem attempt s j u here).1 same;
  genuine = λ i t there. sound.genuine i t (delete_attempt_lem attempt s i t there).1;
}

-- One call of the store's methods, which may raise.
pub data Step (p : TurnPorts) (s : TurnStore) : TurnStore → Type 0 where
  save_step : (uuid4 : Uuid) (turn : PrivateProviderTurn) → Step p s (save p uuid4 turn s).1
  resolve_step : (ref : ProviderTurnRef) (now : Instant) → Step p s (resolve ref now s).1
  delete_step : (attempt : AttemptRef) → Step p s (delete_attempt attempt s)

pub data Run (p : TurnPorts) (s : TurnStore) : TurnStore → Type 0 where
  here : Run p s s
  next : (t u : TurnStore) → Run p s t → Step p t u → Run p s u

Step-IsSound : (p : TurnPorts) (s t : TurnStore) → IsSound p s → Step p s t → IsSound p t
Step-IsSound p s _ sound (save_step uuid4 turn) = save-IsSound p uuid4 turn s sound
Step-IsSound p s _ sound (resolve_step ref now) = resolve-IsSound p ref now s sound
Step-IsSound p s _ sound (delete_step attempt) = delete-IsSound p attempt s sound

-- Calls of `save`, `resolve` and `delete_attempt`, in any order and whichever of them raise, keep
-- the turns of an attempt at distinct sequence numbers, each with the digest of its payload.
pub calls-IsSound : (p : TurnPorts) (s t : TurnStore) → IsSound p s → Run p s t → IsSound p t
calls-IsSound p s _ sound here = sound
calls-IsSound p s u sound (next t _ earlier step) =
    Step-IsSound p t u (calls-IsSound p s t sound earlier) step

bound :
    (ref : ProviderTurnRef) (turn : PrivateProviderTurn)
    → is_bound ref turn ≡ true
    → ref ≡ ref_of ref.turn_id turn
unfolding is_bound
bound ref turn h = ground (
  arith,
  eq_iff ref.scope_digest turn.scope_digest,
  eq_iff ref.payload_sha256 turn.payload_sha256,
  list_beq_iff ref.expected_tool_call_ids turn.expected_tool_call_ids,
)

-- A reference resolves only to the turn that it names, with every field that both have, before the
-- turn's week is over and within a day of its last use.
pub resolve_sound :
    (ref : ProviderTurnRef) (now : Instant) (s : TurnStore) (found : PrivateProviderTurn)
    → (resolve ref now s).0 ≡ ok found
    → (turn : PrivateProviderTurn) × (get s ref.turn_id ≡ some turn)
      × (found ≡ renewed turn now)
      × (ref ≡ ref_of ref.turn_id turn)
      × (now < turn.absolute_expires_at)
      × (now ≤ turn.last_used_at + hours 24)
unfolding resolve
resolve_sound ref now s found h = elim (Option-cases (get s ref.turn_id)) [
  | inl absent ↦ absurd (ground arith)
  | inr (turn, there) ↦ (
    turn,
    there,
    ground arith,
    bound ref turn (ground arith),
    unfold is_expired in ground arith,
    unfold is_expired in ground arith,
  )
]
