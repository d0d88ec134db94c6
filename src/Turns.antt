-- ===== src/Turns.antt =====
-- src/commerce_agent/model/_turn_store.py: the process-local store of provider-private turns. The
-- clock's reading and `uuid4()` are arguments; JSON and hashing are the parameter `TurnPorts`.
pub mod Lifetime
use commerce_analyst_agent.Prelude.{
  option_eq, ℕ, ◌+◌, String, Bool, false, not, ◌&&◌, ◌||◌, Option, none, some, List, [], ◌∷◌,
  nat_beq, ltb, leb, if◌then◌else◌, any, ◌==◌, nat_eq, string_eq, list_eq, unique,
}
use commerce_analyst_agent.Prelude.Dict.{Dict, get, put, remove, values}
use commerce_analyst_agent.Prelude.Outcome.{ok, err, Method}
use commerce_analyst_agent.Operations.Ports.{Json, JsonFields, JsonItems}
use commerce_analyst_agent.Operations.Contracts.{Instant, Uuid, days, hours}

pub data ModelStateError : Type 0 where
  state_digest_mismatch state_sequence_duplicate state_not_found : ModelStateError
  state_binding_mismatch state_expired : ModelStateError

pub record AttemptRef : Type 0 where
  pub scope_digest : String
  pub attempt_id : Uuid

pub record PrivateProviderTurn : Type 0 where
  pub scope_digest : String
  pub attempt_id : Uuid
  pub sequence : ℕ
  pub provider : String
  pub model : String
  pub content : Option String
  pub reasoning_content : Option String
  pub tool_calls_json : String
  pub payload_sha256 : String
  pub expected_tool_call_ids : List String
  pub token_weight : ℕ
  pub created_at : Instant
  pub last_used_at : Instant
  pub absolute_expires_at : Instant

-- `ProviderTurnRef` (model/contracts.py)
pub record ProviderTurnRef : Type 0 where
  pub turn_id : Uuid
  pub scope_digest : String
  pub attempt_id : Uuid
  pub sequence : ℕ
  pub payload_sha256 : String
  pub expected_tool_call_ids : List String
  pub token_weight : ℕ
  pub expires_at : Instant

pub record TurnPorts : Type 0 where
  -- `json.loads`, `none` for its errors
  pub loads : String → Option Json
  -- `json.dumps(v, ensure_ascii=False, sort_keys=True, ...)`
  pub dumps : Json → String
  -- `hashlib.sha256(s.encode("utf-8")).hexdigest()`
  pub sha256_hex : String → String

abbrev pub text_or_null : Option String → Json
text_or_null none = Json.null
text_or_null (some s) = Json.text s

-- `_payload_sha256`; a stored text has passed `validate_tool_calls_json`, so it can be loaded.
unfoldable pub payload_sha256 : TurnPorts → PrivateProviderTurn → Option String
payload_sha256 p turn = elim (p.loads turn.tool_calls_json) [
  | none ↦ none
  | some tool_calls ↦ some (
      p.sha256_hex (
        p.dumps (
          Json.object (
            JsonFields.field "content" (text_or_null turn.content) (
              JsonFields.field "reasoning_content" (text_or_null turn.reasoning_content)
                (JsonFields.field "tool_calls" tool_calls JsonFields.end))))))
]

abbrev pub text_of : Json → Option String
text_of (Json.text s) = some s
text_of _ = none

-- `call.get("id")`, where it is a text
abbrev pub id_in : JsonFields → Option String
id_in JsonFields.end = none
id_in (JsonFields.field name value rest) =
    let later = id_in rest in if name == "id" then text_of value else later

abbrev pub call_id : Json → Option String
call_id (Json.object fields) = id_in fields
call_id _ = none

abbrev pub cons_id : Option String → Option (List String) → Option (List String)
cons_id (some i) (some ids) = some (i ∷ ids)
cons_id _ _ = none

-- `parsed_call_ids`, `none` for the `TypeError`
abbrev pub call_ids : JsonItems → Option (List String)
call_ids JsonItems.nil = some []
call_ids (JsonItems.cons call rest) = cons_id (call_id call) (call_ids rest)

-- The list that a text encodes, `none` where `validate_tool_calls_json` raises.
abbrev pub canonical_list : TurnPorts → String → Option Json → Option JsonItems
canonical_list p value (some (Json.array items)) =
    if value == p.dumps (Json.array items) then some items else none
canonical_list p value _ = none

unfoldable pub validate_tool_calls_json : TurnPorts → String → Option JsonItems
validate_tool_calls_json p value = canonical_list p value (p.loads value)

abbrev pub ids_match : Option JsonItems → List String → Bool
ids_match none expected = false
ids_match (some items) expected = call_ids items == some expected

-- `PrivateProviderTurn.validate_lifecycle`; that the three instants are aware is in their type.
unfoldable pub validate_lifecycle : TurnPorts → PrivateProviderTurn → Bool
validate_lifecycle p turn =
    leb turn.created_at turn.last_used_at
    && nat_beq turn.absolute_expires_at (turn.created_at + days 7)
    && unique turn.expected_tool_call_ids
    && ids_match (validate_tool_calls_json p turn.tool_calls_json) turn.expected_tool_call_ids

-- `_turns`
abbrev pub TurnStore : Type 0
TurnStore = Dict Uuid PrivateProviderTurn

abbrev pub TurnMethod : Type 0 → Type 0
TurnMethod A = Method ModelStateError TurnStore A

abbrev pub same_place : PrivateProviderTurn → PrivateProviderTurn → Bool
same_place turn stored =
    (stored.scope_digest == turn.scope_digest)
    && nat_beq stored.attempt_id turn.attempt_id
    && nat_beq stored.sequence turn.sequence

abbrev pub ref_of : Uuid → PrivateProviderTurn → ProviderTurnRef
ref_of turn_id turn = record {
  turn_id = turn_id;
  scope_digest = turn.scope_digest;
  attempt_id = turn.attempt_id;
  sequence = turn.sequence;
  payload_sha256 = turn.payload_sha256;
  expected_tool_call_ids = turn.expected_tool_call_ids;
  token_weight = turn.token_weight;
  expires_at = turn.absolute_expires_at;
}

unfoldable pub save : TurnPorts → Uuid → PrivateProviderTurn → TurnMethod ProviderTurnRef
save p uuid4 turn s =
    if not (payload_sha256 p turn == some turn.payload_sha256)
    then (err state_digest_mismatch, s)
    else if any (same_place turn) (values s)
    then (err state_sequence_duplicate, s)
    else (ok (ref_of uuid4 turn), put s uuid4 turn)

-- The seven pairs of `bindings`.
unfoldable pub is_bound : ProviderTurnRef → PrivateProviderTurn → Bool
is_bound ref turn =
    (ref.scope_digest == turn.scope_digest)
    && nat_beq ref.attempt_id turn.attempt_id
    && nat_beq ref.sequence turn.sequence
    && (ref.payload_sha256 == turn.payload_sha256)
    && (ref.expected_tool_call_ids == turn.expected_tool_call_ids)
    && nat_beq ref.token_weight turn.token_weight
    && nat_beq ref.expires_at turn.absolute_expires_at

unfoldable pub is_expired : PrivateProviderTurn → Instant → Bool
is_expired turn now = leb turn.absolute_expires_at now || ltb (turn.last_used_at + hours 24) now

abbrev pub renewed : PrivateProviderTurn → Instant → PrivateProviderTurn
renewed turn now = record turn { last_used_at = now }

unfoldable pub resolve : ProviderTurnRef → Instant → TurnMethod PrivateProviderTurn
resolve ref now s = elim (get s ref.turn_id) [
  | none ↦ (err state_not_found, s)
  | some turn ↦
      if not (is_bound ref turn)
      then (err state_binding_mismatch, s)
      else if is_expired turn now
      then (err state_expired, s)
      else (ok (renewed turn now), put s ref.turn_id (renewed turn now))
]

abbrev pub is_of : AttemptRef → PrivateProviderTurn → Bool
is_of attempt turn =
    (turn.scope_digest == attempt.scope_digest) && nat_beq turn.attempt_id attempt.attempt_id

abbrev pub matching : AttemptRef → TurnStore → List Uuid
matching attempt [] = []
matching attempt ((turn_id, turn) ∷ rest) =
    let others = matching attempt rest in if is_of attempt turn then turn_id ∷ others else others

abbrev pub remove_all : List Uuid → TurnStore → TurnStore
remove_all [] s = s
remove_all (turn_id ∷ rest) s = remove_all rest (remove s turn_id)

unfoldable pub delete_attempt : AttemptRef → TurnStore → TurnStore
delete_attempt attempt s = remove_all (matching attempt s) s
