-- ===== src/Trace.antt =====
-- src/commerce_agent/trace: the append-only store of trace events (_memory.py), the check of their
-- summaries (module.py) and the events (contracts.py).
-- A run scope is a number; a hash, a usage and a cost are texts that the code only passes on.
pub mod Sequence
use commerce_analyst_agent.Prelude.{
  ℕ, ◌+◌, String, Bool, true, false, not, ◌||◌, ◌&&◌, Option, none, some, List, [], ◌∷◌, ◌++◌,
  nat_beq, if◌then◌else◌, any, length, nat_eq, pair_eq, ◌==◌, string_eq,
}
use commerce_analyst_agent.Prelude.Dict.{Dict, get, put}
use commerce_analyst_agent.Prelude.Outcome.{Result, ok, err, Method, raise_if, bind_pure}
use commerce_analyst_agent.Operations.Contracts.{Instant, Uuid}

pub data TraceContractError : Type 0 where
  trace_sequence_invalid trace_sensitive_content : TraceContractError

pub data TraceEventType : Type 0 where
  clarification_requested investigation_plan_accepted sql_generated sql_repaired : TraceEventType
  query_executed query_reconciled proposal_created decision_recorded : TraceEventType
  execution_completed report_completed recovery_applied : TraceEventType

pub data TraceStatus : Type 0 where
  started succeeded failed stopped : TraceStatus

pub record TraceDecisionSummary : Type 0 where
  pub code : String
  pub text : String

pub record TraceEvidence : Type 0 where
  pub kind : String
  pub ref : String
  pub digest : String

pub record ScopedTraceEvent : Type 0 where
  pub run_scope : ℕ
  pub attempt_id : Uuid
  pub phase : String
  pub sequence : ℕ
  pub occurred_at : Instant
  pub node : String
  pub event_type : TraceEventType
  pub status : TraceStatus
  pub decision_summary : Option TraceDecisionSummary
  pub prompt_policy_hash : Option String
  pub rendered_prompt_hash : Option String
  pub model_hash : Option String
  pub tool_hash : Option String
  pub context_hash : Option String
  pub config_hash : String
  pub usage : Option String
  pub cost : Option String
  pub evidence : List TraceEvidence
  pub query_fingerprints : List String
  pub reason_code : Option String
  pub proposal_ref : Option String
  pub execution_ref : Option String
  pub audit_ref : Option String

-- `_events`, a `defaultdict(list)`
abbrev pub TraceStore : Type 0
TraceStore = Dict (ℕ × Uuid) (List ScopedTraceEvent)

abbrev pub or_empty : Option (List ScopedTraceEvent) → List ScopedTraceEvent
or_empty none = []
or_empty (some events) = events

-- `self._events[key]`, which makes the missing list
unfoldable pub events : ℕ → Uuid → TraceStore → List ScopedTraceEvent
events run_scope attempt_id s = or_empty (get s (run_scope, attempt_id))

abbrev pub TraceMethod : Type 0
TraceMethod = Method TraceContractError TraceStore (Unit {0})

-- `InMemoryTraceStore.append`; a refused event leaves the list that was read, which may be new.
unfoldable pub append : ScopedTraceEvent → TraceMethod
unfolding events
append event s =
    let key : ℕ × Uuid = (event.run_scope, event.attempt_id) in
    let existing = events event.run_scope event.attempt_id s in
    if not (nat_beq event.sequence (length existing))
    then (err trace_sequence_invalid, put s key existing)
    else (ok tt, put s key (existing ++ event ∷ []))

abbrev pub starts_with : String → String → Bool
starts_with String.[] s = true
starts_with (String.◌∷◌ c m) String.[] = false
starts_with (String.◌∷◌ c m) (String.◌∷◌ d s) =
    let rest = starts_with m s in (String.◌∷◌ c String.[] == String.◌∷◌ d String.[]) && rest

-- `marker in normalized`
abbrev pub occurs_in : String → String → Bool
occurs_in marker String.[] = starts_with marker String.[]
occurs_in marker (String.◌∷◌ d s) =
    let later = occurs_in marker s in starts_with marker (String.◌∷◌ d s) || later

abbrev pub sensitive_markers : List String
sensitive_markers =
    "://" ∷ "password" ∷ "secret" ∷ "sk-" ∷ "raw_seller_id" ∷ "reasoning_content" ∷ "approval_nonce"
    ∷ "signature" ∷ []

unfoldable pub is_sensitive : (String → String) → String → Bool
is_sensitive casefold text = any (λ marker. occurs_in marker (casefold text)) sensitive_markers

-- `str.casefold` is a parameter.
unfoldable pub validate_trace_event :
    (String → String) → ScopedTraceEvent → Result TraceContractError (Unit {0})
validate_trace_event casefold event = elim event.decision_summary [
  | none ↦ ok tt
  | some summary ↦ raise_if (is_sensitive casefold summary.text) trace_sensitive_content
]

-- `TraceModule.append` over the in-memory store
unfoldable pub append_checked : (String → String) → ScopedTraceEvent → TraceMethod
append_checked casefold event s =
    bind_pure (validate_trace_event casefold event) (λ _. append event) s
