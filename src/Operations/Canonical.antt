-- ===== src/Operations/Canonical.antt =====
-- src/commerce_agent/operations/_canonical.py: the canonical form that digests and signatures are
-- taken of.
pub mod Totality
pub mod Collisions
use commerce_analyst_agent.Prelude.{
  ℕ, ◌+◌, ◌*◌, ◌^◌, ◌/◌, ◌%◌, String, Bool, true, false, Option, none, some, List, [], ◌∷◌, nat_beq,
  ltb, leb, if◌then◌else◌,
}
use commerce_analyst_agent.Prelude.Outcome.{ok, err, ◌>>=◌, ◌>>◌}
use commerce_analyst_agent.Operations.Errors.{
  Call, contract_error, canonical_key_invalid, canonical_decimal_requires_scale,
  canonical_float_forbidden, canonical_type_unsupported, datetime_timezone_required,
  decimal_not_finite, decimal_scale_invalid, overflow_error,
}
use commerce_analyst_agent.Operations.Contracts.{
  EvidenceRef, Instant, InvestigationStatus, InvestigationTaskRef, MetricRef, Ratio,
  RiskDisposition, Uuid, Versions, comparator_value, disposition_value, window_value,
}
use commerce_analyst_agent.Operations.Commands.{
  Decimal, OperationCommand, Priority, open_seller_risk_case, create_investigation_task,
  create_investigation_from_alert_hit, create_and_enable_metric_alert_rule, assign_investigation,
  transition_investigation, add_investigation_conclusion, close_investigation,
}
use commerce_analyst_agent.Operations.Ports
use commerce_analyst_agent.Operations.Ports.{Ports, Json, JsonItems, JsonFields, Bytes}

-- The values that `_canonical_value` tells apart. A mapping's key is `none` where it is no `str`;
-- an `int` that reaches it is never negative, and the value of an `Enum` is one that JSON has.
mutual
  pub data PyValue : Type 0 where
    py_none py_decimal py_float py_other py_naive_datetime : PyValue
    py_str : String → PyValue
    py_enum : Json → PyValue
    py_int : ℕ → PyValue
    py_bool : Bool → PyValue
    py_datetime : Instant → PyValue
    py_uuid : Uuid → PyValue
    py_sequence : PyItems → PyValue
    py_mapping : PyFields → PyValue

  pub data PyItems : Type 0 where
    nil : PyItems
    cons : PyValue → PyItems → PyItems

  pub data PyFields : Type 0 where
    end : PyFields
    field : Option String → PyValue → PyFields → PyFields

-- `any(not isinstance(key, str) for key in value)`
abbrev pub has_foreign_key : PyFields → Bool
has_foreign_key PyFields.end = false
has_foreign_key (PyFields.field none _ fs) = true
has_foreign_key (PyFields.field (some _) _ fs) = has_foreign_key fs

abbrev pub raise_contract : {A : Type 0} → Bool → Call A → Call A
raise_contract true m = err (contract_error canonical_key_invalid)
raise_contract false m = m

abbrev pub cons_item : Call Json → Call JsonItems → Call JsonItems
cons_item x xs = x >>= λ j. xs >>= λ js. ok (JsonItems.cons j js)

abbrev pub cons_field : Option String → Call Json → Call JsonFields → Call JsonFields
cons_field none x fs = err (contract_error canonical_key_invalid)
cons_field (some k) x fs = x >>= λ j. fs >>= λ js. ok (JsonFields.field k j js)

-- `utc_z` of an aware datetime
unfoldable pub utc_z : Ports → Instant → Call String
utc_z p t = elim (p.isoformat t) [ none ↦ err overflow_error | some z ↦ ok z ]

module _ (p : Ports) where
  unfoldable mutual
    unfolding utc_z

    pub canonical_value : PyValue → Call Json
    canonical_value (py_mapping fs) =
        raise_contract (has_foreign_key fs) (canonical_fields fs >>= λ js. ok (Json.object js))
    canonical_value (py_sequence xs) = canonical_items xs >>= λ js. ok (Json.array js)
    canonical_value (py_datetime t) = utc_z p t >>= λ z. ok (Json.text z)
    canonical_value py_naive_datetime = err (contract_error datetime_timezone_required)
    canonical_value (py_uuid u) = ok (Json.text (p.uuid_str u))
    canonical_value (py_enum v) = ok v
    canonical_value py_decimal = err (contract_error canonical_decimal_requires_scale)
    canonical_value py_float = err (contract_error canonical_float_forbidden)
    canonical_value py_none = ok Json.null
    canonical_value (py_str s) = ok (Json.text s)
    canonical_value (py_int n) = ok (Json.number n)
    canonical_value (py_bool b) = ok (Json.boolean b)
    canonical_value py_other = err (contract_error canonical_type_unsupported)

    pub canonical_items : PyItems → Call JsonItems
    canonical_items PyItems.nil = ok JsonItems.nil
    canonical_items (PyItems.cons x xs) = cons_item (canonical_value x) (canonical_items xs)

    pub canonical_fields : PyFields → Call JsonFields
    canonical_fields PyFields.end = ok JsonFields.end
    canonical_fields (PyFields.field k x fs) =
        cons_field k (canonical_value x) (canonical_fields fs)

  unfoldable pub canonical_json_bytes : PyValue → Call Bytes
  unfolding canonical_value
  canonical_json_bytes v = canonical_value v >>= λ j. ok (p.json_bytes j)

-- `value.quantize(Decimal(1).scaleb(-scale))` for a divisor of the value's own unit: half to even.
unfoldable pub quantize : ℕ → ℕ → ℕ
quantize value divisor =
    let q = value / divisor in
    let r = value % divisor in
    if ltb (2 * r) divisor
    then q
    else if ltb divisor (2 * r)
    then q + 1
    else if nat_beq (q % 2) 0
    then q
    else q + 1

-- `normalized_decimal(value, scale=4)`: the context of `quantize` has 28 digits.
unfoldable pub normalized_decimal : Ports → Decimal → Call String
unfolding quantize
normalized_decimal p Decimal.nan = err (contract_error decimal_not_finite)
normalized_decimal p Decimal.infinite = err (contract_error decimal_not_finite)
normalized_decimal p (Decimal.finite negative coefficient scale) =
    let places = quantize (coefficient * 10 ^ 4) (10 ^ scale) in
    if leb (10 ^ 28) places
    then err (contract_error decimal_scale_invalid)
    else ok (p.format_4f negative places)

-- `normalized_decimal` of a ratio that its validator has accepted, in millionths; a zero with a
-- minus sign, which the validators accept, is the ratio 0.
unfoldable pub normalized_ratio : Ports → Ratio → String
normalized_ratio p value = p.format_4f false (quantize value 100)

abbrev fields_of : List (String × PyValue) → PyFields
fields_of [] = PyFields.end
fields_of ((k, v) ∷ r) = PyFields.field (some k) v (fields_of r)

-- `{name: value, ...}`, a `BaseModel` projected by its fields, and `dict(target_versions)`
abbrev pub py_dict : List (String × PyValue) → PyValue
py_dict fields = py_mapping (fields_of fields)

abbrev version_fields : Versions → PyFields
version_fields [] = PyFields.end
version_fields ((k, v) ∷ r) = PyFields.field (some k) (py_int v) (version_fields r)

abbrev pub py_versions : Versions → PyValue
py_versions v = py_mapping (version_fields v)

abbrev text_items : List String → PyItems
text_items [] = PyItems.nil
text_items (t ∷ r) = PyItems.cons (py_str t) (text_items r)

abbrev evidence_items : List EvidenceRef → PyItems
evidence_items [] = PyItems.nil
evidence_items (e ∷ r) =
    PyItems.cons
      (py_dict (("kind", py_str e.kind) ∷ ("ref", py_str e.ref) ∷ ("digest", py_str e.digest) ∷ []))
      (evidence_items r)

abbrev project_evidence : List EvidenceRef → PyValue
project_evidence refs = py_sequence (evidence_items refs)

abbrev project_task : InvestigationTaskRef → PyValue
project_task r = py_dict (("task_id", py_uuid r.task_id) ∷ ("version", py_int r.version) ∷ [])

abbrev project_metric : MetricRef → PyValue
project_metric r = py_dict (("name", py_str r.name) ∷ ("revision", py_str r.revision) ∷ [])

abbrev priority_value : Priority → String
priority_value Priority.low = "low"
priority_value Priority.medium = "medium"
priority_value Priority.high = "high"

abbrev pub status_value : InvestigationStatus → String
status_value InvestigationStatus.opened = "open"
status_value InvestigationStatus.in_progress = "in_progress"
status_value InvestigationStatus.blocked = "blocked"
status_value InvestigationStatus.resolved = "resolved"
status_value InvestigationStatus.closed = "closed"

abbrev project_disposition : Option RiskDisposition → PyValue
project_disposition none = py_none
project_disposition (some d) = py_enum (Json.text (disposition_value d))

-- `_COMMAND_FIELDS` with `_project_model`: the fields of each command, in the listed order
unfoldable pub command_projection : Ports → OperationCommand → PyValue
command_projection p (open_seller_risk_case c) = py_dict (
    ("type", py_str "open_seller_risk_case")
    ∷ (
      "seller_ref",
      py_dict (
          ("namespace", py_str c.seller_ref.namespace) ∷ ("token", py_str c.seller_ref.token) ∷ []),
    )
    ∷ ("observation_started_at", py_datetime c.observation_started_at)
    ∷ ("observation_ended_at", py_datetime c.observation_ended_at)
    ∷ ("metric_ref", project_metric c.metric_ref)
    ∷ ("numerator", py_int c.numerator)
    ∷ ("denominator", py_int c.denominator)
    ∷ ("observed", py_str (normalized_ratio p c.observed))
    ∷ ("threshold", py_str (normalized_ratio p c.threshold))
    ∷ ("title", py_str c.title)
    ∷ ("priority", py_str (priority_value c.priority))
    ∷ ("evidence_refs", project_evidence c.evidence_refs)
    ∷ ("expected_target_version", py_int c.expected_target_version)
    ∷ [])
command_projection p (create_investigation_task c) = py_dict (
    ("type", py_str "create_investigation_task")
    ∷ ("title", py_str c.title)
    ∷ ("priority", py_str (priority_value c.priority))
    ∷ ("public_summary", py_str c.public_summary)
    ∷ ("evidence_refs", project_evidence c.evidence_refs)
    ∷ ("expected_target_version", py_int c.expected_target_version)
    ∷ [])
command_projection p (create_investigation_from_alert_hit c) = py_dict (
    ("type", py_str "create_investigation_from_alert_hit")
    ∷ (
      "alert_hit_ref",
      py_dict (
          ("hit_id", py_uuid c.alert_hit_ref.hit_id)
          ∷ ("evidence_digest", py_str c.alert_hit_ref.evidence_digest)
          ∷ []),
    )
    ∷ ("title", py_str c.title)
    ∷ ("priority", py_str (priority_value c.priority))
    ∷ ("evidence_refs", project_evidence c.evidence_refs)
    ∷ ("expected_target_version", py_int c.expected_target_version)
    ∷ [])
command_projection p (create_and_enable_metric_alert_rule c) = py_dict (
    ("type", py_str "create_and_enable_metric_alert_rule")
    ∷ (
      "alert_backtest_ref",
      py_dict (
          ("backtest_id", py_uuid c.alert_backtest_ref.backtest_id)
          ∷ ("rule_spec_sha256", py_str c.alert_backtest_ref.rule_spec_sha256)
          ∷ []),
    )
    ∷ ("metric_ref", project_metric c.metric_ref)
    ∷ ("grain", py_str c.grain)
    ∷ ("window", py_str (window_value c.window))
    ∷ ("comparator", py_str (comparator_value c.comparator))
    ∷ ("threshold", py_str (normalized_ratio p c.threshold))
    ∷ ("minimum_denominator", py_int c.minimum_denominator)
    ∷ ("filter_refs", py_sequence (text_items c.filter_refs))
    ∷ ("evidence_refs", project_evidence c.evidence_refs)
    ∷ ("expected_target_version", py_int c.expected_target_version)
    ∷ [])
command_projection p (assign_investigation c) = py_dict (
    ("type", py_str "assign_investigation")
    ∷ ("task_ref", project_task c.task_ref)
    ∷ ("assignee_ref", py_str c.assignee_ref)
    ∷ ("evidence_refs", project_evidence c.evidence_refs)
    ∷ ("expected_target_version", py_int c.expected_target_version)
    ∷ [])
command_projection p (transition_investigation c) = py_dict (
    ("type", py_str "transition_investigation")
    ∷ ("task_ref", project_task c.task_ref)
    ∷ ("from_status", py_enum (Json.text (status_value c.from_status)))
    ∷ ("to_status", py_enum (Json.text (status_value c.to_status)))
    ∷ ("reason_code", py_str c.reason_code)
    ∷ ("evidence_refs", project_evidence c.evidence_refs)
    ∷ ("expected_target_version", py_int c.expected_target_version)
    ∷ [])
command_projection p (add_investigation_conclusion c) = py_dict (
    ("type", py_str "add_investigation_conclusion")
    ∷ ("task_ref", project_task c.task_ref)
    ∷ ("conclusion_code", py_str c.conclusion_code)
    ∷ ("conclusion_summary", py_str c.conclusion_summary)
    ∷ ("evidence_refs", project_evidence c.evidence_refs)
    ∷ ("expected_target_version", py_int c.expected_target_version)
    ∷ [])
command_projection p (close_investigation c) = py_dict (
    ("type", py_str "close_investigation")
    ∷ ("task_ref", project_task c.task_ref)
    ∷ ("conclusion_ref", py_str c.conclusion_ref)
    ∷ ("risk_disposition", project_disposition c.risk_disposition)
    ∷ ("evidence_refs", project_evidence c.evidence_refs)
    ∷ ("expected_target_version", py_int c.expected_target_version)
    ∷ [])

pub record CanonicalPayload : Type 0 where
  pub schema_version : ℕ
  pub canonical_bytes : Bytes
  pub sha256 : String

-- The mapping that `canonical_command` hands to `canonical_json_bytes`, from the command's own.
unfoldable pub payload_projection : PyValue → Versions → PyValue
payload_projection command target_versions = py_dict (
    ("command", command)
    ∷ ("schema_version", py_int 1)
    ∷ ("target_versions", py_versions target_versions)
    ∷ [])

unfoldable pub canonical_payload : Ports → PyValue → Versions → Call CanonicalPayload
unfolding canonical_json_bytes payload_projection
canonical_payload p command target_versions =
    canonical_json_bytes p (payload_projection command target_versions) >>= λ canonical.
    ok (record { schema_version = 1; canonical_bytes = canonical; sha256 = p.sha256_hex canonical })

-- `canonical_command(command, target_versions)` at its default `schema_version=1`
unfoldable pub canonical_command : Ports → OperationCommand → Versions → Call CanonicalPayload
unfolding command_projection canonical_payload
canonical_command p command target_versions =
    canonical_payload p (command_projection p command) target_versions
