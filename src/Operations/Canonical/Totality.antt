-- ===== src/Operations/Canonical/Totality.antt =====
-- When the canonical form exists (src/commerce_agent/operations/_canonical.py).
use commerce_analyst_agent.Prelude.{
  ◌≡◌, ◌⊎◌, refl, String, Bool, true, false, ◌&&◌, Option, none, some, inl, inr, Bool-cases,
  Option-cases, List, [], ◌∷◌, arith,
}
use commerce_analyst_agent.Prelude.Outcome.{ok, err, ◌>>=◌}
use commerce_analyst_agent.Operations.Errors.{Call, overflow_error}
use commerce_analyst_agent.Operations.Contracts.{EvidenceRef, Versions}
use commerce_analyst_agent.Operations.Commands.{
  OperationCommand, open_seller_risk_case, create_investigation_task,
  create_investigation_from_alert_hit, create_and_enable_metric_alert_rule, assign_investigation,
  transition_investigation, add_investigation_conclusion, close_investigation,
}
use commerce_analyst_agent.Operations.Ports.{Ports, Json, JsonItems, JsonFields}
use commerce_analyst_agent.Operations.Canonical.{
  CanonicalPayload, PyFields, PyItems, PyValue, canonical_command, canonical_fields,
  canonical_items, canonical_json_bytes, canonical_payload, canonical_value, command_projection,
  payload_projection, utc_z, cons_field, cons_item, evidence_items, has_foreign_key, py_bool,
  py_datetime, py_dict, py_versions, py_decimal, py_enum, py_float, py_int, py_mapping,
  py_naive_datetime, py_none, py_other, py_sequence, py_str, py_uuid, text_items, version_fields,
}

abbrev pub is_some : {A : Type 0} → Option A → Bool
is_some none = false
is_some (some _) = true

-- Only texts as keys, no decimal, float, naive datetime or foreign object at any depth, and every
-- datetime with a text in UTC.
mutual
  jsonable : Ports → PyValue → Bool
  jsonable p (py_mapping fs) = jsonable_fields p fs
  jsonable p (py_sequence xs) = jsonable_items p xs
  jsonable p (py_datetime t) = is_some (p.isoformat t)
  jsonable p py_naive_datetime = false
  jsonable p (py_uuid _) = true
  jsonable p (py_enum _) = true
  jsonable p py_decimal = false
  jsonable p py_float = false
  jsonable p py_none = true
  jsonable p (py_str _) = true
  jsonable p (py_int _) = true
  jsonable p (py_bool _) = true
  jsonable p py_other = false

  jsonable_items : Ports → PyItems → Bool
  jsonable_items p PyItems.nil = true
  jsonable_items p (PyItems.cons x xs) = jsonable p x && jsonable_items p xs

  jsonable_fields : Ports → PyFields → Bool
  jsonable_fields p PyFields.end = true
  jsonable_fields p (PyFields.field none x fs) = false
  jsonable_fields p (PyFields.field (some _) x fs) = jsonable p x && jsonable_fields p fs

abbrev pub is_ok : {A : Type 0} → Call A → Bool
is_ok (ok _) = true
is_ok (err _) = false

-- The parts of a value are read in order, and the first that fails decides.
cons_item-is_ok :
    (x : Call Json) (xs : Call JsonItems) → is_ok (cons_item x xs) ≡ is_ok x && is_ok xs
cons_item-is_ok x xs = ground arith

cons_field-is_ok :
    (k : String) (x : Call Json) (fs : Call JsonFields)
    → is_ok (cons_field (some k) x fs) ≡ is_ok x && is_ok fs
cons_field-is_ok k x fs = ground arith

module _ (p : Ports) where
  mutual
    unfolding canonical_value jsonable utc_z

    value-is_ok : (v : PyValue) → is_ok (canonical_value p v) ≡ jsonable p v
    value-is_ok (py_mapping fs) = ground (arith, fields-is_ok fs, foreign_key fs)
    value-is_ok (py_sequence xs) = ground (arith, items-is_ok xs)
    value-is_ok (py_datetime t) = elim (Option-cases (p.isoformat t)) [
      | inl none_there ↦ ground arith
      | inr (z, there) ↦ ground arith
    ]
    value-is_ok py_naive_datetime = refl
    value-is_ok (py_uuid _) = refl
    value-is_ok (py_enum _) = refl
    value-is_ok py_decimal = refl
    value-is_ok py_float = refl
    value-is_ok py_none = refl
    value-is_ok (py_str _) = refl
    value-is_ok (py_int _) = refl
    value-is_ok (py_bool _) = refl
    value-is_ok py_other = refl

    items-is_ok : (xs : PyItems) → is_ok (canonical_items p xs) ≡ jsonable_items p xs
    items-is_ok PyItems.nil = refl
    items-is_ok (PyItems.cons x xs) = cc (
      cons_item-is_ok (canonical_value p x) (canonical_items p xs),
      value-is_ok x,
      items-is_ok xs,
    )

    fields-is_ok : (fs : PyFields) → is_ok (canonical_fields p fs) ≡ jsonable_fields p fs
    fields-is_ok PyFields.end = refl
    fields-is_ok (PyFields.field none x fs) = refl
    fields-is_ok (PyFields.field (some k) x fs) = cc (
      cons_field-is_ok k (canonical_value p x) (canonical_fields p fs),
      value-is_ok x,
      fields-is_ok fs,
    )

    foreign_key : (fs : PyFields) → has_foreign_key fs ≡ true → jsonable_fields p fs ≡ false
    foreign_key PyFields.end h = cc
    foreign_key (PyFields.field none x fs) h = refl
    foreign_key (PyFields.field (some k) x fs) h = ground (arith, foreign_key fs h)

module _ (p : Ports) where
  version_fields-jsonable : (v : Versions) → jsonable_fields p (version_fields v) ≡ true
  unfolding jsonable
  version_fields-jsonable [] = refl
  version_fields-jsonable (e ∷ v) = version_fields-jsonable v

  text_items-jsonable : (l : List String) → jsonable_items p (text_items l) ≡ true
  unfolding jsonable
  text_items-jsonable [] = refl
  text_items-jsonable (e ∷ v) = text_items-jsonable v

  evidence_items-jsonable : (l : List EvidenceRef) → jsonable_items p (evidence_items l) ≡ true
  unfolding jsonable
  evidence_items-jsonable [] = refl
  evidence_items-jsonable (e ∷ v) = evidence_items-jsonable v

-- The times of a command have a text in UTC.
abbrev pub has_utc_times : Ports → OperationCommand → Bool
has_utc_times p (open_seller_risk_case c) =
    is_some (p.isoformat c.observation_started_at) && is_some (p.isoformat c.observation_ended_at)
has_utc_times p _ = true

command-jsonable :
    (p : Ports) (command : OperationCommand)
    → jsonable p (command_projection p command) ≡ has_utc_times p command
unfolding command_projection jsonable
command-jsonable p (open_seller_risk_case c) =
    ground (arith, evidence_items-jsonable p c.evidence_refs)
command-jsonable p (create_investigation_task c) = rw (evidence_items-jsonable p c.evidence_refs)
command-jsonable p (create_investigation_from_alert_hit c) =
    rw (evidence_items-jsonable p c.evidence_refs)
command-jsonable p (create_and_enable_metric_alert_rule c) =
    rw (evidence_items-jsonable p c.evidence_refs, text_items-jsonable p c.filter_refs)
command-jsonable p (assign_investigation c) = rw (evidence_items-jsonable p c.evidence_refs)
command-jsonable p (transition_investigation c) = rw (evidence_items-jsonable p c.evidence_refs)
command-jsonable p (add_investigation_conclusion c) = rw (evidence_items-jsonable p c.evidence_refs)
command-jsonable p (close_investigation c) =
    ground (arith, evidence_items-jsonable p c.evidence_refs)

-- The mapping that `canonical_command` hands to `canonical_json_bytes`.
abbrev payload_value : Ports → OperationCommand → Versions → PyValue
payload_value p command target_versions = py_dict (
    ("command", command_projection p command)
    ∷ ("schema_version", py_int 1)
    ∷ ("target_versions", py_versions target_versions)
    ∷ [])

abbrev finish : Ports → Call Json → Call CanonicalPayload
finish p value = (value >>= λ j. ok (p.json_bytes j)) >>= λ b.
    ok (record { schema_version = 1; canonical_bytes = b; sha256 = p.sha256_hex b })

-- What `canonical_command` makes of a canonical value.
payload_of :
    (p : Ports) (value : Call Json)
    → is_ok value ≡ true
    → (payload : CanonicalPayload) × (finish p value ≡ ok payload)
      × (payload.sha256 ≡ p.sha256_hex payload.canonical_bytes)
payload_of p (ok j) h = (_, refl, refl)
payload_of p (err e) h = cc

defined :
    (p : Ports) (command : OperationCommand) (target_versions : Versions)
    → has_utc_times p command ≡ true
    → (payload : CanonicalPayload) × (canonical_command p command target_versions ≡ ok payload)
      × (payload.sha256 ≡ p.sha256_hex payload.canonical_bytes)
unfolding canonical_command
defined p command target_versions h =
    payload_of p (canonical_value p (payload_value p command target_versions)) (
      rw (value-is_ok p) (
        unfold jsonable in
        rw (command-jsonable p command, h, version_fields-jsonable p target_versions)))

-- The first time of a seller's case without a text in UTC decides.
overflows :
    (p : Ports) (command : OperationCommand) (target_versions : Versions)
    → has_utc_times p command ≡ false
    → canonical_command p command target_versions ≡ err overflow_error
unfolding canonical_command canonical_payload canonical_json_bytes payload_projection
    command_projection canonical_value utc_z
overflows p (open_seller_risk_case c) versions h =
    elim (Option-cases (p.isoformat c.observation_started_at)) [
      | inl early ↦ ground arith
      | inr (z, there) ↦ elim (Option-cases (p.isoformat c.observation_ended_at)) [
        | inl late ↦ ground arith
        | inr (y, too) ↦ ground arith
      ]
    ]
overflows p _ versions h = cc

-- A command whose times have a text in UTC has a canonical payload, at any target versions, with
-- the digest of its bytes; the others are the seller's cases that are observed from or to an
-- instant out of range, and `canonical_command` raises Python's `OverflowError` on them.
pub canonical_command_defined :
    (p : Ports) (command : OperationCommand) (target_versions : Versions)
    → (has_utc_times p command ≡ true)
        × ((payload : CanonicalPayload) × (canonical_command p command target_versions ≡ ok payload)
            × (payload.sha256 ≡ p.sha256_hex payload.canonical_bytes))
      ⊎ (has_utc_times p command ≡ false)
        × (canonical_command p command target_versions ≡ err overflow_error)
canonical_command_defined p command target_versions = elim (Bool-cases (has_utc_times p command)) [
  | inl all_there ↦ inl (all_there, defined p command target_versions all_there)
  | inr missing ↦ inr (missing, overflows p command target_versions missing)
]
