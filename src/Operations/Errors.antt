-- ===== src/Operations/Errors.antt =====
-- src/commerce_agent/operations/errors.py: the error classes, with the reason codes that the
-- modelled modules raise. Every one of those raises passes `retryable=False`.
use commerce_analyst_agent.Prelude.Outcome.{Result}

pub data Reason : Type 0 where
  analyst_required approver_required self_approval_denied grant_actor_mismatch : Reason
  approval_required proposal_not_found proposal_already_decided proposal_expired : Reason
  nonce_used nonce_entropy_invalid signature_invalid grant_expired approval_key_unavailable : Reason
  idempotency_conflict proposal_revision_conflict target_version_conflict : Reason
  investigation_status_conflict investigation_not_found investigation_not_resolved : Reason
  conclusion_required risk_disposition_required : Reason
  evidence_binding_mismatch seller_ref_validation_unavailable seller_query_evidence_required :
      Reason
  seller_ref_invalid backtest_validation_unavailable backtest_not_found : Reason
  backtest_spec_mismatch : Reason
  metric_revision_mismatch metric_grain_forbidden backtest_observation_invalid : Reason
  canonical_key_invalid canonical_decimal_requires_scale canonical_float_forbidden : Reason
  canonical_type_unsupported datetime_timezone_required : Reason
  decimal_not_finite decimal_scale_invalid : Reason

-- `key_error` is Python's own `KeyError`, from an index that is not in a dict, and `overflow_error`
-- its `OverflowError`, from an instant that is out of range.
pub data OperationError : Type 0 where
  contract_error authorization_error approval_error conflict_error : Reason → OperationError
  key_error overflow_error : OperationError

abbrev pub Call : Type 0 → Type 0
Call A = Result OperationError A
