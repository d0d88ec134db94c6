-- ===== src/RunErrors.antt =====
-- What the agent's parts raise while they serve a run: the exceptions of
-- src/commerce_agent/orchestration/_checkpoint.py, orchestration/tools.py, context_builder/builder.py,
-- context_builder/profiles.py, model/errors.py, sql_reasoning/errors.py and query_engine/errors.py,
-- with their reason codes.
use commerce_analyst_agent.Prelude.{String, Bool}

pub data RunError : Type 0 where
  checkpoint_incompatible : String → RunError
  checkpoint_infrastructure_error : String → RunError
  tool_contract_error : String → RunError
  tool_infrastructure_error : String → RunError
  -- its reason code, and whether it is retryable
  model_gateway_error : String → Bool → RunError
  profile_mismatch : String → RunError
  data_namespace_violation : RunError
  context_integrity_error : String → RunError
  tool_result_mismatch : RunError
  context_budget_exceeded : RunError
  revision_mismatch : RunError
  sql_no_progress : RunError
  sql_reasoning_contract_error : String → RunError
  query_engine_error : String → RunError
  -- a `ValueError`, of which pydantic's `ValidationError` is one, a missing dict key, and any other
  -- exception
  value_error : RunError
  missing_key : RunError
  other_error : String → RunError
