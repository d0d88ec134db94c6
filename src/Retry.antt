-- ===== src/Retry.antt =====
-- src/commerce_agent/model/_retry.py: the retry policy of the model transport. A delay is a number of
-- some fixed fraction of a second, so fine that the policy's delays are whole; `jitter` is the
-- greater of 0 and the source's; the attempts count from 1. `Decimal(retry_after)` is a parameter.
pub mod Backoff
use commerce_analyst_agent.Prelude.{
  ℕ, ◌+◌, ◌-◌, ◌*◌, ◌^◌, String, Bool, true, false, Option, none, some, leb, if◌then◌else◌,
}
use commerce_analyst_agent.Prelude.Outcome.{Result, ok, err, ◌>>=◌}

pub record RetryDecision : Type 0 where
  pub should_retry : Bool
  pub delay_seconds : ℕ

pub record RetryPolicy : Type 0 where
  pub base_delay_seconds : ℕ
  pub maximum_delay_seconds : ℕ
  pub maximum_attempts : ℕ

abbrev pub min : ℕ → ℕ → ℕ
min a b = if leb a b then a else b

-- What `Decimal(retry_after)` is: its `InvalidOperation`, a NaN, a number that is negative or
-- infinite, or a finite number from 0 on.
pub data Parsed : Type 0 where
  no_number not_a_number no_delay : Parsed
  seconds : ℕ → Parsed

-- `InvalidOperation`, which the comparison of a NaN raises
pub data DecimalError : Type 0 where
  invalid_operation : DecimalError

-- `delay` after `if parsed >= 0 and parsed.is_finite()`
abbrev pub parsed_delay : Parsed → Result DecimalError (Option ℕ)
parsed_delay no_number = ok none
parsed_delay not_a_number = err invalid_operation
parsed_delay no_delay = ok none
parsed_delay (seconds delay) = ok (some delay)

abbrev pub header_delay : (String → Parsed) → Option String → Result DecimalError (Option ℕ)
header_delay parse none = ok none
header_delay parse (some retry_after) = parsed_delay (parse retry_after)

unfoldable pub backoff : RetryPolicy → ℕ → ℕ → ℕ
backoff policy attempt_number jitter = policy.base_delay_seconds * 2 ^ (attempt_number - 1) + jitter

abbrev pub delay_or : Option ℕ → ℕ → ℕ
delay_or none delay = delay
delay_or (some parsed) delay = parsed

-- `RetryPolicy.decision`
unfoldable pub decision :
    (String → Parsed) → RetryPolicy → ℕ → Option String → ℕ → Result DecimalError RetryDecision
decision parse policy attempt_number retry_after jitter =
    if leb policy.maximum_attempts attempt_number
    then ok (record { should_retry = false; delay_seconds = 0 })
    else (header_delay parse retry_after >>= λ delay. ok (record {
      should_retry = true;
      delay_seconds =
          min (delay_or delay (backoff policy attempt_number jitter)) policy.maximum_delay_seconds;
    }))
