-- ===== src/Retry/Backoff.antt =====
-- The delays of the retry policy (src/commerce_agent/model/_retry.py).
use native.Mathlib.Nat.{mul-le-mul_left, pow-le-pow_right}
use commerce_analyst_agent.Prelude.{
  ℕ, ◌-◌, ◌^◌, ◌≤◌, ◌<◌, ◌≡◌, ◌⊎◌, inl, inr, refl, String, Bool, true, false, Option, none, some,
  arith,
}
use commerce_analyst_agent.Prelude.Outcome.{Result, ok, err}
use commerce_analyst_agent.Retry.{
  DecimalError, Parsed, RetryDecision, RetryPolicy, backoff, decision, delay_or, header_delay,
  invalid_operation, min, parsed_delay, no_delay, no_number, not_a_number, seconds,
}

backoff_grows :
    (policy : RetryPolicy) (a b jitter : ℕ)
    → a ≤ b
    → backoff policy a jitter ≤ backoff policy b jitter
unfolding backoff
backoff_grows policy a b jitter h =
    let powers : 2 ^ (a - 1) ≤ 2 ^ (b - 1) = pow-le-pow_right (omega arith) (omega (arith, h)) in
    omega (arith, mul-le-mul_left policy.base_delay_seconds powers)

-- Whether the header is a NaN.
abbrev pub is_nan : (String → Parsed) → Option String → Bool
is_nan parse none = false
is_nan parse (some retry_after) = elim (parse retry_after) [ not_a_number ↦ true | _ ↦ false ]

-- What a decision answers where it does not raise.
abbrev pub answer : Result DecimalError RetryDecision → RetryDecision
answer (ok d) = d
answer (err e) = record { should_retry = false; delay_seconds = 0 }

header_cases :
    (parse : String → Parsed) (retry_after : Option String)
    → (is_nan parse retry_after ≡ true) × (header_delay parse retry_after ≡ err invalid_operation)
      ⊎ (delay : Option ℕ) × (is_nan parse retry_after ≡ false)
        × (header_delay parse retry_after ≡ ok delay)
header_cases parse none = inr (none, refl, refl)
header_cases parse (some text) =
    elim (parse text)
      as (λ parsed.
        let nan : Bool = elim parsed [ not_a_number ↦ true | _ ↦ false ] in
        (nan ≡ true) × (parsed_delay parsed ≡ err invalid_operation)
        ⊎ (delay : Option ℕ) × (nan ≡ false) × (parsed_delay parsed ≡ ok delay)) [
          | no_number ↦ inr (none, refl, refl)
          | not_a_number ↦ inl (refl, refl)
          | no_delay ↦ inr (none, refl, refl)
          | seconds delay ↦ inr (some delay, refl, refl)
        ]

-- From the last attempt on a decision is not to retry. Before it, a decision raises
-- `InvalidOperation` where `Retry-After` is a NaN, and asks for a retry after a delay within the
-- maximum otherwise; of two such attempts, with one jitter and no `Retry-After`, the later one waits
-- at least as long. The attempts count from 1.
pub decision_bounded :
    (parse : String → Parsed) (policy : RetryPolicy) (a b last jitter : ℕ)
    (retry_after : Option String)
    → 1 ≤ a
    → a ≤ b
    → b < policy.maximum_attempts
    → policy.maximum_attempts ≤ last
    → (decision parse policy last retry_after jitter
        ≡ ok (record { should_retry = false; delay_seconds = 0 }))
      × ((is_nan parse retry_after ≡ true)
            × (decision parse policy a retry_after jitter ≡ err invalid_operation)
          ⊎ (d : RetryDecision) × (decision parse policy a retry_after jitter ≡ ok d)
            × (is_nan parse retry_after ≡ false)
            × (d.should_retry ≡ true)
            × (d.delay_seconds ≤ policy.maximum_delay_seconds))
      × ((answer (decision parse policy a none jitter)).delay_seconds
          ≤ (answer (decision parse policy b none jitter)).delay_seconds)
unfolding decision
decision_bounded parse policy a b last jitter retry_after one order before end = (
  ground arith,
  elim (header_cases parse retry_after) [
    | inl (nan, raises) ↦ inl (nan, ground arith)
    | inr (delay, usable, read) ↦ inr (
      record {
        should_retry = true;
        delay_seconds = min (delay_or delay (backoff policy a jitter)) policy.maximum_delay_seconds;
      },
      ground arith,
      usable,
      refl,
      ground arith,
    )
  ],
  ground (arith, backoff_grows policy a b jitter order),
)
