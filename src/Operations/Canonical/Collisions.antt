-- ===== src/Operations/Canonical/Collisions.antt =====
-- What the canonical form keeps of a ratio (src/commerce_agent/operations/_canonical.py).
use commerce_analyst_agent.Prelude.{
  ℕ, zero, suc, ◌+◌, ◌*◌, ◌^◌, ◌-◌, ◌≤◌, ◌<◌, ◌≡◌, Bool, false, some, ap, arith,
}
use commerce_analyst_agent.Prelude.Outcome.{ok}
use native.Mathlib.Nat.{div-add-mod, mod-lt}
use commerce_analyst_agent.Operations.Contracts.{Ratio, Versions}
use commerce_analyst_agent.Operations.Commands.{
  Decimal, validate_finite_decimal, CreateAndEnableMetricAlertRule, OperationCommand,
  create_and_enable_metric_alert_rule,
}
use commerce_analyst_agent.Operations.Ports.{Ports}
use commerce_analyst_agent.Operations.Canonical.{
  PyValue, canonical_payload, canonical_command, command_projection, normalized_decimal,
  normalized_ratio, quantize,
}

same_places :
    (coefficient scale : ℕ)
    → scale ≤ 6
    → quantize (coefficient * 10 ^ 4) (10 ^ scale) ≡ quantize (coefficient * 10 ^ (6 - scale)) 100
unfolding quantize
same_places c zero h = ground arith
same_places c (suc zero) h = ground arith
same_places c (suc (suc zero)) h = ground arith
same_places c (suc (suc (suc zero))) h = ground arith
same_places c (suc (suc (suc (suc zero)))) h = ground arith
same_places c (suc (suc (suc (suc (suc zero))))) h = ground arith
same_places c (suc (suc (suc (suc (suc (suc zero)))))) h = ground arith
same_places c (suc (suc (suc (suc (suc (suc (suc s))))))) h = absurd (omega (arith, h))

accepted :
    (negative : Bool) (coefficient scale : ℕ) (value : Ratio)
    → validate_finite_decimal (Decimal.finite negative coefficient scale) ≡ some value
    → (scale ≤ 6) × (coefficient ≤ 10 ^ scale) × (value ≡ coefficient * 10 ^ (6 - scale))
unfolding validate_finite_decimal
accepted negative coefficient scale value h = ground arith

few_places :
    (coefficient scale : ℕ)
    → scale ≤ 6
    → coefficient ≤ 10 ^ scale
    → quantize (coefficient * 10 ^ 4) (10 ^ scale) < 10 ^ 28
unfolding quantize
few_places c zero h k = ground arith
few_places c (suc zero) h k = ground arith
few_places c (suc (suc zero)) h k = ground arith
few_places c (suc (suc (suc zero))) h k = ground arith
few_places c (suc (suc (suc (suc zero)))) h k = ground arith
few_places c (suc (suc (suc (suc (suc zero))))) h k = ground arith
few_places c (suc (suc (suc (suc (suc (suc zero)))))) h k = ground arith
few_places c (suc (suc (suc (suc (suc (suc (suc s))))))) h k = absurd (omega (arith, h))

abbrev pub is_signed : Decimal → Bool
is_signed (Decimal.finite negative coefficient scale) = negative
is_signed _ = false

-- A decimal that the commands' validator accepts is normalised without an error, to the text of the
-- value that the validator finds, rounded to four places, with the decimal's sign.
pub normalized_decimal_accepts :
    (p : Ports) (d : Decimal) (value : Ratio)
    → validate_finite_decimal d ≡ some value
    → normalized_decimal p d ≡ ok (p.format_4f (is_signed d) (quantize value 100))
unfolding normalized_decimal validate_finite_decimal
normalized_decimal_accepts p Decimal.nan value h = cc
normalized_decimal_accepts p Decimal.infinite value h = cc
normalized_decimal_accepts p (Decimal.finite negative coefficient scale) value h =
    let (few, below, own) = accepted negative coefficient scale value h in
    rw own
      (ground (arith, same_places coefficient scale few, few_places coefficient scale few below))

-- `quantize` rounds to a nearest multiple: twice the distance is at most one divisor.
pub quantize_nearest :
    (value divisor : ℕ)
    → 0 < divisor
    → (2 * (quantize value divisor * divisor) ≤ 2 * value + divisor)
      × (2 * value ≤ 2 * (quantize value divisor * divisor) + divisor)
unfolding quantize
quantize_nearest value divisor h = grind (arith, div-add-mod value divisor, mod-lt value h)

-- The payload sees a command through its projection.
same_projection :
    (p : Ports) (a b : OperationCommand) (versions : Versions)
    → command_projection p a ≡ command_projection p b
    → canonical_command p a versions ≡ canonical_command p b versions
unfolding canonical_command
same_projection p a b versions h = ap (λ (v : PyValue). canonical_payload p v versions) h

-- Two alert rules that differ in their thresholds only have one canonical payload, and so one
-- digest, where the thresholds round to the same four places.
pub threshold_collision :
    (p : Ports) (c : CreateAndEnableMetricAlertRule) (threshold : Ratio) (versions : Versions)
    → quantize threshold 100 ≡ quantize c.threshold 100
    → canonical_command p
        (create_and_enable_metric_alert_rule (record c { threshold = threshold }))
        versions
      ≡ canonical_command p (create_and_enable_metric_alert_rule c) versions
threshold_collision p c threshold versions h =
    same_projection p _ _ versions (unfold command_projection normalized_ratio in cc h)
