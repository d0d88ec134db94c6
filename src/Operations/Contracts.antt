-- ===== src/Operations/Contracts.antt =====
-- src/commerce_agent/operations/contracts.py: the immutable values of the workflow, and the
-- validators that relate several fields of one value.
-- A UUID is the number that it stands for. A datetime is aware, as every contract requires, and is
-- the number of microseconds since year 1 in UTC. A `Decimal` ratio of at most six places is a
-- number of millionths. The length and pattern limits of single fields are not modelled.
use commerce_analyst_agent.Prelude.{
  ℕ, ◌*◌, ◌≡◌, ◌↔◌, String, Bool, true, false, ◌&&◌, Option, none, some, List, arith, Eq, ◌==◌,
  string_eq, nat_beq, ltb,
}
use commerce_analyst_agent.Prelude.Dict.{Dict}
use text.Mathlib.TextEquality.{eq_iff}

abbrev pub Uuid : Type 0
Uuid = ℕ

abbrev pub Instant : Type 0
Instant = ℕ

abbrev pub Ratio : Type 0
Ratio = ℕ

abbrev pub one : Ratio
one = 1000000

-- `timedelta`, in microseconds
abbrev pub minutes : ℕ → ℕ
minutes n = n * 60 * 1000000

abbrev pub hours : ℕ → ℕ
hours n = minutes (n * 60)

abbrev pub days : ℕ → ℕ
days n = hours (n * 24)

pub data ActorRole : Type 0 where
  analyst approver data_admin : ActorRole

abbrev pub is_analyst : ActorRole → Bool
is_analyst ActorRole.analyst = true
is_analyst _ = false

abbrev pub is_approver : ActorRole → Bool
is_approver ActorRole.approver = true
is_approver _ = false

pub data ProposalStatus : Type 0 where
  pending approved rejected expired superseded : ProposalStatus

abbrev pub is_pending : ProposalStatus → Bool
is_pending ProposalStatus.pending = true
is_pending _ = false

abbrev pub is_approved : ProposalStatus → Bool
is_approved ProposalStatus.approved = true
is_approved _ = false

pub data ExecutionStatus : Type 0 where
  not_started succeeded failed_retryable failed_final : ExecutionStatus

-- `OPEN` is `opened`, a word that the language leaves free.
pub data InvestigationStatus : Type 0 where
  opened in_progress blocked resolved closed : InvestigationStatus

abbrev pub status_rank : InvestigationStatus → ℕ
status_rank InvestigationStatus.opened = 0
status_rank InvestigationStatus.in_progress = 1
status_rank InvestigationStatus.blocked = 2
status_rank InvestigationStatus.resolved = 3
status_rank InvestigationStatus.closed = 4

abbrev pub status_beq : InvestigationStatus → InvestigationStatus → Bool
status_beq a b = nat_beq (status_rank a) (status_rank b)

pub status_beq_iff : (a b : InvestigationStatus) → (status_beq a b ≡ true) ↔ (a ≡ b)
status_beq_iff a b = (λ h. ground arith, λ h. ground arith)

instance abbrev pub status_eq : Eq InvestigationStatus
status_eq = record { test = status_beq; test_iff = status_beq_iff }

pub data RiskDisposition : Type 0 where
  confirmed dismissed inconclusive : RiskDisposition

-- `risk_disposition.value`
abbrev pub disposition_value : RiskDisposition → String
disposition_value RiskDisposition.confirmed = "confirmed"
disposition_value RiskDisposition.dismissed = "dismissed"
disposition_value RiskDisposition.inconclusive = "inconclusive"

pub data AlertMetric : Type 0 where
  late_delivery_rate low_rating_rate cancellation_rate : AlertMetric

abbrev pub metric_value : AlertMetric → String
metric_value AlertMetric.late_delivery_rate = "late_delivery_rate"
metric_value AlertMetric.low_rating_rate = "low_rating_rate"
metric_value AlertMetric.cancellation_rate = "cancellation_rate"

pub data CalendarWindow : Type 0 where
  week month : CalendarWindow

abbrev pub window_value : CalendarWindow → String
window_value CalendarWindow.week = "week"
window_value CalendarWindow.month = "month"

pub data AlertComparator : Type 0 where
  greater_than greater_than_or_equal : AlertComparator

abbrev pub comparator_value : AlertComparator → String
comparator_value AlertComparator.greater_than = "greater_than"
comparator_value AlertComparator.greater_than_or_equal = "greater_than_or_equal"

pub record ActorContext : Type 0 where
  pub actor_id : Uuid
  pub role : ActorRole
  pub authentication_ref : String
  pub authenticated_at : Instant

pub record EvidenceRef : Type 0 where
  pub kind : String
  pub ref : String
  pub digest : String

abbrev pub evidence_beq : EvidenceRef → EvidenceRef → Bool
evidence_beq a b = (a.kind == b.kind) && (a.ref == b.ref) && (a.digest == b.digest)

pub evidence_beq_iff : (a b : EvidenceRef) → (evidence_beq a b ≡ true) ↔ (a ≡ b)
evidence_beq_iff a b = (
  λ h. ground (arith, eq_iff a.kind b.kind, eq_iff a.ref b.ref, eq_iff a.digest b.digest),
  λ h. ground (arith, eq_iff a.kind b.kind, eq_iff a.ref b.ref, eq_iff a.digest b.digest),
)

instance abbrev pub evidence_eq : Eq EvidenceRef
evidence_eq = record { test = evidence_beq; test_iff = evidence_beq_iff }

pub record ProposalRef : Type 0 where
  pub proposal_id : Uuid
  pub version : ℕ

abbrev pub proposal_ref_beq : ProposalRef → ProposalRef → Bool
proposal_ref_beq a b = nat_beq a.proposal_id b.proposal_id && nat_beq a.version b.version

pub proposal_ref_beq_iff : (a b : ProposalRef) → (proposal_ref_beq a b ≡ true) ↔ (a ≡ b)
proposal_ref_beq_iff a b = (λ h. ground arith, λ h. ground arith)

instance abbrev pub proposal_ref_eq : Eq ProposalRef
proposal_ref_eq = record { test = proposal_ref_beq; test_iff = proposal_ref_beq_iff }

pub record MetricRef : Type 0 where
  pub name : String
  pub revision : String

pub record SellerRef : Type 0 where
  pub namespace : String
  pub token : String

pub record InvestigationTaskRef : Type 0 where
  pub task_id : Uuid
  pub version : ℕ

pub record AlertBacktestRef : Type 0 where
  pub backtest_id : Uuid
  pub rule_spec_sha256 : String

pub record AlertHitRef : Type 0 where
  pub hit_id : Uuid
  pub evidence_digest : String

pub record AlertBacktestRequest : Type 0 where
  pub metric : AlertMetric
  pub metric_revision : String
  pub grain : String
  pub window : CalendarWindow
  pub comparator : AlertComparator
  pub threshold : Ratio
  pub minimum_denominator : ℕ
  pub started_at : Instant
  pub ended_at : Instant
  pub filter_refs : List String

pub record AlertWindowResult : Type 0 where
  pub window_started_at : Instant
  pub window_ended_at : Instant
  pub numerator : ℕ
  pub denominator : ℕ
  pub normalized_value : Option Ratio
  pub complete : Bool
  pub excluded_reason : Option String
  pub hit : Bool

pub record AlertBacktestSnapshot : Type 0 where
  pub backtest_ref : AlertBacktestRef
  pub request : AlertBacktestRequest
  pub windows : List AlertWindowResult
  pub completed_at : Instant

abbrev pub Versions : Type 0
Versions = Dict String ℕ

pub record CommandPreview : Type 0 where
  pub command_type : String
  pub title : String
  pub public_summary : String
  pub target_versions : Versions
  pub affected_rows : ℕ

pub record ExecutionGrant : Type 0 where
  pub proposal_id : Uuid
  pub proposal_version : ℕ
  pub payload_sha256 : String
  pub requester_id : Uuid
  pub approver_id : Uuid
  pub target_versions : Versions
  pub expires_at : Instant
  pub nonce : String
  pub key_version : ℕ
  pub signature : String

pub record ProposalSnapshot : Type 0 where
  pub proposal_ref : ProposalRef
  pub status : ProposalStatus
  pub requester_id : Uuid
  pub command_type : String
  pub payload_sha256 : String
  pub preview : CommandPreview
  pub created_at : Instant
  pub expires_at : Instant

-- `ProposalSnapshot.validate_time_range`
unfoldable pub validate_time_range : ProposalSnapshot → Bool
validate_time_range s = ltb s.created_at s.expires_at

pub data Decision : Type 0 where
  approve reject : Decision

pub record DecisionRequest : Type 0 where
  pub actor : ActorContext
  pub proposal_ref : ProposalRef
  pub decision : Decision
  pub reason : Option String

pub record DecisionReceipt : Type 0 where
  pub proposal_ref : ProposalRef
  pub status : ProposalStatus
  pub approver_id : Uuid
  pub decided_at : Instant
  pub reason : Option String
  pub grant : Option ExecutionGrant

abbrev pub grant_fits_status : ProposalStatus → Option ExecutionGrant → Bool
grant_fits_status ProposalStatus.approved (some _) = true
grant_fits_status ProposalStatus.rejected none = true
grant_fits_status _ _ = false

-- `DecisionReceipt.validate_grant_consistency`, with the two literals that `status` may be
unfoldable pub validate_grant_consistency : DecisionReceipt → Bool
validate_grant_consistency r = grant_fits_status r.status r.grant

pub record ExecuteRequest : Type 0 where
  pub actor : ActorContext
  pub grant : ExecutionGrant

pub record ExecutionReceipt : Type 0 where
  pub execution_id : Uuid
  pub proposal_ref : ProposalRef
  pub status : ExecutionStatus
  pub command_type : String
  pub before_version : ℕ
  pub after_version : ℕ
  pub committed_at : Instant
  pub public_summary : String
  pub audit_ref : String

-- `ExecutionReceipt.validate_version_advance`
unfoldable pub validate_version_advance : ExecutionReceipt → Bool
validate_version_advance r = ltb r.before_version r.after_version
