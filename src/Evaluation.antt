-- ===== src/Evaluation.antt =====
-- src/commerce_agent/evaluation: the store of the evaluation runner's attempts (_memory.py) and its
-- records (contracts.py). The telemetry of an attempt and the patches of it are types of the model's
-- parameters, since the store only passes them on; `AttemptTelemetry.model_validate(dump | patch)`
-- is a parameter of the one operation that calls it. The lock makes each method one step.

use Prim.Native.String.{compare}
use text.Mathlib.Text.{is_le}
pub mod Keeping
pub mod Lifecycle
pub mod Finishing
use commerce_analyst_agent.Prelude.{
  ℕ, String, Bool, true, false, not, ◌&&◌, ◌||◌, Option, none, some, List, [], ◌∷◌, nat_beq, ltb,
  if◌then◌else◌, any, contains, ◌==◌, nat_eq, string_eq, pair_eq, Eq, ◌↔◌, ◌≡◌, arith,
}
use commerce_analyst_agent.Prelude.Dict.{Dict, get, put, values}
use commerce_analyst_agent.Prelude.Outcome.{ok, err, Method}
use commerce_analyst_agent.Operations.Contracts.{Instant, Uuid}

pub data EvalTaskStatus : Type 0 where
  pending running succeeded failed infrastructure_error interrupted : EvalTaskStatus

abbrev pub is_pending : EvalTaskStatus → Bool
is_pending EvalTaskStatus.pending = true
is_pending _ = false

abbrev pub is_running : EvalTaskStatus → Bool
is_running EvalTaskStatus.running = true
is_running _ = false

abbrev pub is_succeeded : EvalTaskStatus → Bool
is_succeeded EvalTaskStatus.succeeded = true
is_succeeded _ = false

-- `status in TERMINAL_STATUSES`
abbrev pub is_terminal : EvalTaskStatus → Bool
is_terminal EvalTaskStatus.succeeded = true
is_terminal EvalTaskStatus.failed = true
is_terminal _ = false

-- `mode: Literal["c", "a"]`
pub data Mode : Type 0 where
  c a : Mode

abbrev pub mode_rank : Mode → ℕ
mode_rank Mode.a = 0
mode_rank Mode.c = 1

abbrev pub mode_beq : Mode → Mode → Bool
mode_beq m n = nat_beq (mode_rank m) (mode_rank n)

pub mode_beq_iff : (m n : Mode) → (mode_beq m n ≡ true) ↔ (m ≡ n)
mode_beq_iff m n = (λ h. ground arith, λ h. ground arith)

instance abbrev pub mode_eq : Eq Mode
mode_eq = record { test = mode_beq; test_iff = mode_beq_iff }

-- The reason codes of `EvalStateConflict`.
pub data EvalStateConflict : Type 0 where
  experiment_identity_conflict attempt_identity_conflict attempt_sequence_conflict :
      EvalStateConflict
  status_transition_conflict succeeded_requires_no_error_class : EvalStateConflict
  result_requires_succeeded_attempt result_already_recorded attempt_not_found : EvalStateConflict
  -- pydantic's `ValidationError` from `AttemptTelemetry.model_validate`
  validation_error : EvalStateConflict

pub record AttemptRecord (T : Type 0) : Type 0 where
  pub attempt_id : Uuid
  pub run_id : Uuid
  pub experiment_id : String
  pub task_id : String
  pub mode : Mode
  pub attempt_seq : ℕ
  pub status : EvalTaskStatus
  pub error_class : Option String
  pub started_at : Instant
  pub finished_at : Option Instant
  pub telemetry : T

-- A reward is a number of the grader's smallest unit.
pub record EpisodeResult : Type 0 where
  pub reward : Option ℕ
  pub phase1_passed : Option Bool
  pub phase2_passed : Option Bool
  pub rounds : Option ℕ
  pub tool_calls : Option ℕ
  pub submit_count : Option ℕ

-- `InMemoryEvaluationStore`
pub record EvaluationStore (T : Type 0) : Type 0 where
  pub experiments : Dict String (String × String)
  pub attempts : Dict Uuid (AttemptRecord T)
  pub results : Dict Uuid EpisodeResult

abbrev pub empty : (T : Type 0) → EvaluationStore T
empty T = record { experiments = []; attempts = []; results = [] }

abbrev pub EvalMethod : Type 0 → Type 0 → Type 0
EvalMethod T A = Method EvalStateConflict (EvaluationStore T) A

abbrev pub is_some : {A : Type 0} → Option A → Bool
is_some none = false
is_some (some _) = true

module _ {T : Type 0} where
  unfoldable pub register_experiment : String → String → String → EvalMethod T (Unit {0})
  register_experiment experiment_id purpose config_hash s = elim (get s.experiments experiment_id) [
    | some existing ↦
        if not (existing == (purpose, config_hash))
        then (err experiment_identity_conflict, s)
        else (ok tt, s)
    | none ↦
        (ok tt, record s { experiments = put s.experiments experiment_id (purpose, config_hash) })
  ]

  abbrev pub same_sequence : AttemptRecord T → AttemptRecord T → Bool
  same_sequence new existing =
      nat_beq existing.run_id new.run_id
      && (existing.task_id == new.task_id)
      && (existing.mode == new.mode)
      && nat_beq existing.attempt_seq new.attempt_seq

  unfoldable pub register_attempt : AttemptRecord T → EvalMethod T (Unit {0})
  register_attempt new s =
      if is_some (get s.attempts new.attempt_id)
      then (err attempt_identity_conflict, s)
      else if any (same_sequence new) (values s.attempts)
      then (err attempt_sequence_conflict, s)
      else (ok tt, record s { attempts = put s.attempts new.attempt_id new })

  unfoldable pub mark_running : Uuid → EvalTaskStatus → EvalMethod T (Unit {0})
  mark_running attempt_id expected_status s = elim (get s.attempts attempt_id) [
    | none ↦ (err status_transition_conflict, s)
    | some found ↦
        if not (is_pending found.status) || not (is_pending expected_status)
        then (err status_transition_conflict, s)
        else (
          ok tt,
          record s {
            attempts =
                put s.attempts found.attempt_id (record found { status = EvalTaskStatus.running });
          },
        )
  ]

  -- `self._results[attempt_id] = result`, where there is one
  abbrev pub put_result : Uuid → Option EpisodeResult → EvaluationStore T → EvaluationStore T
  put_result attempt_id none s = s
  put_result attempt_id (some result) s = record s { results = put s.results attempt_id result }

  -- The clock's reading comes before the telemetry.
  unfoldable pub finish_attempt :
      Uuid
      → EvalTaskStatus
      → Option String
      → Instant
      → T
      → Option EpisodeResult
      → EvalMethod T (Unit {0})
  finish_attempt attempt_id status error_class now telemetry result s =
      elim (get s.attempts attempt_id) [
        | none ↦ (err status_transition_conflict, s)
        | some found ↦
            if not (is_running found.status)
            then (err status_transition_conflict, s)
            else if is_some error_class && is_succeeded status
            then (err succeeded_requires_no_error_class, s)
            else if is_some result && not (is_succeeded status)
            then (err result_requires_succeeded_attempt, s)
            else if is_some result && is_some (get s.results attempt_id)
            then (err result_already_recorded, s)
            else (
              ok tt,
              put_result attempt_id result (record s {
                attempts = put s.attempts found.attempt_id (record found {
                  status = status;
                  error_class = error_class;
                  finished_at = some now;
                  telemetry = telemetry;
                });
              }),
            )
      ]

  abbrev completed_of : String → List (AttemptRecord T) → List (String × Mode)
  completed_of experiment_id [] = []
  completed_of experiment_id (r ∷ rest) =
      let done = completed_of experiment_id rest in
      if (r.experiment_id == experiment_id) && is_terminal r.status
      then (r.task_id, r.mode) ∷ done
      else done

  -- A `frozenset` is the list of its members.
  unfoldable pub completed_tasks : String → EvaluationStore T → List (String × Mode)
  completed_tasks experiment_id s = completed_of experiment_id (values s.attempts)

  unfoldable pub merge_telemetry :
      {Patch : Type 0} → (T → Patch → Option T) → Uuid → Patch → EvalMethod T (Unit {0})
  merge_telemetry model_validate attempt_id patch s = elim (get s.attempts attempt_id) [
    | none ↦ (err attempt_not_found, s)
    | some found ↦ elim (model_validate found.telemetry patch) [
      | none ↦ (err validation_error, s)
      | some merged ↦ (
        ok tt,
        record s { attempts = put s.attempts attempt_id (record found { telemetry = merged }) },
      )
    ]
  ]

  unfoldable pub record_result : Uuid → EpisodeResult → EvalMethod T (Unit {0})
  record_result attempt_id result s = elim (get s.attempts attempt_id) [
    | none ↦ (err result_requires_succeeded_attempt, s)
    | some found ↦
        if not (is_succeeded found.status)
        then (err result_requires_succeeded_attempt, s)
        else if is_some (get s.results attempt_id)
        then (err result_already_recorded, s)
        else (ok tt, record s { results = put s.results attempt_id result })
  ]

  -- `key not in latest or record.attempt_seq > latest[key].attempt_seq`
  abbrev pub is_later : AttemptRecord T → Option (AttemptRecord T) → Bool
  is_later r none = true
  is_later r (some held) = ltb held.attempt_seq r.attempt_seq

  abbrev pub latest_of :
      String
      → List (String × Mode)
      → List (AttemptRecord T)
      → Dict (String × Mode) (AttemptRecord T)
      → Dict (String × Mode) (AttemptRecord T)
  latest_of experiment_id completed [] latest = latest
  latest_of experiment_id completed (r ∷ rest) latest = latest_of experiment_id completed rest (
      if not (r.experiment_id == experiment_id) || contains (r.task_id, r.mode) completed
      then latest
      else if is_later r (get latest (r.task_id, r.mode))
      then put latest (r.task_id, r.mode) r
      else latest)

  -- `<=` on the sort keys: texts, then "a" before "c"
  abbrev key_leb : AttemptRecord T → AttemptRecord T → Bool
  key_leb x y =
      if x.task_id == y.task_id
      then not (ltb (mode_rank y.mode) (mode_rank x.mode))
      else is_le (compare x.task_id y.task_id)

  abbrev insert_record : AttemptRecord T → List (AttemptRecord T) → List (AttemptRecord T)
  insert_record r [] = r ∷ []
  insert_record r (x ∷ rest) = if key_leb r x then r ∷ x ∷ rest else x ∷ insert_record r rest

  abbrev pub sorted_records : List (AttemptRecord T) → List (AttemptRecord T)
  sorted_records [] = []
  sorted_records (r ∷ rest) = insert_record r (sorted_records rest)

  unfoldable pub unfinished_attempts : String → EvaluationStore T → List (AttemptRecord T)
  unfinished_attempts experiment_id s =
      sorted_records
        (values (latest_of experiment_id (completed_tasks experiment_id s) (values s.attempts) []))
