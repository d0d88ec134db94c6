-- ===== src/Evaluation/Lifecycle.antt =====
-- The runs of the evaluation store (src/commerce_agent/evaluation/_memory.py): any calls of its
-- methods, one after the other.
use commerce_analyst_agent.Prelude.{String, Option, nat_eq, string_eq, pair_eq}
use commerce_analyst_agent.Prelude.Dict.{get}
use commerce_analyst_agent.Operations.Contracts.{Instant, Uuid}
use commerce_analyst_agent.Evaluation.{
  AttemptRecord, EpisodeResult, EvalTaskStatus, EvaluationStore, empty, finish_attempt,
  mark_running, mode_eq, record_result, register_attempt, register_experiment, merge_telemetry,
}
use commerce_analyst_agent.Evaluation.Keeping.{
  IsSound, Keeps, Good, unchanged, both, register_experiment-Good, register_attempt-Good,
  mark_running-Good, merge_telemetry-Good, record_result-Good, finish_attempt-Good,
}

module _ {T : Type 0} where
  -- One call of the store's methods, which may raise.
  pub data Step (P : Type 0) (s : EvaluationStore T) : EvaluationStore T → Type 0 where
    experiment_step : (i p c : String) → Step P s (register_experiment i p c s).1
    attempt_step : (new : AttemptRecord T) → Step P s (register_attempt new s).1
    running_step : (k : Uuid) (expected : EvalTaskStatus) → Step P s (mark_running k expected s).1
    finish_step :
        (k : Uuid) (status : EvalTaskStatus) (error_class : Option String) (now : Instant)
        (telemetry : T) (result : Option EpisodeResult)
        → Step P s (finish_attempt k status error_class now telemetry result s).1
    merge_step :
        (validate : T → P → Option T) (k : Uuid) (patch : P)
        → Step P s (merge_telemetry validate k patch s).1
    result_step : (k : Uuid) (result : EpisodeResult) → Step P s (record_result k result s).1

  pub data Run (P : Type 0) (s : EvaluationStore T) : EvaluationStore T → Type 0 where
    here : Run P s s
    next : (t u : EvaluationStore T) → Run P s t → Step P t u → Run P s u

  Step-Good : {P : Type 0} (s t : EvaluationStore T) → IsSound s → Step P s t → Good s t
  Step-Good s _ sound (experiment_step i p c) = register_experiment-Good s i p c sound
  Step-Good s _ sound (attempt_step new) = register_attempt-Good s new sound
  Step-Good s _ sound (running_step k expected) = mark_running-Good s k expected sound
  Step-Good s _ sound (finish_step k status error_class now telemetry result) =
      finish_attempt-Good s k status error_class now telemetry result sound
  Step-Good s _ sound (merge_step validate k patch) = merge_telemetry-Good validate s k patch sound
  Step-Good s _ sound (result_step k result) = record_result-Good s k result sound

  Run-Good : {P : Type 0} (s t : EvaluationStore T) → IsSound s → Run P s t → Good s t
  Run-Good s _ sound here = unchanged s sound
  Run-Good s u sound (next t _ earlier step) =
      let before = Run-Good s t sound earlier in both s t u before (Step-Good t u before.0 step)

-- Whatever calls are made of an empty store, and whichever of them raise, every attempt stands
-- under its own identity and only attempts that succeeded have a result.
pub Run-IsSound : (T P : Type 0) (s : EvaluationStore T) → Run P (empty T) s → IsSound s
Run-IsSound T P s run =
    (Run-Good (empty T) s
      (record {
        keyed = λ k r h. absurd (unfold get in cc h);
        earned = λ k e h. absurd (unfold get in cc h);
      })
      run).0

-- No calls change the status of an attempt that succeeded or failed, or remove or replace a
-- recorded result.
pub Run-Keeps : {T P : Type 0} (s t : EvaluationStore T) → IsSound s → Run P s t → Keeps s t
Run-Keeps s t sound run = (Run-Good s t sound run).1
