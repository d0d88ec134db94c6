-- ===== src/Evaluation/Finishing.antt =====
-- The end of an attempt (src/commerce_agent/evaluation/_memory.py).
use commerce_analyst_agent.Prelude.{
  ◌≡◌, refl, ap, ◌∙◌, String, false, none, some, inl, inr, arith, Option, Option-cases, nat_eq,
  string_eq, pair_eq,
}
use commerce_analyst_agent.Prelude.Dict.{get, put, get-put_self}
use commerce_analyst_agent.Prelude.Outcome.{ok, err}
use commerce_analyst_agent.Operations.Contracts.{Instant, Uuid}
use commerce_analyst_agent.Evaluation.{
  AttemptRecord, EpisodeResult, EvalTaskStatus, EvaluationStore, finish_attempt, is_running,
  mode_eq, put_result, status_transition_conflict,
}
use commerce_analyst_agent.Evaluation.Keeping.{IsSound, finished}

module _ {T : Type 0} where
  put_result_attempts :
      (k : Uuid) (result : Option EpisodeResult) (s : EvaluationStore T)
      → (put_result k result s).attempts ≡ s.attempts
  put_result_attempts k none s = refl
  put_result_attempts k (some r) s = refl

  finished_status :
      (s : EvaluationStore T) (k : Uuid) (status : EvalTaskStatus) (error_class : Option String)
      (now : Instant) (telemetry : T) (result : Option EpisodeResult)
      → IsSound s
      → (finish_attempt k status error_class now telemetry result s).0 ≡ ok tt
      → (r : AttemptRecord T) × (get
            (finish_attempt k status error_class now telemetry result s).1.attempts
            k
          ≡ some r)
        × (r.status ≡ status)
  unfolding finish_attempt
  finished_status s k status error_class now telemetry result sound h =
      elim (Option-cases (get s.attempts k)) [
        | inl absent ↦ absurd (ground arith)
        | inr (r, there) ↦
            let new = finished r status error_class now telemetry in
            let t = record s { attempts = put s.attempts r.attempt_id new } in
            (
              new,
              ground (
                arith,
                put_result_attempts k result t,
                sound.keyed k r there,
                get-put_self s.attempts k new,
              ),
              refl,
            )
      ]

  finish_blocked :
      (t : EvaluationStore T) (k : Uuid) (r : AttemptRecord T) (status : EvalTaskStatus)
      (error_class : Option String) (now : Instant) (telemetry : T) (result : Option EpisodeResult)
      → get t.attempts k ≡ some r
      → is_running r.status ≡ false
      → finish_attempt k status error_class now telemetry result t
        ≡ (err status_transition_conflict, t)
  unfolding finish_attempt
  finish_blocked t k r status error_class now telemetry result there stopped = ground arith

-- A running attempt that is finished with a status that is not running cannot be finished again:
-- the second call raises `status_transition_conflict` and changes nothing.
pub finish_attempt_once :
    {T : Type 0} (s : EvaluationStore T) (k : Uuid) (status second : EvalTaskStatus)
    (error_class error_again : Option String) (now later : Instant) (telemetry again : T)
    (result result_again : Option EpisodeResult)
    → IsSound s
    → is_running status ≡ false
    → (finish_attempt k status error_class now telemetry result s).0 ≡ ok tt
    → let t = (finish_attempt k status error_class now telemetry result s).1 in
      finish_attempt k second error_again later again result_again t
      ≡ (err status_transition_conflict, t)
finish_attempt_once s k status second error_class error_again now later telemetry again result
      result_again sound stopped h =
    let r = finished_status s k status error_class now telemetry result sound h in
    finish_blocked (finish_attempt k status error_class now telemetry result s).1 k r.0 second
      error_again later again result_again r.1 (ap is_running r.2 ∙ stopped)
