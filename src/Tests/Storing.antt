-- ===== src/Tests/Storing.antt =====
-- The theorems on the stores of attempts, traces and turns and on retries, applied.
use commerce_analyst_agent.Prelude.{
  ℕ, ◌+◌, ◌≡◌, ◌⊎◌, ◌==◌, if◌then◌else◌, ◌≤◌, ◌<◌, refl, String, true, false, none, some, List, [],
  ◌∷◌, arith, nat_eq, string_eq, pair_eq,
}
use commerce_analyst_agent.Prelude.Dict.{get, put}
use commerce_analyst_agent.Prelude.Outcome.{ok, err}
use commerce_analyst_agent.Operations.Contracts.{days, hours}
use commerce_analyst_agent.Evaluation.{
  AttemptRecord, EpisodeResult, EvalTaskStatus, EvaluationStore, Mode, empty, finish_attempt,
  mark_running, register_attempt, status_transition_conflict,
}
use commerce_analyst_agent.Evaluation.Keeping as Keeping
use commerce_analyst_agent.Evaluation.Lifecycle as Lifecycle
use commerce_analyst_agent.Evaluation.Lifecycle.{Run-IsSound, Run-Keeps}
use commerce_analyst_agent.Evaluation.Finishing.{finish_attempt_once}
use commerce_analyst_agent.Trace.{ScopedTraceEvent, TraceEventType, TraceStatus, events}
use commerce_analyst_agent.Trace.Sequence.{
  IsTrace, append_all, append_all-IsTrace, append_all-IsExtended, IsExtended,
}
use commerce_analyst_agent.Operations.Ports.{Json, JsonItems}
use commerce_analyst_agent.Retry.{
  Parsed, RetryDecision, RetryPolicy, decision, invalid_operation, no_number, not_a_number,
}
use commerce_analyst_agent.Retry.Backoff.{answer, decision_bounded, is_nan}
use commerce_analyst_agent.Turns.{
  AttemptRef, PrivateProviderTurn, TurnPorts, TurnStore, delete_attempt, is_of, payload_sha256,
  ref_of, renewed, resolve, save,
}
use commerce_analyst_agent.Turns.Lifetime as Lifetime
use commerce_analyst_agent.Turns.Lifetime.{
  calls-IsSound, delete_attempt_lem, resolve-save, resolve_sound,
}

abbrev attempt : AttemptRecord ℕ
attempt = record {
  attempt_id = 5;
  run_id = 6;
  experiment_id = "pilot";
  task_id = "t1";
  mode = Mode.c;
  attempt_seq = 1;
  status = EvalTaskStatus.pending;
  error_class = none;
  started_at = 0;
  finished_at = none;
  telemetry = 0;
}

abbrev won : EpisodeResult
won = record {
  reward = some 1;
  phase1_passed = some true;
  phase2_passed = none;
  rounds = some 3;
  tool_calls = none;
  submit_count = none;
}

abbrev registered : EvaluationStore ℕ
registered = (register_attempt attempt (empty ℕ)).1

abbrev busy : EvaluationStore ℕ
busy = (mark_running 5 EvalTaskStatus.pending registered).1

abbrev finished : EvaluationStore ℕ
finished = (finish_attempt 5 EvalTaskStatus.succeeded none 9 1 (some won) busy).1

to_busy : Lifecycle.Run ℕ (empty ℕ) busy
to_busy =
    Lifecycle.Run.next registered busy
      (Lifecycle.Run.next (empty ℕ) registered Lifecycle.Run.here
        (Lifecycle.Step.attempt_step attempt))
      (Lifecycle.Step.running_step 5 EvalTaskStatus.pending)

to_finished : Lifecycle.Run ℕ busy finished
to_finished =
    Lifecycle.Run.next busy finished Lifecycle.Run.here
      (Lifecycle.Step.finish_step 5 EvalTaskStatus.succeeded none 9 1 (some won))

Run-IsSound_example : Keeping.IsSound busy
Run-IsSound_example = Run-IsSound ℕ ℕ busy to_busy

Run-Keeps_example : Keeping.Keeps busy finished
Run-Keeps_example = Run-Keeps busy finished Run-IsSound_example to_finished

wins : (finish_attempt 5 EvalTaskStatus.succeeded none 9 1 (some won) busy).0 ≡ ok tt
unfolding finish_attempt mark_running register_attempt get put
wins = refl

finish_attempt_once_example :
    finish_attempt 5 EvalTaskStatus.failed (some "late") 10 2 none finished
    ≡ (err status_transition_conflict, finished)
finish_attempt_once_example =
    finish_attempt_once busy 5 EvalTaskStatus.succeeded EvalTaskStatus.failed none (some "late") 9
      10 1 2 (some won) none Run-IsSound_example refl wins

abbrev event_at : ℕ → ScopedTraceEvent
event_at sequence = record {
  run_scope = 1;
  attempt_id = 2;
  phase = "plan";
  sequence = sequence;
  occurred_at = 0;
  node = "node";
  event_type = TraceEventType.sql_generated;
  status = TraceStatus.succeeded;
  decision_summary = some (record { code = "code"; text = "a fine summary" });
  prompt_policy_hash = none;
  rendered_prompt_hash = none;
  model_hash = none;
  tool_hash = none;
  context_hash = none;
  config_hash = "hash";
  usage = none;
  cost = none;
  evidence = [];
  query_fingerprints = [];
  reason_code = none;
  proposal_ref = none;
  execution_ref = none;
  audit_ref = none;
}

-- Two events in order and one that is refused.
abbrev arriving : List ScopedTraceEvent
arriving = event_at 0 ∷ event_at 7 ∷ event_at 1 ∷ []

abbrev same_case : String → String
same_case text = text

none_yet : IsTrace same_case 1 2 0 (events 1 2 [])
unfolding events get
none_yet = IsTrace.done 0

append_all-IsTrace_example : IsTrace same_case 1 2 0 (events 1 2 (append_all same_case arriving []))
append_all-IsTrace_example = append_all-IsTrace same_case arriving [] 1 2 none_yet

append_all-IsExtended_example :
    IsExtended (events 1 2 []) (events 1 2 (append_all same_case arriving []))
append_all-IsExtended_example = append_all-IsExtended same_case arriving [] 1 2

abbrev turn_ports : TurnPorts
turn_ports = record {
  loads = λ text. some (Json.array JsonItems.nil);
  dumps = λ json. "[]";
  sha256_hex = λ text. text;
}

abbrev turn : PrivateProviderTurn
turn = record {
  scope_digest = "scope";
  attempt_id = 2;
  sequence = 0;
  provider = "deepseek";
  model = "m";
  content = none;
  reasoning_content = none;
  tool_calls_json = "[]";
  payload_sha256 = "[]";
  expected_tool_call_ids = [];
  token_weight = 3;
  created_at = 0;
  last_used_at = 0;
  absolute_expires_at = days 7;
}

saved : (save turn_ports 11 turn []).0 ≡ ok (ref_of 11 turn)
unfolding save payload_sha256
saved = refl

resolve-save_example :
    (resolve (ref_of 11 turn) 60 (save turn_ports 11 turn []).1).0 ≡ ok (renewed turn 60)
resolve-save_example =
    resolve-save turn_ports 11 turn 60 [] (ref_of 11 turn) saved (omega arith) (omega arith)

abbrev holding : TurnStore
holding = (save turn_ports 11 turn []).1

resolve_sound_example :
    (stored : PrivateProviderTurn) × (get holding 11 ≡ some stored)
    × (renewed turn 60 ≡ renewed stored 60)
    × (ref_of 11 turn ≡ ref_of 11 stored)
    × (60 < stored.absolute_expires_at)
    × (60 ≤ stored.last_used_at + hours 24)
resolve_sound_example =
    resolve_sound (ref_of 11 turn) 60 holding (renewed turn 60) resolve-save_example

nothing_held : Lifetime.IsSound turn_ports []
unfolding get
nothing_held = record { distinct = λ k j t u there. cc there; genuine = λ k t there. cc there }

calls-IsSound_example : Lifetime.IsSound turn_ports holding
calls-IsSound_example =
    calls-IsSound turn_ports [] holding nothing_held
      (Lifetime.Run.next [] holding Lifetime.Run.here (Lifetime.Step.save_step 11 turn))

-- An attempt other than the one of the turn that is held.
abbrev other_attempt : AttemptRef
other_attempt = record { scope_digest = "scope"; attempt_id = 3 }

still_there : get (delete_attempt other_attempt holding) 11 ≡ some turn
unfolding delete_attempt save payload_sha256 get put
still_there = refl

delete_attempt_lem_example : (is_of other_attempt turn ≡ false) × (get holding 11 ≡ some turn)
delete_attempt_lem_example = delete_attempt_lem other_attempt holding 11 turn still_there

abbrev policy : RetryPolicy
policy = record { base_delay_seconds = 1; maximum_delay_seconds = 60; maximum_attempts = 3 }

abbrev read : String → Parsed
read text = if text == "NaN" then not_a_number else no_number

decision_bounded_example :
    (decision read policy 3 (some "NaN") 1
      ≡ ok (record { should_retry = false; delay_seconds = 0 }))
    × ((is_nan read (some "NaN") ≡ true)
          × (decision read policy 1 (some "NaN") 1 ≡ err invalid_operation)
        ⊎ (d : RetryDecision) × (decision read policy 1 (some "NaN") 1 ≡ ok d)
          × (is_nan read (some "NaN") ≡ false)
          × (d.should_retry ≡ true)
          × (d.delay_seconds ≤ 60))
    × ((answer (decision read policy 1 none 1)).delay_seconds
        ≤ (answer (decision read policy 2 none 1)).delay_seconds)
decision_bounded_example =
    decision_bounded read policy 1 2 3 1 (some "NaN") (omega arith) (omega arith) (omega arith)
      (omega arith)
