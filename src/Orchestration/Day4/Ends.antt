-- ===== src/Orchestration/Day4/Ends.antt =====
-- How an investigation is kept and ended (src/commerce_agent/orchestration/retail_graph.py):
-- `_save_day4_state`, `_cache_and_finish`, `_finish_day4`, `_restore_day4_outcome`.
use commerce_analyst_agent.Prelude.{true, false, Option, none, some}
use commerce_analyst_agent.Prelude.Outcome.{ok, err, Method, ◌>>>=◌}
use commerce_analyst_agent.RunErrors.{RunError}
use commerce_analyst_agent.Orchestration.{
  RetailRunOutcome, RetailRunRequest, RetailTerminal, RunStatus, StopOutcome, clarification,
  completed, needs_input, stopped,
}
use commerce_analyst_agent.Orchestration.Retail.Nodes.{attempt_of}
use commerce_analyst_agent.Orchestration.Day4.{
  Day4Graph, Day4Method, Day4State, complete, day4_outcome, finalize, stopped_day4,
}

-- A call that acts on the world only.
abbrev pub lift : {W A : Type 0} → Method RunError W A → Day4Method W A
lift m k = ((m k.world).0, record k { world = (m k.world).1 })

abbrev pub persisted : Day4State → RetailRunOutcome → Day4State
persisted s desired = record s {
  current_node = finalize;
  model_call_count = desired.model_calls;
  tool_call_count = desired.tool_calls;
  hashes = desired.hashes;
  terminal = desired.terminal;
  stop_reason = desired.stop;
  cleanup_complete = false;
}

abbrev pub status_of : Option StopOutcome → Option RetailTerminal → RunStatus
status_of (some stop) terminal = stopped
status_of none (some (clarification request)) = needs_input
status_of none _ = completed

-- `_restore_day4_outcome`
unfoldable pub restore_outcome : RetailRunRequest → Day4State → RetailRunOutcome
restore_outcome request s =
    day4_outcome request (status_of s.stop_reason s.terminal) s.terminal s.stop_reason
      s.model_call_count s.tool_call_count s.hashes

abbrev pub cleaned_state : Day4State → Day4State
cleaned_state s = record s { cleanup_complete = true; current_node = complete }

module _ {W : Type 0} (g : Day4Graph W) where
  -- `_save_day4_state`; a write that raises keeps the checkpoint before it.
  unfoldable pub save_state : Day4State → Day4Method W (Unit {0})
  save_state s k = elim (g.update_state s k.world).0 [
    | ok done ↦ (ok tt, record { world = (g.update_state s k.world).1; saved = some s })
    | err e ↦ (err e, record { world = (g.update_state s k.world).1; saved = k.saved })
  ]

  -- The update of the checkpoint after the cleanup; `_finish_day4` always finds one.
  abbrev pub mark_cleaned : RetailRunOutcome → Option Day4State → Day4Method W RetailRunOutcome
  mark_cleaned desired none = λ k. (ok desired, k)
  mark_cleaned desired (some s) = save_state (cleaned_state s) >>>= λ done k. (ok desired, k)

  abbrev pub cleanup_failed : RetailRunRequest → RetailRunOutcome → RetailRunOutcome
  cleanup_failed request desired =
      stopped_day4 request "private_turn_cleanup_failed" desired.model_calls desired.tool_calls
        desired.hashes true

  -- `_finish_day4`
  unfoldable pub finish_day4 : RetailRunRequest → RetailRunOutcome → Day4Method W RetailRunOutcome
  finish_day4 request desired k =
      let deleted = lift (g.graph.delete_attempt (attempt_of g.graph request)) k in
      elim deleted.0 [
        | err e ↦ (ok (cleanup_failed request desired), deleted.1)
        | ok done ↦ mark_cleaned desired k.saved deleted.1
      ]

  -- `_cache_and_finish`
  unfoldable pub cache_and_finish :
      RetailRunRequest → RetailRunOutcome → Day4State → Day4Method W RetailRunOutcome
  cache_and_finish request desired s =
      save_state (persisted s desired) >>>= λ done. finish_day4 request desired
