-- ===== src/LiveState/Runs.antt =====
-- The interleavings of the indexer's threads: any steps of the live hand-off, in any order and from any
-- generation. A pair of sections that one call holds in turn is two steps.
use polymarket_cpp_client.Prelude.{ℕ, Bool, List, [], ◌∷◌, Bytes}
use polymarket_cpp_client.EventLog.{EvmLog}
use polymarket_cpp_client.LiveState.{LiveState}
use polymarket_cpp_client.LiveState.Steps.{
  clear_live, begin_start, finish_start, stop, handle_live_log, handle_live_head, handle_live_error,
  schedule_overlap_recovery, enqueue_log, take_delivery, drain_live_buffer, start_durable,
  note_durable, begin_reconcile, report_reconciliation_failure, end_reconcile,
  shutdown_reconciliation_worker, shutdown_delivery_worker,
}

pub data Step : Type 0 where
  begins_start fails_start stops takes begins_reconcile ends_reconcile : Step
  shuts_reconciliation shuts_delivery : Step
  finishes_start recovers drains starts_durable : ℕ → Step
  handles_log : EvmLog → ℕ → Step
  handles_head notes_durable : ℕ → ℕ → Step
  handles_error : Bytes → Bool → ℕ → Step
  enqueues : EvmLog → Bool → ℕ → Step
  reports_failure : ℕ → Bool → Step

unfoldable pub step : Step → LiveState → LiveState
step begins_start state = begin_start state
step fails_start state = clear_live state
step stops state = stop state
step takes state = (take_delivery state).0
step begins_reconcile state = (begin_reconcile state).0
step ends_reconcile state = end_reconcile state
step shuts_reconciliation state = shutdown_reconciliation_worker state
step shuts_delivery state = shutdown_delivery_worker state
step (finishes_start generation) state = finish_start generation state
step (recovers generation) state = schedule_overlap_recovery generation state
step (drains generation) state = (drain_live_buffer generation state).0
step (handles_log log generation) state = (handle_live_log log generation state).0
step (handles_head block generation) state = handle_live_head block generation state
step (starts_durable durable) state = start_durable durable state
step (notes_durable generation durable) state = note_durable generation durable state
step (handles_error error is_gap generation) state = handle_live_error error is_gap generation state
step (enqueues log live generation) state = (enqueue_log log live generation state).0
step (reports_failure generation overlap) state =
    report_reconciliation_failure generation overlap state

unfoldable pub run_steps : List Step → LiveState → LiveState
run_steps [] state = state
run_steps (s ∷ steps) state = run_steps steps (step s state)
