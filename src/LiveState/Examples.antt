-- ===== src/LiveState/Examples.antt =====
-- A hand-off that buffers a log, hears of a gap and is drained.
use polymarket_cpp_client.Prelude.{
  List, ℕ, Bytes, ◌≡◌, ◌⊎◌, ◌≤◌, ◌++◌, refl, true, false, [], ◌∷◌, codes, length,
}
use polymarket_cpp_client.Delivery.Examples.{transfer}
use polymarket_cpp_client.LiveState.{LiveState, evm_delivery_error_limit, new_live_state}
use polymarket_cpp_client.LiveState.Errors.{
  queue_all, last_run, empty_queue, total, queue_all-total,
}
use polymarket_cpp_client.LiveState.Steps.{enqueue_log}
use polymarket_cpp_client.LiveState.Runs.{
  begins_start, stops, takes, handles_log, drains, finishes_start, run_steps,
}
use polymarket_cpp_client.LiveState.Limits.{within_limits}
use polymarket_cpp_client.LiveState.Interleavings.{run_steps-within_limits}
use polymarket_cpp_client.LiveState.Recovery.{
  recovery_pending, IsRequested, may_serve, some_may_serve, enqueue_log-recovery_pending,
  run_steps-recovery_pending,
}

abbrev errors : List (ℕ × Bytes)
errors = (1, codes "a") ∷ (1, codes "b") ∷ (2, codes "a") ∷ (2, codes "a") ∷ []

second_generation : last_run 1 0 errors ≡ 2
unfolding last_run
second_generation = refl

queue_all-total_example :
    (length (queue_all errors (empty_queue 1)).errors ≤ evm_delivery_error_limit)
    × (total (queue_all errors (empty_queue 1)) ≡ last_run 1 0 errors)
queue_all-total_example = queue_all-total 1 errors

run_steps-within_limits_example :
    within_limits (
      run_steps
        (begins_start ∷ handles_log transfer 1 ∷ drains 1 ∷ takes ∷ stops ∷ [])
        new_live_state)
    ≡ true
run_steps-within_limits_example =
    run_steps-within_limits (begins_start ∷ handles_log transfer 1 ∷ drains 1 ∷ takes ∷ stops ∷ [])

abbrev starting : LiveState
starting = record {
  buffering = true;
  started = false;
  accepting_live = true;
  has_buffered_head = false;
  has_pending_head = false;
  refresh_head_pending = false;
  overlap_recovery_pending = false;
  handoff_gap_pending = false;
  worker_shutdown = false;
  delivery_shutdown = false;
  reconciliation_active = false;
  generation = 1;
  durable_through = 0;
  buffered_head = 0;
  pending_head = 0;
  pending_generation = 0;
  buffered_logs = [];
  historical_deliveries = [];
  live_deliveries = [];
  delivery_errors = [];
  coalesced_delivery_errors = 0;
  delivery_error_generation = 0;
}

enqueue_log-recovery_pending_example :
    ((enqueue_log transfer true 1 starting).0.live_deliveries
      ≡ starting.live_deliveries ++ record { log = transfer; live = true; generation = 1 } ∷ [])
    ⊎ ((recovery_pending (enqueue_log transfer true 1 starting).0 ≡ true)
        × IsRequested 1 (enqueue_log transfer true 1 starting).0)
enqueue_log-recovery_pending_example = enqueue_log-recovery_pending transfer 1 starting refl refl

abbrev with_gap : LiveState
with_gap = record starting { handoff_gap_pending = true }

run_steps-recovery_pending_example :
    recovery_pending (run_steps (handles_log transfer 1 ∷ takes ∷ finishes_start 1 ∷ []) with_gap)
    ≡ true
unfolding some_may_serve may_serve recovery_pending
run_steps-recovery_pending_example =
    run_steps-recovery_pending (handles_log transfer 1 ∷ takes ∷ finishes_start 1 ∷ []) with_gap
      refl refl
