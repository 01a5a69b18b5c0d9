-- ===== src/LiveState/Limits.antt =====
-- No interleaving fills a queue beyond its limit or keeps logs that the recovery of a pending gap replaces.
use polymarket_cpp_client.Prelude.{
  ℕ, ◌≤◌, leb, ◌==◌, ◌≡◌, refl, arith, Bool, true, false, not, ◌&&◌, ◌||◌, on_if, List, [], ◌∷◌,
  Bytes, length,
}
use polymarket_cpp_client.EventLog.{EvmLog}
use polymarket_cpp_client.LiveState.{
  evm_live_log_queue_limit, evm_delivery_error_limit, ErrorQueue, for_generation, push_error,
  queue_delivery_error, LiveState, queue_delivery_error_locked,
}
use polymarket_cpp_client.LiveState.Errors.{total, push_error-IsSound}
use polymarket_cpp_client.LiveState.Steps.{
  is_active, clear_live, begin_start, finish_start, stop, handle_live_head,
  schedule_overlap_recovery, start_durable, note_durable, begin_reconcile,
  report_reconciliation_failure, end_reconcile, shutdown_reconciliation_worker,
  shutdown_delivery_worker,
}

abbrev pub has_no_log : List EvmLog → Bool
has_no_log [] = true
has_no_log (log ∷ logs) = false

-- The queues are within their limits, nothing is buffered beside a pending gap of the hand-off, and a hand-off
-- that buffers or has started accepts logs.
unfoldable pub within_limits : LiveState → Bool
within_limits state =
    leb (length state.live_deliveries) evm_live_log_queue_limit
    && leb (length state.buffered_logs) evm_live_log_queue_limit
    && leb (length state.delivery_errors) evm_delivery_error_limit
    && (not state.handoff_gap_pending || has_no_log state.buffered_logs)
    && (not state.buffering || state.accepting_live)
    && (not state.started || state.accepting_live)

pub queue_delivery_error-bound :
    (generation : ℕ) (message : Bytes) (queue : ErrorQueue)
    → length queue.errors ≤ evm_delivery_error_limit
    → length (queue_delivery_error generation message queue).errors ≤ evm_delivery_error_limit
unfolding queue_delivery_error for_generation
queue_delivery_error-bound generation message queue bound =
    on_if
      (λ (q : ErrorQueue).
        length (push_error generation message q).errors ≤ evm_delivery_error_limit)
      (queue.generation == generation)
      (λ same.
        let sound =
          push_error-IsSound generation (total queue) message queue
            (record { bound = bound; counts = refl }) in
        sound.bound)
      (λ other.
        let empty : ErrorQueue = record { errors = []; coalesced = 0; generation = generation } in
        let sound =
          push_error-IsSound generation (total empty) message empty
            (record { bound = omega arith; counts = refl }) in
        sound.bound)

-- An error that is queued changes nothing else that is limited.
pub queue_delivery_error_locked-within_limits :
    (generation : ℕ) (message : Bytes) (state : LiveState)
    → within_limits state ≡ true
    → within_limits (queue_delivery_error_locked generation message state) ≡ true
unfolding within_limits queue_delivery_error_locked
queue_delivery_error_locked-within_limits generation message state h =
    let queue : ErrorQueue = record {
      errors = state.delivery_errors;
      coalesced = state.coalesced_delivery_errors;
      generation = state.delivery_error_generation;
    } in
    ground (arith, queue_delivery_error-bound generation message queue)

pub finish_start-within_limits :
    (generation : ℕ) (state : LiveState)
    → within_limits state ≡ true
    → within_limits (finish_start generation state) ≡ true
unfolding within_limits finish_start is_active
finish_start-within_limits generation state h = ground arith

pub begin_start-within_limits :
    (state : LiveState) → within_limits state ≡ true → within_limits (begin_start state) ≡ true
unfolding within_limits begin_start
begin_start-within_limits state h = ground arith

pub clear_live-within_limits :
    (state : LiveState) → within_limits state ≡ true → within_limits (clear_live state) ≡ true
unfolding within_limits clear_live
clear_live-within_limits state h = ground arith

pub stop-within_limits :
    (state : LiveState) → within_limits state ≡ true → within_limits (stop state) ≡ true
unfolding within_limits stop clear_live
stop-within_limits state h = ground arith

pub end_reconcile-within_limits :
    (state : LiveState) → within_limits state ≡ true → within_limits (end_reconcile state) ≡ true
unfolding within_limits end_reconcile
end_reconcile-within_limits state h = ground arith

pub shutdown_reconciliation_worker-within_limits :
    (state : LiveState)
    → within_limits state ≡ true
    → within_limits (shutdown_reconciliation_worker state) ≡ true
unfolding within_limits shutdown_reconciliation_worker
shutdown_reconciliation_worker-within_limits state h = ground arith

pub shutdown_delivery_worker-within_limits :
    (state : LiveState)
    → within_limits state ≡ true
    → within_limits (shutdown_delivery_worker state) ≡ true
unfolding within_limits shutdown_delivery_worker
shutdown_delivery_worker-within_limits state h = ground arith

pub handle_live_head-within_limits :
    (block generation : ℕ) (state : LiveState)
    → within_limits state ≡ true
    → within_limits (handle_live_head block generation state) ≡ true
unfolding within_limits handle_live_head is_active
handle_live_head-within_limits block generation state h = ground arith

pub schedule_overlap_recovery-within_limits :
    (generation : ℕ) (state : LiveState)
    → within_limits state ≡ true
    → within_limits (schedule_overlap_recovery generation state) ≡ true
unfolding within_limits schedule_overlap_recovery is_active
schedule_overlap_recovery-within_limits generation state h = ground arith

pub start_durable-within_limits :
    (durable : ℕ) (state : LiveState)
    → within_limits state ≡ true
    → within_limits (start_durable durable state) ≡ true
unfolding within_limits start_durable
start_durable-within_limits durable state h = h

pub note_durable-within_limits :
    (generation durable : ℕ) (state : LiveState)
    → within_limits state ≡ true
    → within_limits (note_durable generation durable state) ≡ true
unfolding within_limits note_durable
note_durable-within_limits generation durable state h = ground arith

pub report_reconciliation_failure-within_limits :
    (generation : ℕ) (overlap : Bool) (state : LiveState)
    → within_limits state ≡ true
    → within_limits (report_reconciliation_failure generation overlap state) ≡ true
unfolding within_limits report_reconciliation_failure is_active
report_reconciliation_failure-within_limits generation overlap state h = ground arith

pub begin_reconcile-within_limits :
    (state : LiveState)
    → within_limits state ≡ true
    → within_limits (begin_reconcile state).0 ≡ true
unfolding within_limits begin_reconcile
begin_reconcile-within_limits state h = ground arith
