-- ===== src/LiveState/Interleavings.antt =====
-- No interleaving fills a queue beyond its limit, or keeps logs beside a gap that replaces them.
use polymarket_cpp_client.Prelude.{
  ℕ, ltb, ◌==◌, ◌≡◌, refl, arith, Bool, true, false, not, ◌&&◌, ◌||◌, if◌then◌else◌, on_if, List,
  [], ◌∷◌, ◌++◌, Bytes, length, codes, length-append,
}
use polymarket_cpp_client.EventLog.{EvmLog}
use polymarket_cpp_client.LiveState.{
  EvmDeliveryJob, EvmDeliveryError, evm_live_log_queue_limit, LiveState,
  queue_delivery_error_locked, new_live_state,
}
use polymarket_cpp_client.LiveState.Steps.{
  is_active, buffer_log, handle_live_log, handle_live_error, enqueue_log, take_live, take_coalesced,
  take_error, take_delivery, may_deliver_live, Taken, takes_log, drain_live_buffer,
}
use polymarket_cpp_client.LiveState.Runs.{
  Step, begins_start, fails_start, stops, takes, begins_reconcile, ends_reconcile,
  shuts_reconciliation, shuts_delivery, finishes_start, recovers, drains, handles_log, handles_head,
  notes_durable, starts_durable, handles_error, enqueues, reports_failure, step, run_steps,
}
use polymarket_cpp_client.LiveState.Limits.{
  within_limits, queue_delivery_error_locked-within_limits, finish_start-within_limits,
  begin_start-within_limits, clear_live-within_limits, stop-within_limits,
  end_reconcile-within_limits, shutdown_reconciliation_worker-within_limits,
  shutdown_delivery_worker-within_limits, handle_live_head-within_limits,
  schedule_overlap_recovery-within_limits, start_durable-within_limits, note_durable-within_limits,
  report_reconciliation_failure-within_limits, begin_reconcile-within_limits,
}

-- A log more.
snoc_log-within_limits :
    (log : EvmLog) (state : LiveState)
    → state.handoff_gap_pending ≡ false
    → ltb (length state.buffered_logs) evm_live_log_queue_limit ≡ true
    → within_limits state ≡ true
    → within_limits (record state { buffered_logs = state.buffered_logs ++ log ∷ [] }) ≡ true
unfolding within_limits
snoc_log-within_limits log state no_gap room h =
    ground (arith, length-append state.buffered_logs (log ∷ []))

snoc_live-within_limits :
    (log : EvmLog) (live : Bool) (generation : ℕ) (state : LiveState)
    → ltb (length state.live_deliveries) evm_live_log_queue_limit ≡ true
    → within_limits state ≡ true
    → within_limits (record state {
      live_deliveries =
          state.live_deliveries ++ record { log = log; live = live; generation = generation } ∷ [];
    })
      ≡ true
unfolding within_limits
snoc_live-within_limits log live generation state room h = ground (
  arith,
  length-append state.live_deliveries
      (record { log = log; live = live; generation = generation } ∷ []),
)

-- The recoveries.
gap-within_limits :
    (state : LiveState)
    → within_limits state ≡ true
    → within_limits (record state { buffered_logs = []; handoff_gap_pending = true }) ≡ true
unfolding within_limits
gap-within_limits state h = ground arith

gap_or_refresh-within_limits :
    (is_gap : Bool) (generation : ℕ) (state : LiveState)
    → within_limits state ≡ true
    → within_limits
        (record (if state.buffering
          then record state { buffered_logs = []; handoff_gap_pending = true }
          else record state {
            refresh_head_pending = true;
            overlap_recovery_pending = state.overlap_recovery_pending || is_gap;
          }) { pending_generation = generation })
      ≡ true
unfolding within_limits
gap_or_refresh-within_limits is_gap generation state h =
    on_if (λ (s : LiveState). within_limits (record s { pending_generation = generation }) ≡ true)
      state.buffering (λ buffers. ground arith) (λ live. h)

overflow-within_limits :
    (generation : ℕ) (state : LiveState)
    → within_limits state ≡ true
    → within_limits
        (record (queue_delivery_error_locked generation
          (codes "EVM event delivery queue overflow; HTTP reconciliation scheduled")
          (record state { live_deliveries = [] })) {
            refresh_head_pending = true;
            overlap_recovery_pending = true;
            pending_generation = generation;
          })
      ≡ true
unfolding within_limits
overflow-within_limits generation state h =
    queue_delivery_error_locked-within_limits generation
      (codes "EVM event delivery queue overflow; HTTP reconciliation scheduled")
      (record state { live_deliveries = [] }) (ground arith)

buffer_log-within_limits :
    (log : EvmLog) (generation : ℕ) (state : LiveState)
    → within_limits state ≡ true
    → within_limits (buffer_log log generation state) ≡ true
unfolding buffer_log
buffer_log-within_limits log generation state h =
    on_if (λ (after : LiveState). within_limits after ≡ true) state.handoff_gap_pending (λ gap. h)
      (λ no_gap.
        on_if (λ (after : LiveState). within_limits after ≡ true)
          (ltb (length state.buffered_logs) evm_live_log_queue_limit)
          (λ room. snoc_log-within_limits log state no_gap room h)
          (λ full.
            queue_delivery_error_locked-within_limits generation _
              (record state { buffered_logs = []; handoff_gap_pending = true })
              (gap-within_limits state h)))

handle_live_log-within_limits :
    (log : EvmLog) (generation : ℕ) (state : LiveState)
    → within_limits state ≡ true
    → within_limits (handle_live_log log generation state).0 ≡ true
unfolding handle_live_log
handle_live_log-within_limits log generation state h =
    let Q = (λ (after : LiveState × Bool). within_limits after.0 ≡ true) in
    on_if Q (not (is_active generation state)) (λ idle. h)
      (λ active.
        on_if Q state.buffering (λ buffers. buffer_log-within_limits log generation state h)
          (λ goes. h))

handle_live_error-within_limits :
    (error : Bytes) (is_gap : Bool) (generation : ℕ) (state : LiveState)
    → within_limits state ≡ true
    → within_limits (handle_live_error error is_gap generation state) ≡ true
unfolding handle_live_error
handle_live_error-within_limits error is_gap generation state h =
    on_if (λ (after : LiveState). within_limits after ≡ true) (not (is_active generation state))
      (λ idle. h)
      (λ active.
        queue_delivery_error_locked-within_limits generation error _
          (gap_or_refresh-within_limits is_gap generation state h))

enqueue_log-within_limits :
    (log : EvmLog) (live : Bool) (generation : ℕ) (state : LiveState)
    → within_limits state ≡ true
    → within_limits (enqueue_log log live generation state).0 ≡ true
unfolding enqueue_log within_limits
enqueue_log-within_limits log live generation state h =
    let Q = (λ (after : LiveState × Bool). within_limits after.0 ≡ true) in
    on_if Q (state.delivery_shutdown || not (generation == state.generation)) (λ idle. h)
      (λ runs.
        on_if Q (live && not (ltb (length state.live_deliveries) evm_live_log_queue_limit))
          (λ full. overflow-within_limits generation state h)
          (λ room.
            on_if Q live
              (λ is_live. snoc_live-within_limits log live generation state (ground arith) h)
              (λ historical. h)))

-- What is left in the queues after the delivery thread took something.
IsFine : LiveState × Taken → Type 0
IsFine after = within_limits after.0 ≡ true

take_live-IsFine :
    (jobs : List EvmDeliveryJob) (state : LiveState)
    → within_limits (record state { live_deliveries = jobs }) ≡ true
    → IsFine (take_live (record state { live_deliveries = jobs }))
unfolding take_live may_deliver_live IsFine within_limits
take_live-IsFine [] state h = h
take_live-IsFine (job ∷ jobs) state h =
    on_if IsFine (may_deliver_live state) (λ may. ground arith) (λ waits. h)

take_error-IsFine :
    (errors : List EvmDeliveryError) (state : LiveState)
    → within_limits (record state { delivery_errors = errors }) ≡ true
    → IsFine (take_error (record state { delivery_errors = errors }))
unfolding take_error take_coalesced IsFine within_limits
take_error-IsFine [] state h =
    on_if IsFine (ltb 0 state.coalesced_delivery_errors) (λ some_lost. h)
      (λ none_lost.
        take_live-IsFine state.live_deliveries (record state { delivery_errors = [] }) h)
take_error-IsFine (error ∷ errors) state h = ground arith

take_delivery-within_limits :
    (state : LiveState) → within_limits state ≡ true → within_limits (take_delivery state).0 ≡ true
unfolding take_delivery IsFine within_limits
take_delivery-within_limits state h =
    on_if IsFine state.delivery_shutdown (λ down. h)
      (λ up.
        elim state.historical_deliveries
          as (λ queue. IsFine (elim queue [
            | [] ↦ take_error state
            | job ∷ jobs ↦ (record state { historical_deliveries = jobs }, takes_log job)
          ])) [ [] ↦ take_error-IsFine state.delivery_errors state h | job ∷ jobs ↦ h ])

drain_live_buffer-within_limits :
    (generation : ℕ) (state : LiveState)
    → within_limits state ≡ true
    → within_limits (drain_live_buffer generation state).0 ≡ true
unfolding drain_live_buffer within_limits
drain_live_buffer-within_limits generation state h = ground arith

step-within_limits :
    (s : Step) (state : LiveState)
    → within_limits state ≡ true
    → within_limits (step s state) ≡ true
unfolding step
step-within_limits begins_start state h = begin_start-within_limits state h
step-within_limits fails_start state h = clear_live-within_limits state h
step-within_limits stops state h = stop-within_limits state h
step-within_limits takes state h = take_delivery-within_limits state h
step-within_limits begins_reconcile state h = begin_reconcile-within_limits state h
step-within_limits ends_reconcile state h = end_reconcile-within_limits state h
step-within_limits shuts_reconciliation state h =
    shutdown_reconciliation_worker-within_limits state h
step-within_limits shuts_delivery state h = shutdown_delivery_worker-within_limits state h
step-within_limits (finishes_start generation) state h =
    finish_start-within_limits generation state h
step-within_limits (recovers generation) state h =
    schedule_overlap_recovery-within_limits generation state h
step-within_limits (drains generation) state h = drain_live_buffer-within_limits generation state h
step-within_limits (handles_log log generation) state h =
    handle_live_log-within_limits log generation state h
step-within_limits (handles_head block generation) state h =
    handle_live_head-within_limits block generation state h
step-within_limits (starts_durable durable) state h = start_durable-within_limits durable state h
step-within_limits (notes_durable generation durable) state h =
    note_durable-within_limits generation durable state h
step-within_limits (handles_error error is_gap generation) state h =
    handle_live_error-within_limits error is_gap generation state h
step-within_limits (enqueues log live generation) state h =
    enqueue_log-within_limits log live generation state h
step-within_limits (reports_failure generation overlap) state h =
    report_reconciliation_failure-within_limits generation overlap state h

run_steps-keeps :
    (steps : List Step) (state : LiveState)
    → within_limits state ≡ true
    → within_limits (run_steps steps state) ≡ true
unfolding run_steps
run_steps-keeps [] state h = h
run_steps-keeps (s ∷ steps) state h =
    run_steps-keeps steps (step s state) (step-within_limits s state h)

-- After any interleaving of steps of a new indexer at most 1024 live logs and 1024 buffered logs and 64
-- errors wait, no log is buffered while a gap of the hand-off is pending, and an indexer that buffers or
-- has started accepts live logs.
pub run_steps-within_limits :
    (steps : List Step) → within_limits (run_steps steps new_live_state) ≡ true
unfolding within_limits new_live_state
run_steps-within_limits steps = run_steps-keeps steps new_live_state refl
