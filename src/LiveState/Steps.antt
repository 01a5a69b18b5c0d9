-- ===== src/LiveState/Steps.antt =====
-- The steps of the live hand-off, each a section that holds the indexer's mutex.
use polymarket_cpp_client.Prelude.{
  ℕ, ◌+◌, ltb, ◌==◌, Bool, true, false, not, ◌&&◌, ◌||◌, if◌then◌else◌, [], ◌∷◌, ◌++◌, map, Option,
  none, some, Bytes, length, codes,
}
use polymarket_cpp_client.EventLog.{EvmLog}
use polymarket_cpp_client.Reconciliation.{maximum}
use polymarket_cpp_client.LiveState.{
  EvmDeliveryJob, EvmDeliveryError, evm_live_log_queue_limit, LiveState,
  queue_delivery_error_locked,
}

-- `accepting_live && generation == live_state_->generation`
unfoldable pub is_active : ℕ → LiveState → Bool
is_active generation state = state.accepting_live && (generation == state.generation)

-- What stopping and a start that fails have in common.
unfoldable pub clear_live : LiveState → LiveState
clear_live state = record state {
  accepting_live = false;
  buffering = false;
  started = false;
  buffered_logs = [];
  has_buffered_head = false;
  has_pending_head = false;
  refresh_head_pending = false;
  overlap_recovery_pending = false;
  handoff_gap_pending = false;
  buffered_head = 0;
  pending_head = 0;
}

-- `start_live`, before the subscription, when it is not started.
unfoldable pub begin_start : LiveState → LiveState
begin_start state = if state.started then state else record state {
  generation = state.generation + 1;
  accepting_live = true;
  buffering = true;
  buffered_logs = [];
  has_buffered_head = false;
  refresh_head_pending = false;
  overlap_recovery_pending = false;
  handoff_gap_pending = false;
  buffered_head = 0;
}

unfoldable pub finish_start : ℕ → LiveState → LiveState
finish_start generation state =
    if is_active generation state then record state { started = true } else state

unfoldable pub stop : LiveState → LiveState
stop state = record (clear_live state) { generation = state.generation + 1 }

-- A log while the hand-off buffers.
unfoldable pub buffer_log : EvmLog → ℕ → LiveState → LiveState
buffer_log log generation state =
    if state.handoff_gap_pending
    then state
    else if ltb (length state.buffered_logs) evm_live_log_queue_limit
    then record state { buffered_logs = state.buffered_logs ++ log ∷ [] }
    else queue_delivery_error_locked generation
        (codes "EVM handoff buffer overflow; full HTTP reconciliation scheduled")
        (record state { buffered_logs = []; handoff_gap_pending = true })

-- `handle_live_log`; true: the log goes on to `dispatch_log`.
unfoldable pub handle_live_log : EvmLog → ℕ → LiveState → LiveState × Bool
handle_live_log log generation state =
    if not (is_active generation state)
    then (state, false)
    else if state.buffering
    then (buffer_log log generation state, false)
    else (state, true)

unfoldable pub handle_live_head : ℕ → ℕ → LiveState → LiveState
handle_live_head block_number generation state =
    if not (is_active generation state)
    then state
    else if state.buffering
    then record state {
      has_buffered_head = true;
      buffered_head = maximum state.buffered_head block_number;
    }
    else record state {
      has_pending_head = true;
      pending_head = maximum state.pending_head block_number;
      pending_generation = generation;
    }

-- `is_gap`: the message holds "stream gap".
unfoldable pub handle_live_error : Bytes → Bool → ℕ → LiveState → LiveState
handle_live_error error is_gap generation state =
    if not (is_active generation state)
    then state
    else queue_delivery_error_locked generation error
        (record (if state.buffering
          then record state { buffered_logs = []; handoff_gap_pending = true }
          else record state {
            refresh_head_pending = true;
            overlap_recovery_pending = state.overlap_recovery_pending || is_gap;
          }) { pending_generation = generation })

unfoldable pub schedule_overlap_recovery : ℕ → LiveState → LiveState
schedule_overlap_recovery generation state =
    if not (is_active generation state)
    then state
    else if state.buffering
    then record state { buffered_logs = []; handoff_gap_pending = true }
    else record state {
      refresh_head_pending = true;
      overlap_recovery_pending = true;
      pending_generation = generation;
    }

-- `dispatch_log` up to the queue; false: the log is not queued.
unfoldable pub enqueue_log : EvmLog → Bool → ℕ → LiveState → LiveState × Bool
enqueue_log log live generation state =
    let job : EvmDeliveryJob = record { log = log; live = live; generation = generation } in
    if state.delivery_shutdown || not (generation == state.generation)
    then (state, false)
    else if live && not (ltb (length state.live_deliveries) evm_live_log_queue_limit)
    then (
      record (queue_delivery_error_locked generation
          (codes "EVM event delivery queue overflow; HTTP reconciliation scheduled")
          (record state { live_deliveries = [] })) {
            refresh_head_pending = true;
            overlap_recovery_pending = true;
            pending_generation = generation;
          },
      false,
    )
    else if live
    then (record state { live_deliveries = state.live_deliveries ++ job ∷ [] }, true)
    else (record state { historical_deliveries = state.historical_deliveries ++ job ∷ [] }, true)

-- What the delivery thread takes.
pub data Taken : Type 0 where
  nothing : Taken
  takes_log : EvmDeliveryJob → Taken
  takes_error : EvmDeliveryError → Taken
  takes_coalesced : ℕ → ℕ → Taken

unfoldable pub may_deliver_live : LiveState → Bool
may_deliver_live state = not state.reconciliation_active && not state.refresh_head_pending

unfoldable pub take_live : LiveState → LiveState × Taken
take_live state = elim state.live_deliveries [
  | [] ↦ (state, nothing)
  | job ∷ jobs ↦
      if may_deliver_live state
      then (record state { live_deliveries = jobs }, takes_log job)
      else (state, nothing)
]

unfoldable pub take_coalesced : LiveState → LiveState × Taken
take_coalesced state =
    if ltb 0 state.coalesced_delivery_errors
    then (
      record state { coalesced_delivery_errors = 0 },
      takes_coalesced state.delivery_error_generation state.coalesced_delivery_errors,
    )
    else take_live state

unfoldable pub take_error : LiveState → LiveState × Taken
take_error state = elim state.delivery_errors [
  | [] ↦ take_coalesced state
  | error ∷ errors ↦ (record state { delivery_errors = errors }, takes_error error)
]

-- One round of `delivery_loop`; `nothing`: it waits, or it returns after a shutdown.
unfoldable pub take_delivery : LiveState → LiveState × Taken
take_delivery state =
    if state.delivery_shutdown then (state, nothing) else elim state.historical_deliveries [
      | [] ↦ take_error state
      | job ∷ jobs ↦ (record state { historical_deliveries = jobs }, takes_log job)
    ]

-- What the section of `drain_live_buffer` finds to do.
pub data Drained : Type 0 where
  recovers_gap waits : Drained
  ends : Option ℕ → Drained

unfoldable pub drain_live_buffer : ℕ → LiveState → LiveState × Drained
drain_live_buffer generation state =
    if state.handoff_gap_pending
    then (record state { handoff_gap_pending = false; buffered_logs = [] }, recovers_gap)
    else elim state.buffered_logs [
      | [] ↦ (
        record state { buffering = false; has_buffered_head = false },
        ends (if state.has_buffered_head then some state.buffered_head else none),
      )
      | log ∷ logs ↦ (
        record state {
          historical_deliveries =
              state.historical_deliveries
              ++ map (λ log. record { log = log; live = true; generation = generation })
                  state.buffered_logs;
          buffered_logs = [];
        },
        waits,
      )
    ]

-- What is durable as `start_live` begins its catch-up.
unfoldable pub start_durable : ℕ → LiveState → LiveState
start_durable durable state = record state { durable_through = durable }

-- The head is durable up to here.
unfoldable pub note_durable : ℕ → ℕ → LiveState → LiveState
note_durable generation durable state =
    if generation == state.generation then record state { durable_through = durable } else state

-- The start of a round of `reconciliation_loop`; the request is what the round works on.
pub record Request : Type 0 where
  pub head : ℕ
  pub generation : ℕ
  pub refresh_head : Bool
  pub recover_overlap : Bool

unfoldable pub begin_reconcile : LiveState → LiveState × Option Request
begin_reconcile state =
    if state.worker_shutdown
      || not (state.has_pending_head || (state.refresh_head_pending && not state.buffering))
    then (state, none)
    else (
      record state {
        has_pending_head = false;
        refresh_head_pending = false;
        overlap_recovery_pending = false;
        pending_head = 0;
        reconciliation_active = true;
      },
      some (record {
        head = state.pending_head;
        generation = state.pending_generation;
        refresh_head = state.refresh_head_pending;
        recover_overlap = state.overlap_recovery_pending;
      }),
    )

unfoldable pub report_reconciliation_failure : ℕ → Bool → LiveState → LiveState
report_reconciliation_failure generation recover_overlap state =
    if is_active generation state && recover_overlap
    then record state { overlap_recovery_pending = true }
    else state

unfoldable pub end_reconcile : LiveState → LiveState
end_reconcile state =
    if state.worker_shutdown
      || not
          (state.has_pending_head || state.refresh_head_pending || state.overlap_recovery_pending)
    then record state { reconciliation_active = false }
    else state

unfoldable pub shutdown_reconciliation_worker : LiveState → LiveState
shutdown_reconciliation_worker state = record state {
  worker_shutdown = true;
  has_pending_head = false;
  refresh_head_pending = false;
  overlap_recovery_pending = false;
}

unfoldable pub shutdown_delivery_worker : LiveState → LiveState
shutdown_delivery_worker state = record state {
  delivery_shutdown = true;
  historical_deliveries = [];
  live_deliveries = [];
  delivery_errors = [];
  coalesced_delivery_errors = 0;
}
