-- ===== src/LiveState.antt =====
-- The live hand-off: the state behind the indexer's mutex, in src/evm_indexer_transport.hpp, and each
-- section of src/evm_event_indexer.cpp, src/evm_live_handoff.cpp, src/evm_event_dispatch.cpp and
-- src/evm_reorg_reconciliation.cpp that holds it, as one step. The notifications of the condition
-- variables, the completions of the jobs and the map of delivered logs (Delivery) are left out.
pub mod Errors
pub mod Steps
pub mod Runs
pub mod Limits
pub mod Interleavings
pub mod Recovery
mod Examples
use polymarket_cpp_client.Prelude.{
  ℕ, suc, ◌+◌, ltb, leb, ◌==◌, Bool, true, false, not, ◌&&◌, ◌||◌, if◌then◌else◌, List, [], ◌∷◌,
  ◌++◌, map, Option, none, some, Bytes, equal_bytes, length,
}
use polymarket_cpp_client.EventLog.{EvmLog}

pub record EvmDeliveryJob : Type 0 where
  pub log : EvmLog
  pub live : Bool
  pub generation : ℕ

pub record EvmDeliveryError : Type 0 where
  pub generation : ℕ
  pub message : Bytes
  pub occurrences : ℕ

abbrev pub evm_live_log_queue_limit : ℕ
evm_live_log_queue_limit = 1024

abbrev pub evm_delivery_error_limit : ℕ
evm_delivery_error_limit = 64

pub record LiveState : Type 0 where
  pub buffering : Bool
  pub started : Bool
  pub accepting_live : Bool
  pub has_buffered_head : Bool
  pub has_pending_head : Bool
  pub refresh_head_pending : Bool
  pub overlap_recovery_pending : Bool
  pub handoff_gap_pending : Bool
  pub worker_shutdown : Bool
  pub delivery_shutdown : Bool
  pub reconciliation_active : Bool
  pub generation : ℕ
  pub durable_through : ℕ
  pub buffered_head : ℕ
  pub pending_head : ℕ
  pub pending_generation : ℕ
  pub buffered_logs : List EvmLog
  pub historical_deliveries : List EvmDeliveryJob
  pub live_deliveries : List EvmDeliveryJob
  pub delivery_errors : List EvmDeliveryError
  pub coalesced_delivery_errors : ℕ
  pub delivery_error_generation : ℕ

unfoldable pub new_live_state : LiveState
new_live_state = record {
  buffering = false;
  started = false;
  accepting_live = false;
  has_buffered_head = false;
  has_pending_head = false;
  refresh_head_pending = false;
  overlap_recovery_pending = false;
  handoff_gap_pending = false;
  worker_shutdown = false;
  delivery_shutdown = false;
  reconciliation_active = false;
  generation = 0;
  durable_through = 0;
  buffered_head = 0;
  pending_head = 0;
  pending_generation = 0;
  buffered_logs = [];
  historical_deliveries = [];
  live_deliveries = [];
  delivery_errors = [];
  coalesced_delivery_errors = 0;
  delivery_error_generation = 0;
}

-- The errors that wait, with the count of those that were pushed out.
pub record ErrorQueue : Type 0 where
  pub errors : List EvmDeliveryError
  pub coalesced : ℕ
  pub generation : ℕ

-- An error of another generation starts afresh.
unfoldable pub for_generation : ℕ → ErrorQueue → ErrorQueue
for_generation error_generation queue =
    if queue.generation == error_generation
    then queue
    else record { errors = []; coalesced = 0; generation = error_generation }

unfoldable pub is_last_message : Bytes → List EvmDeliveryError → Bool
is_last_message message [] = false
is_last_message message (e ∷ []) = equal_bytes e.message message
is_last_message message (e ∷ f ∷ errors) = is_last_message message (f ∷ errors)

unfoldable pub count_last : List EvmDeliveryError → List EvmDeliveryError
count_last [] = []
count_last (e ∷ []) = record e { occurrences = e.occurrences + 1 } ∷ []
count_last (e ∷ f ∷ errors) = e ∷ count_last (f ∷ errors)

-- The front makes room.
unfoldable pub make_room : ErrorQueue → ErrorQueue
make_room queue = elim queue.errors [
  | [] ↦ queue
  | e ∷ errors ↦
      if ltb (length queue.errors) evm_delivery_error_limit
      then queue
      else record queue { errors = errors; coalesced = queue.coalesced + e.occurrences }
]

unfoldable pub push_error : ℕ → Bytes → ErrorQueue → ErrorQueue
push_error error_generation message queue =
    if is_last_message message queue.errors
    then record queue { errors = count_last queue.errors }
    else record (make_room queue) {
      errors =
          (make_room queue).errors
          ++ record { generation = error_generation; message = message; occurrences = 1 } ∷ [];
    }

unfoldable pub queue_delivery_error : ℕ → Bytes → ErrorQueue → ErrorQueue
queue_delivery_error error_generation message queue =
    push_error error_generation message (for_generation error_generation queue)

-- The same, in the indexer's state.
unfoldable pub queue_delivery_error_locked : ℕ → Bytes → LiveState → LiveState
queue_delivery_error_locked error_generation message state =
    let queue : ErrorQueue = record {
      errors = state.delivery_errors;
      coalesced = state.coalesced_delivery_errors;
      generation = state.delivery_error_generation;
    } in
    let queued = queue_delivery_error error_generation message queue in
    record state {
      delivery_errors = queued.errors;
      coalesced_delivery_errors = queued.coalesced;
      delivery_error_generation = queued.generation;
    }
