-- ===== src/CatchUp.antt =====
-- Catching up over HTTP: `catch_up`, `catch_up_to` and `scan_ranges` of src/evm_event_indexer.cpp. The
-- counts of the report are left out.
pub mod Runs
pub mod Sessions
mod Examples
use polymarket_cpp_client.Prelude.{
  ℕ, ◌+◌, ◌-◌, ◌^◌, ltb, ◌==◌, Bool, true, false, not, ◌&&◌, if◌then◌else◌, List, [], ◌∷◌, Option,
  none, some, equal_bytes,
}
use polymarket_cpp_client.Prelude.Except.{Except, ok, throw, ◌>>=◌}
use polymarket_cpp_client.Cursors.{EvmIndexCursor, EvmLogPosition}
use polymarket_cpp_client.Quantity.{evm_quantity_to_uint64}
use polymarket_cpp_client.Ranges.{BlockRange, evm_make_block_ranges}
use polymarket_cpp_client.EventLog.{
  EvmLog, evm_log_position, evm_position_at_or_before, position_before, sort_logs,
}
use polymarket_cpp_client.Delivery.{Sink, SinkCall, run_call}
use polymarket_cpp_client.Reconciliation.{
  EvmEventIndexerConfig, World, Outcome, and_then, attempt, while_current, deliver_log,
  finish_range, fetch, maximum, minimum, reconcile_gap,
}

-- The comparison of `scan_ranges`, where every log has a block number.
unfoldable pub scanned_before : EvmLog → EvmLog → Except Bool
scanned_before left right = do
  left_block ← evm_quantity_to_uint64 left.block_number
  right_block ← evm_quantity_to_uint64 right.block_number
  if left_block == right_block then position_before left right else ok (ltb left_block right_block)

-- Whether the log was delivered before the cursor was saved.
unfoldable pub passed_position : EvmIndexCursor → EvmLogPosition → EvmLog → ℕ → Except Bool
passed_position cursor last log block =
    if not cursor.block_complete
      && (block == cursor.block_number)
      && equal_bytes last.block_hash log.block_hash
    then (do position ← evm_log_position log; ok (evm_position_at_or_before position last))
    else ok false

unfoldable pub is_passed : Option EvmIndexCursor → EvmLog → ℕ → Except Bool
is_passed none log block = ok false
is_passed (some cursor) log block = elim cursor.last_log [
  | none ↦ ok false
  | some last ↦ passed_position cursor last log block
]

unfoldable pub deliver_next : World → Bool → Option EvmIndexCursor → EvmLog → Sink → Outcome
deliver_next world persist resume log sink =
    attempt (evm_quantity_to_uint64 log.block_number) sink (λ block.
      attempt (is_passed resume log block) sink
        (λ passed. if passed then (sink, ok true) else deliver_log world persist log sink))

unfoldable pub deliver_scanned : World → Bool → Option EvmIndexCursor → List EvmLog → Sink → Outcome
deliver_scanned world persist resume [] sink = (sink, ok true)
deliver_scanned world persist resume (log ∷ logs) sink =
    and_then (while_current sink (deliver_next world persist resume log))
      (deliver_scanned world persist resume logs)

-- One round of `scan_ranges`.
unfoldable pub scan_range : World → ℕ → Bool → Option EvmIndexCursor → BlockRange → Sink → Outcome
scan_range world lookback persist resume range sink = fetch world range sink (λ logs next.
    attempt (sort_logs scanned_before logs) next (λ sorted.
      and_then (deliver_scanned world persist resume sorted next)
        (finish_range lookback persist range)))

unfoldable pub scan_all :
    World → ℕ → Bool → Option EvmIndexCursor → List BlockRange → Sink → Outcome
scan_all world lookback persist resume [] sink = (sink, ok true)
scan_all world lookback persist resume (range ∷ ranges) sink =
    and_then (scan_range world lookback persist resume range sink)
      (scan_all world lookback persist resume ranges)

unfoldable pub scan_ranges :
    EvmEventIndexerConfig → World → ℕ → ℕ → Bool → Option EvmIndexCursor → Sink → Outcome
scan_ranges config world from to persist resume sink =
    attempt (evm_make_block_ranges from to config.batch_size) sink
      (λ ranges. scan_all world config.reorg_lookback_blocks persist resume ranges sink)

-- The first block that is not done.
unfoldable pub resume_block : EvmEventIndexerConfig → Option EvmIndexCursor → ℕ
resume_block config none = config.start_block
resume_block config (some cursor) = cursor.block_number + (if cursor.block_complete then 1 else 0)

-- The last block that there can be is done.
unfoldable pub is_exhausted : Option EvmIndexCursor → Bool
is_exhausted none = false
is_exhausted (some cursor) = cursor.block_complete && (cursor.block_number == 2 ^ 64 - 1)

unfoldable pub saved_cursor : Sink → Option EvmIndexCursor
saved_cursor sink = if sink.has_store then sink.cursor else none

unfoldable pub catch_up_to : EvmEventIndexerConfig → World → ℕ → ℕ → Sink → Outcome
catch_up_to config world target durable_through sink =
    let saved = saved_cursor sink in
    let from = resume_block config saved in
    if is_exhausted saved
    then (sink, ok true)
    else and_then (scan_ranges config world from (minimum target durable_through) true saved sink)
        (λ durable.
          if ltb durable_through target
          then scan_ranges config world (maximum from (durable_through + 1)) target false saved
              durable
          else (durable, ok true))

-- `head > confirmations ? head - confirmations : 0`
unfoldable pub confirmed_head : ℕ → ℕ → ℕ
confirmed_head confirmations head = if ltb confirmations head then head - confirmations else 0

unfoldable pub catch_up : EvmEventIndexerConfig → World → ℕ → ℕ → Sink → Outcome
catch_up config world confirmations latest sink =
    let target = confirmed_head confirmations latest in catch_up_to config world target target sink

-- What an indexer does, one action after the other: the calls of Delivery, a reconciliation of the last
-- blocks and a catch-up.
pub data Action : Type 0 where
  calls : SinkCall → Action
  reconciles : World → ℕ → ℕ → Action
  catches_up : World → ℕ → ℕ → Action
  restarts : Action

-- `restarts`: start_live takes a new generation.
unfoldable pub act : EvmEventIndexerConfig → Action → Sink → Sink
act config (calls call) sink = run_call call sink
act config (reconciles world target durable) sink =
    (reconcile_gap config world target durable sink).0
act config (catches_up world target durable) sink = (catch_up_to config world target durable sink).0
act config restarts sink = record sink { current = true }

unfoldable pub act_all : EvmEventIndexerConfig → List Action → Sink → Sink
act_all config [] sink = sink
act_all config (action ∷ actions) sink = act_all config actions (act config action sink)
