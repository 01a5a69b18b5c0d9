-- ===== src/Reconciliation.antt =====
-- Scanning the chain over HTTP: src/evm_reorg_reconciliation.cpp and the catch-up of
-- src/evm_event_indexer.cpp. A scan runs on its own: the live logs wait until it is done. What the node
-- answers and what the application does are a value of World; the cursor store does not fail.
pub mod Ends
pub mod Orphans
pub mod Canonical
use polymarket_cpp_client.Prelude.{
  ℕ, ◌+◌, ◌-◌, ◌^◌, ltb, leb, ◌==◌, Bool, true, false, not, ◌&&◌, ◌||◌, if◌then◌else◌, List, [],
  ◌∷◌, Option, none, some, Bytes, equal_bytes, contains,
}
use polymarket_cpp_client.Prelude.Except.{Except, ok, throw}
use polymarket_cpp_client.Cursors.{EvmIndexCursor, EvmLogPosition, rewind}
use polymarket_cpp_client.Quantity.{evm_quantity_to_uint64}
use polymarket_cpp_client.Ranges.{BlockRange, evm_make_block_ranges}
use polymarket_cpp_client.EventLog.{
  EvmLog, evm_log_identity, evm_log_position, evm_position_at_or_before, evm_log_before,
  position_before, sort_logs,
}
use polymarket_cpp_client.Delivery.{
  EvmDeliveredLog, Sink, emit_log, save_checkpoint, save_log_checkpoint,
}

-- The part of EvmEventIndexerConfig that a scan reads.
pub record EvmEventIndexerConfig : Type 0 where
  pub start_block : ℕ
  pub batch_size : ℕ
  pub reorg_lookback_blocks : ℕ

-- The node's answers, whether the application's callback takes a log, and whether `stop` is called
-- during a request or during a callback.
pub record World : Type 0 where
  pub get_logs : BlockRange → Except (List EvmLog)
  pub accepts : EvmLog → Bool
  pub stops_during : BlockRange → Bool
  pub stops_at : EvmLog → Bool

-- What a scan returns beside the state: false when it gave up.
abbrev pub Outcome : Type 0
Outcome = Sink × Except Bool

-- `if (!step) return false;`
abbrev pub and_then : Outcome → (Sink → Outcome) → Outcome
and_then (sink, throw e) rest = (sink, throw e)
and_then (sink, ok false) rest = (sink, ok false)
and_then (sink, ok true) rest = rest sink

-- A call that may throw and leaves the state alone.
abbrev pub attempt {ℓ} : {A : Type ℓ} → Except A → Sink → (A → Outcome) → Outcome
attempt (throw e) sink rest = (sink, throw e)
attempt (ok a) sink rest = rest a

-- `if (!generation_current(generation)) return false;`
unfoldable pub while_current : Sink → (Sink → Outcome) → Outcome
while_current sink rest = if sink.current then rest sink else (sink, ok false)

-- `stop` moves on to another generation.
unfoldable pub stop_if : Bool → Sink → Sink
stop_if stops sink = if stops then record sink { current = false } else sink

-- A delivery that is waited for.
unfoldable pub dispatch_log : World → EvmLog → Sink → Outcome
dispatch_log world log sink = if sink.shutdown || not sink.current then (sink, ok false) else (
  stop_if (world.stops_at log) (emit_log log false (world.accepts log) sink).0,
  (emit_log log false (world.accepts log) sink).1,
)

-- The identities of `canonical_ids`.
unfoldable pub canonical_ids : List EvmLog → List Bytes
canonical_ids [] = []
canonical_ids (log ∷ logs) =
    let ids = canonical_ids logs in if log.removed then ids else evm_log_identity log ∷ ids

unfoldable pub is_orphan : BlockRange → List Bytes → EvmDeliveredLog → Bool
is_orphan range ids e =
    leb range.from e.block && leb e.block range.to && not (contains e.identity ids)

unfoldable pub orphans_of : BlockRange → List Bytes → List EvmDeliveredLog → List EvmLog
orphans_of range ids [] = []
orphans_of range ids (e ∷ entries) =
    let orphans = orphans_of range ids entries in
    if is_orphan range ids e then record e.log { removed = true } ∷ orphans else orphans

unfoldable pub dispatch_orphans : World → List EvmLog → Sink → Outcome
dispatch_orphans world [] sink = (sink, ok true)
dispatch_orphans world (orphan ∷ orphans) sink =
    and_then (dispatch_log world orphan sink) (dispatch_orphans world orphans)

-- `if (persist && !log.removed) save_log_checkpoint(log, false);`
unfoldable pub save_if : Bool → EvmLog → Sink → Except Sink
save_if persist log sink =
    if persist && not log.removed then save_log_checkpoint log sink else ok sink

-- The log goes out, whatever the delivery says.
unfoldable pub deliver_log : World → Bool → EvmLog → Sink → Outcome
deliver_log world persist log sink =
    let sent = dispatch_log world log sink in
    attempt sent.1 sent.0 (λ delivered.
      while_current sent.0
        (λ next. attempt (save_if persist log next) next (λ saved. (saved, ok true))))

unfoldable pub deliver_canonical : World → Bool → List EvmLog → Sink → Outcome
deliver_canonical world persist [] sink = (sink, ok true)
deliver_canonical world persist (log ∷ logs) sink =
    and_then (while_current sink (deliver_log world persist log))
      (deliver_canonical world persist logs)

unfoldable pub finish_range : ℕ → Bool → BlockRange → Sink → Outcome
finish_range lookback persist range sink =
    while_current sink
      (λ done. (if persist then save_checkpoint lookback range.to done else done, ok true))

-- The logs of a range, unless the request stops the indexer.
unfoldable pub fetch : World → BlockRange → Sink → (List EvmLog → Sink → Outcome) → Outcome
fetch world range sink rest = while_current sink (λ asking.
    attempt (world.get_logs range) asking
      (λ logs. while_current (stop_if (world.stops_during range) asking) (rest logs)))

-- What a round of `scan_gap_ranges` does with the sorted logs.
unfoldable pub settle_range :
    World → ℕ → Bool → BlockRange → List EvmLog → List EvmLog → Sink → Outcome
settle_range world lookback persist range canonical orphans sink =
    and_then (dispatch_orphans world orphans sink) (λ cleared.
      and_then (deliver_canonical world persist canonical cleared)
        (finish_range lookback persist range))

-- One round of `scan_gap_ranges`.
unfoldable pub scan_gap_range : World → ℕ → Bool → BlockRange → Sink → Outcome
scan_gap_range world lookback persist range sink = fetch world range sink (λ logs next.
    attempt (sort_logs evm_log_before logs) next (λ canonical.
      attempt (sort_logs evm_log_before (orphans_of range (canonical_ids canonical) next.delivered))
        next (λ orphans. settle_range world lookback persist range canonical orphans next)))

unfoldable pub scan_gap_ranges : World → ℕ → Bool → List BlockRange → Sink → Outcome
scan_gap_ranges world lookback persist [] sink = (sink, ok true)
scan_gap_ranges world lookback persist (range ∷ ranges) sink =
    and_then (scan_gap_range world lookback persist range sink)
      (scan_gap_ranges world lookback persist ranges)

unfoldable pub rewind_store : ℕ → Sink → Sink
rewind_store block sink =
    if sink.has_store then record sink { cursor = rewind sink.cursor block } else sink

-- `evm_make_block_ranges` and the loop over what it returns.
unfoldable pub scan_gap : EvmEventIndexerConfig → World → ℕ → ℕ → Bool → Sink → Outcome
scan_gap config world from to persist sink =
    attempt (evm_make_block_ranges from to config.batch_size) sink
      (λ ranges. scan_gap_ranges world config.reorg_lookback_blocks persist ranges sink)

unfoldable pub maximum : ℕ → ℕ → ℕ
maximum a b = if ltb a b then b else a

unfoldable pub minimum : ℕ → ℕ → ℕ
minimum a b = if ltb b a then b else a

-- `std::max(config_.start_block, target > overlap ? target - overlap : 0)`.
unfoldable pub window_from : EvmEventIndexerConfig → ℕ → ℕ
window_from config target =
    let overlap = config.reorg_lookback_blocks - 1 in
    maximum config.start_block (if ltb overlap target then target - overlap else 0)

unfoldable pub reconcile_gap : EvmEventIndexerConfig → World → ℕ → ℕ → Sink → Outcome
reconcile_gap config world target durable_through sink =
    let from = window_from config target in
    if ltb target from
    then (sink, ok true)
    else and_then
        (scan_gap config world from (minimum target durable_through) true (rewind_store from sink))
        (λ durable.
          if ltb durable_through target
          then scan_gap config world (maximum from (durable_through + 1)) target false durable
          else (durable, ok true))
