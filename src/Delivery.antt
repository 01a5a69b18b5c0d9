-- ===== src/Delivery.antt =====
-- Handing logs to the application: `emit_log` of src/evm_event_dispatch.cpp, `prune_delivered` of
-- src/evm_live_handoff.cpp and the checkpoints of src/evm_event_indexer.cpp. The application is the
-- trace of its callbacks, which accept a log or throw; the trace also holds each call of
-- `prune_delivered`. The cursor store does not fail.
pub mod Entries
pub mod View
pub mod Follows
pub mod Calls
pub mod Kept
pub mod Examples
use polymarket_cpp_client.Prelude.{
  ℕ, ◌-◌, leb, Bool, true, false, not, ◌&&◌, ◌||◌, if◌then◌else◌, List, [], ◌∷◌, map, Option, none,
  some, Bytes, is_empty, equal_bytes,
}
use polymarket_cpp_client.Prelude.Except.{Except, ok, throw, runtime_error, ◌>>=◌}
use polymarket_cpp_client.Cursors.{EvmIndexCursor, whole_block, save_cursor, rewind}
use polymarket_cpp_client.Quantity.{evm_quantity_to_uint64}
use polymarket_cpp_client.EventLog.{EvmLog, evm_log_identity, evm_log_block, evm_log_position}

-- An entry of `delivered_logs`.
pub record EvmDeliveredLog : Type 0 where
  pub identity : Bytes
  pub log : EvmLog
  pub block : ℕ

-- What the application sees, newest first, and between it the calls of `prune_delivered` with their two
-- arguments, whatever they do.
pub data Event : Type 0 where
  delivers : EvmLog → ℕ → Event
  removes : EvmLog → Event
  checkpoints : ℕ → Event
  prunes : ℕ → ℕ → Event

-- The part of the state that a delivery works on.
pub record Sink : Type 0 where
  pub delivered : List EvmDeliveredLog
  pub has_store : Bool
  pub cursor : Option EvmIndexCursor
  pub shutdown : Bool
  pub current : Bool
  pub trace : List Event

unfoldable pub lookup : Bytes → List EvmDeliveredLog → Option EvmDeliveredLog
lookup id [] = none
lookup id (e ∷ entries) = if equal_bytes e.identity id then some e else lookup id entries

unfoldable pub erase_delivered : Bytes → List EvmDeliveredLog → List EvmDeliveredLog
erase_delivered id [] = []
erase_delivered id (e ∷ entries) =
    let rest = erase_delivered id entries in if equal_bytes e.identity id then entries else e ∷ rest

-- `delivered_logs.emplace`, which keeps an entry that is there.
unfoldable pub emplace : EvmDeliveredLog → List EvmDeliveredLog → List EvmDeliveredLog
emplace e entries = elim (lookup e.identity entries) [ none ↦ e ∷ entries | some old ↦ entries ]

unfoldable pub emit : Event → Sink → Sink
emit event sink = record sink { trace = event ∷ sink.trace }

-- `if (cursor && block <= cursor->block_number)`
unfoldable pub rewind_cursor : Option EvmIndexCursor → ℕ → Sink → Sink
rewind_cursor none block sink = sink
rewind_cursor (some cursor) block sink =
    if leb block cursor.block_number
    then emit (checkpoints block) (record sink { cursor = rewind (some cursor) block })
    else sink

-- The first part: a live removal rewinds the cursor.
unfoldable pub rewind_for : EvmLog → Bool → Sink → Except Sink
rewind_for log live sink =
    if live && log.removed && not (is_empty log.block_number)
    then elim (evm_quantity_to_uint64 log.block_number) [
      | throw e ↦ throw e
      | ok block ↦ ok (if sink.has_store then rewind_cursor sink.cursor block sink else sink)
    ]
    else ok sink

-- A callback that throws leaves the map as it was.
unfoldable pub emit_removal : EvmLog → Bool → Sink → Sink × Except Bool
emit_removal log accepts sink =
    let id = evm_log_identity log in
    if accepts
    then (
      emit (removes log) (record sink { delivered = erase_delivered id sink.delivered }),
      ok true,
    )
    else elim (lookup id sink.delivered) [
      | none ↦ (sink, throw (runtime_error "log callback"))
      | some e ↦ (
        record sink { delivered = emplace e (erase_delivered id sink.delivered) },
        throw (runtime_error "log callback"),
      )
    ]

unfoldable pub emit_delivery : EvmLog → ℕ → Bool → Sink → Sink × Except Bool
emit_delivery log block accepts sink =
    let id = evm_log_identity log in
    let entry : EvmDeliveredLog = record { identity = id; log = log; block = block } in
    let noted = if is_empty id then sink.delivered else emplace entry sink.delivered in
    let restored = if is_empty id then noted else erase_delivered id noted in
    if accepts
    then (emit (delivers log block) (record sink { delivered = noted }), ok true)
    else (record sink { delivered = restored }, throw (runtime_error "log callback"))

unfoldable pub is_delivered : Bytes → List EvmDeliveredLog → Bool
is_delivered id entries = elim (lookup id entries) [ none ↦ false | some e ↦ true ]

unfoldable pub emit_claimed : EvmLog → ℕ → Bool → Sink → Sink × Except Bool
emit_claimed log block accepts sink =
    if log.removed
    then emit_removal log accepts sink
    else if not (is_empty (evm_log_identity log))
        && is_delivered (evm_log_identity log) sink.delivered
    then (sink, ok false)
    else emit_delivery log block accepts sink

-- The second part, after the rewind.
unfoldable pub emit_rewound : EvmLog → Bool → Sink → Sink × Except Bool
emit_rewound log accepts sink =
    if sink.shutdown then (sink, ok false) else elim (evm_log_block log) [
      | throw e ↦ (sink, throw e)
      | ok block ↦ emit_claimed log block accepts sink
    ]

-- `accepts`: the log callback returns, and does not throw.
unfoldable pub emit_log : EvmLog → Bool → Bool → Sink → Sink × Except Bool
emit_log log live accepts sink = elim (rewind_for log live sink) [
  | throw e ↦ (sink, throw e)
  | ok rewound ↦ emit_rewound log accepts rewound
]

-- The loop that erases what is old.
unfoldable pub erase_old : ℕ → List EvmDeliveredLog → List EvmDeliveredLog
erase_old cutoff [] = []
erase_old cutoff (e ∷ entries) =
    if leb e.block cutoff then erase_old cutoff entries else e ∷ erase_old cutoff entries

unfoldable pub prune_delivered : ℕ → ℕ → Sink → Sink
prune_delivered reorg_lookback_blocks durable_block sink =
    let called = emit (prunes reorg_lookback_blocks durable_block) sink in
    let cutoff = durable_block - reorg_lookback_blocks in
    if leb durable_block reorg_lookback_blocks
    then called
    else record called { delivered = erase_old cutoff called.delivered }

unfoldable pub save_in_store : EvmIndexCursor → Sink → Sink
save_in_store next sink =
    if sink.has_store then record sink { cursor = save_cursor sink.cursor next } else sink

unfoldable pub save_checkpoint : ℕ → ℕ → Sink → Sink
save_checkpoint reorg_lookback_blocks block sink =
    prune_delivered reorg_lookback_blocks block
      (emit (checkpoints block) (save_in_store (whole_block block) sink))

-- The position is read for a store alone.
unfoldable pub save_log_checkpoint : EvmLog → Sink → Except Sink
save_log_checkpoint log sink = do
  block ← evm_quantity_to_uint64 log.block_number
  if sink.has_store
      then (do
        position ← evm_log_position log
        ok (
            save_in_store
              (record { block_number = block; block_complete = false; last_log = some position })
              sink))
      else ok sink

-- What the indexer's threads do to this part of the state, one call after the other. `emits` also
-- says whether the log is live and whether the application takes it.
pub data SinkCall : Type 0 where
  emits : EvmLog → Bool → Bool → SinkCall
  completes : ℕ → ℕ → SinkCall
  passes : EvmLog → SinkCall
  shuts_down : SinkCall

unfoldable pub run_call : SinkCall → Sink → Sink
run_call (emits log live accepts) sink = (emit_log log live accepts sink).0
run_call (completes lookback block) sink = save_checkpoint lookback block sink
run_call (passes log) sink = elim (save_log_checkpoint log sink) [
  | throw e ↦ sink
  | ok saved ↦ saved
]
run_call shuts_down sink = record sink { shutdown = true }

-- An indexer that has told the application nothing yet.
unfoldable pub new_sink : Bool → Option EvmIndexCursor → Sink
new_sink has_store cursor = record {
  delivered = [];
  has_store = has_store;
  cursor = cursor;
  shutdown = false;
  current = true;
  trace = [];
}
