-- ===== src/CatchUp/Sessions.antt =====
-- Whatever the indexer scans and delivers, in any order: the map of delivered logs follows the trace.
use polymarket_cpp_client.Prelude.{
  ℕ, ◌≡◌, Bool, true, false, on_if, List, [], ◌∷◌, Option, Bytes, ltb, ◌+◌,
}
use polymarket_cpp_client.Prelude.Except.{ok}
use polymarket_cpp_client.Cursors.{EvmIndexCursor}
use polymarket_cpp_client.Ranges.{BlockRange, evm_make_block_ranges}
use polymarket_cpp_client.Quantity.{evm_quantity_to_uint64}
use polymarket_cpp_client.EventLog.{EvmLog, sort_logs}
use polymarket_cpp_client.Delivery.{Sink, new_sink, lookup, run_call}
use polymarket_cpp_client.Delivery.View.{view, NoRepeat, entry_of}
use polymarket_cpp_client.Delivery.Calls.{Stays, run_call-Follows, new_sink-Follows}
use polymarket_cpp_client.Reconciliation.{
  EvmEventIndexerConfig, World, while_current, scan_gap_range, scan_gap, rewind_store, window_from,
  maximum, minimum, reconcile_gap,
}
use polymarket_cpp_client.Reconciliation.Ends.{
  Leaves, Leaves-and_then, Leaves-attempt, Leaves-while_current,
}
use polymarket_cpp_client.Reconciliation.Canonical.{has_no_orphan, scan_gap_range-Ends}
use polymarket_cpp_client.CatchUp.{
  is_passed, deliver_next, deliver_scanned, scanned_before, scan_range, scan_all, scan_ranges,
  resume_block, is_exhausted, saved_cursor, catch_up_to, Action, calls, reconciles, catches_up,
  restarts, act, act_all,
}
use polymarket_cpp_client.CatchUp.Runs.{
  fetch-Stays, deliver_log-Stays, finish_range-Stays, scan_gap_ranges-Stays,
}

scan_gap-Stays :
    (config : EvmEventIndexerConfig) (world : World) (from to : ℕ) (persist : Bool) (sink : Sink)
    → Stays sink
    → Leaves Stays (scan_gap config world from to persist sink)
unfolding scan_gap
scan_gap-Stays config world from to persist sink f =
    Leaves-attempt Stays (evm_make_block_ranges from to config.batch_size) sink _ f
      (λ ranges _. scan_gap_ranges-Stays world config.reorg_lookback_blocks persist ranges sink f)

rewind_store-Stays : (block : ℕ) (sink : Sink) → Stays sink → Stays (rewind_store block sink)
unfolding rewind_store
rewind_store-Stays block sink f = on_if Stays sink.has_store (λ stored. f) (λ unstored. f)

reconcile_gap-Stays :
    (config : EvmEventIndexerConfig) (world : World) (target durable : ℕ) (sink : Sink)
    → Stays sink
    → Leaves Stays (reconcile_gap config world target durable sink)
unfolding reconcile_gap
reconcile_gap-Stays config world target durable sink f =
    let from = window_from config target in
    on_if (Leaves Stays) (ltb target from) (λ ahead. f)
      (λ behind.
        Leaves-and_then Stays
          (scan_gap config world from (minimum target durable) true (rewind_store from sink)) _
          (scan_gap-Stays config world from (minimum target durable) true (rewind_store from sink)
            (rewind_store-Stays from sink f))
          (λ done g.
            on_if (Leaves Stays) (ltb durable target)
              (λ more. scan_gap-Stays config world (maximum from (durable + 1)) target false done g)
              (λ all. g)))

deliver_next-Stays :
    (world : World) (persist : Bool) (resume : Option EvmIndexCursor) (log : EvmLog) (sink : Sink)
    → Stays sink
    → Leaves Stays (deliver_next world persist resume log sink)
unfolding deliver_next
deliver_next-Stays world persist resume log sink f =
    Leaves-attempt Stays (evm_quantity_to_uint64 log.block_number) sink _ f (λ block _.
      Leaves-attempt Stays (is_passed resume log block) sink _ f (λ passed _.
        on_if (Leaves Stays) passed (λ yes. f) (λ no. deliver_log-Stays world persist log sink f)))

deliver_scanned-Stays :
    (world : World) (persist : Bool) (resume : Option EvmIndexCursor) (logs : List EvmLog)
    (sink : Sink)
    → Stays sink
    → Leaves Stays (deliver_scanned world persist resume logs sink)
unfolding deliver_scanned
deliver_scanned-Stays world persist resume [] sink f = f
deliver_scanned-Stays world persist resume (log ∷ logs) sink f =
    Leaves-and_then Stays (while_current sink (deliver_next world persist resume log)) _
      (Leaves-while_current Stays sink (deliver_next world persist resume log) f
        (deliver_next-Stays world persist resume log sink f))
      (deliver_scanned-Stays world persist resume logs)

scan_all-Stays :
    (world : World) (lookback : ℕ) (persist : Bool) (resume : Option EvmIndexCursor)
    (ranges : List BlockRange) (sink : Sink)
    → Stays sink
    → Leaves Stays (scan_all world lookback persist resume ranges sink)
unfolding scan_all scan_range
scan_all-Stays world lookback persist resume [] sink f = f
scan_all-Stays world lookback persist resume (range ∷ ranges) sink f =
    Leaves-and_then Stays (scan_range world lookback persist resume range sink) _
      (fetch-Stays world range sink _ f (λ logs next g.
        Leaves-attempt Stays (sort_logs scanned_before logs) next _ g (λ sorted _.
          Leaves-and_then Stays (deliver_scanned world persist resume sorted next) _
            (deliver_scanned-Stays world persist resume sorted next g)
            (finish_range-Stays lookback persist range))))
      (scan_all-Stays world lookback persist resume ranges)

scan_ranges-Stays :
    (config : EvmEventIndexerConfig) (world : World) (from to : ℕ) (persist : Bool)
    (resume : Option EvmIndexCursor) (sink : Sink)
    → Stays sink
    → Leaves Stays (scan_ranges config world from to persist resume sink)
unfolding scan_ranges
scan_ranges-Stays config world from to persist resume sink f =
    Leaves-attempt Stays (evm_make_block_ranges from to config.batch_size) sink _ f
      (λ ranges _. scan_all-Stays world config.reorg_lookback_blocks persist resume ranges sink f)

catch_up_to-Stays :
    (config : EvmEventIndexerConfig) (world : World) (target durable : ℕ) (sink : Sink)
    → Stays sink
    → Leaves Stays (catch_up_to config world target durable sink)
unfolding catch_up_to
catch_up_to-Stays config world target durable sink f =
    let saved = saved_cursor sink in
    let from = resume_block config saved in
    on_if (Leaves Stays) (is_exhausted saved) (λ over. f)
      (λ goes.
        Leaves-and_then Stays
          (scan_ranges config world from (minimum target durable) true saved sink) _
          (scan_ranges-Stays config world from (minimum target durable) true saved sink f)
          (λ done g.
            on_if (Leaves Stays) (ltb durable target)
              (λ more.
                scan_ranges-Stays config world (maximum from (durable + 1)) target false saved done
                  g)
              (λ all. g)))

act_all-Stays :
    (config : EvmEventIndexerConfig) (actions : List Action) (sink : Sink)
    → Stays sink
    → Stays (act_all config actions sink)
unfolding act_all act
act_all-Stays config [] sink f = f
act_all-Stays config (calls call ∷ actions) sink f =
    act_all-Stays config actions (run_call call sink) (run_call-Follows call sink f)
act_all-Stays config (reconciles world target durable ∷ actions) sink f =
    act_all-Stays config actions _ (reconcile_gap-Stays config world target durable sink f)
act_all-Stays config (catches_up world target durable ∷ actions) sink f =
    act_all-Stays config actions _ (catch_up_to-Stays config world target durable sink f)
act_all-Stays config (restarts ∷ actions) sink f = act_all-Stays config actions _ f

pub act_new-Stays :
    (config : EvmEventIndexerConfig) (actions : List Action) (has_store : Bool)
    (cursor : Option EvmIndexCursor)
    → Stays (act_all config actions (new_sink has_store cursor))
act_new-Stays config actions has_store cursor =
    act_all-Stays config actions (new_sink has_store cursor) (new_sink-Follows has_store cursor)

-- After any actions of a new indexer (deliveries with callbacks that accept or throw, checkpoints,
-- catch-ups and reconciliations, each of which may fail or be stopped), the map of delivered logs holds
-- for every identity exactly the log and the block that the trace gives it: those of the last delivery,
-- unless the log was removed since, or a pruning since found the block as far behind the durable block as
-- the lookback that it was called with.
pub act_all-view :
    (config : EvmEventIndexerConfig) (actions : List Action) (has_store : Bool)
    (cursor : Option EvmIndexCursor) (id : Bytes)
    → entry_of (lookup id (act_all config actions (new_sink has_store cursor)).delivered)
      ≡ view (act_all config actions (new_sink has_store cursor)).trace id
act_all-view config actions has_store cursor id =
    let f = act_new-Stays config actions has_store cursor in f.implements.same id

-- After any actions of a new indexer (deliveries with callbacks that accept or throw, checkpoints,
-- catch-ups and reconciliations, each of which may fail or be stopped), no log with an identity has been
-- delivered to the application again without a removal, or without having been forgotten, in between.
pub act_all-NoRepeat :
    (config : EvmEventIndexerConfig) (actions : List Action) (has_store : Bool)
    (cursor : Option EvmIndexCursor)
    → NoRepeat (act_all config actions (new_sink has_store cursor)).trace
act_all-NoRepeat config actions has_store cursor =
    let f = act_new-Stays config actions has_store cursor in f.no_repeat

-- After any actions of a new indexer, when one round of a gap scan goes through, whether it is to be
-- persisted or not and whatever the callbacks did, every delivered log of the round's range is one that
-- the node sent for the range and did not mark as removed.
pub scan_gap_range-has_no_orphan :
    (config : EvmEventIndexerConfig) (actions : List Action) (has_store : Bool)
    (cursor : Option EvmIndexCursor) (world : World) (lookback : ℕ) (persist : Bool)
    (range : BlockRange) (logs : List EvmLog)
    → world.get_logs range ≡ ok logs
    → (scan_gap_range world lookback persist range
        (act_all config actions (new_sink has_store cursor))).1
      ≡ ok true
    → has_no_orphan range logs
        (scan_gap_range world lookback persist range
          (act_all config actions (new_sink has_store cursor))).0.delivered
      ≡ true
scan_gap_range-has_no_orphan config actions has_store cursor world lookback persist range logs sent
      h =
    let before = act_all config actions (new_sink has_store cursor) in
    let f = act_new-Stays config actions has_store cursor in
    scan_gap_range-Ends world lookback persist range before logs f.implements.once f.named sent h
