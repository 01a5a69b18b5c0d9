-- ===== src/CatchUp/Runs.antt =====
-- A gap scan, whatever it returns: the map of delivered logs follows the trace.
use polymarket_cpp_client.Prelude.{ℕ, Bool, true, false, not, ◌||◌, on_if, List, [], ◌∷◌}
use polymarket_cpp_client.Ranges.{BlockRange}
use polymarket_cpp_client.EventLog.{EvmLog, evm_log_before, sort_logs}
use polymarket_cpp_client.Delivery.{Sink, emit_log}
use polymarket_cpp_client.Delivery.Calls.{Stays, emit_log-Follows, save_checkpoint-Follows}
use polymarket_cpp_client.Reconciliation.{
  World, Outcome, while_current, stop_if, dispatch_log, canonical_ids, orphans_of, dispatch_orphans,
  save_if, deliver_log, deliver_canonical, finish_range, fetch, settle_range, scan_gap_range,
  scan_gap_ranges,
}
use polymarket_cpp_client.Reconciliation.Ends.{
  Leaves, save_if-same, Leaves-and_then, Leaves-attempt, Leaves-while_current,
}

stop_if-Stays : (stops : Bool) (sink : Sink) → Stays sink → Stays (stop_if stops sink)
unfolding stop_if
stop_if-Stays true sink f = f
stop_if-Stays false sink f = f

dispatch_log-Stays :
    (world : World) (log : EvmLog) (sink : Sink)
    → Stays sink
    → Leaves Stays (dispatch_log world log sink)
unfolding dispatch_log
dispatch_log-Stays world log sink f =
    on_if (Leaves Stays) (sink.shutdown || not sink.current) (λ idle. f)
      (λ runs.
        stop_if-Stays (world.stops_at log) (emit_log log false (world.accepts log) sink).0
          (emit_log-Follows log false (world.accepts log) sink f))

pub deliver_log-Stays :
    (world : World) (persist : Bool) (log : EvmLog) (sink : Sink)
    → Stays sink
    → Leaves Stays (deliver_log world persist log sink)
unfolding deliver_log
deliver_log-Stays world persist log sink f =
    let sent = dispatch_log world log sink in
    let g : Stays sent.0 = dispatch_log-Stays world log sink f in
    Leaves-attempt Stays sent.1 sent.0 _ g (λ delivered _. Leaves-while_current Stays sent.0 _ g (
      Leaves-attempt Stays (save_if persist log sent.0) sent.0 _ g (λ saved e.
        let (entries, events) = save_if-same persist log sent.0 saved e in rw (entries, events) g)))

pub finish_range-Stays :
    (lookback : ℕ) (persist : Bool) (range : BlockRange) (sink : Sink)
    → Stays sink
    → Leaves Stays (finish_range lookback persist range sink)
unfolding finish_range
finish_range-Stays lookback persist range sink f =
    Leaves-while_current Stays sink _ f
      (on_if Stays persist (λ saves. save_checkpoint-Follows lookback range.to sink f) (λ skips. f))

pub fetch-Stays :
    (world : World) (range : BlockRange) (sink : Sink) (rest : List EvmLog → Sink → Outcome)
    → Stays sink
    → ((logs : List EvmLog) (next : Sink) → Stays next → Leaves Stays (rest logs next))
    → Leaves Stays (fetch world range sink rest)
unfolding fetch
fetch-Stays world range sink rest f each = Leaves-while_current Stays sink _ f (
    Leaves-attempt Stays (world.get_logs range) sink _ f (λ logs _.
      let g : Stays (stop_if (world.stops_during range) sink) =
        stop_if-Stays (world.stops_during range) sink f in
      Leaves-while_current Stays (stop_if (world.stops_during range) sink) (rest logs) g
        (each logs _ g)))

dispatch_orphans-Stays :
    (world : World) (orphans : List EvmLog) (sink : Sink)
    → Stays sink
    → Leaves Stays (dispatch_orphans world orphans sink)
unfolding dispatch_orphans
dispatch_orphans-Stays world [] sink f = f
dispatch_orphans-Stays world (orphan ∷ orphans) sink f =
    Leaves-and_then Stays (dispatch_log world orphan sink) (dispatch_orphans world orphans)
      (dispatch_log-Stays world orphan sink f) (dispatch_orphans-Stays world orphans)

deliver_canonical-Stays :
    (world : World) (persist : Bool) (logs : List EvmLog) (sink : Sink)
    → Stays sink
    → Leaves Stays (deliver_canonical world persist logs sink)
unfolding deliver_canonical
deliver_canonical-Stays world persist [] sink f = f
deliver_canonical-Stays world persist (log ∷ logs) sink f =
    Leaves-and_then Stays (while_current sink (deliver_log world persist log))
      (deliver_canonical world persist logs)
      (Leaves-while_current Stays sink (deliver_log world persist log) f
        (deliver_log-Stays world persist log sink f))
      (deliver_canonical-Stays world persist logs)

scan_gap_range-Stays :
    (world : World) (lookback : ℕ) (persist : Bool) (range : BlockRange) (sink : Sink)
    → Stays sink
    → Leaves Stays (scan_gap_range world lookback persist range sink)
unfolding scan_gap_range settle_range
scan_gap_range-Stays world lookback persist range sink f =
    fetch-Stays world range sink _ f (λ logs next g.
      Leaves-attempt Stays (sort_logs evm_log_before logs) next _ g (λ canonical _.
        Leaves-attempt Stays
          (sort_logs evm_log_before (orphans_of range (canonical_ids canonical) next.delivered))
          next _ g
          (λ orphans _.
            Leaves-and_then Stays (dispatch_orphans world orphans next) _
              (dispatch_orphans-Stays world orphans next g)
              (λ cleared h.
                Leaves-and_then Stays (deliver_canonical world persist canonical cleared) _
                  (deliver_canonical-Stays world persist canonical cleared h)
                  (finish_range-Stays lookback persist range)))))

pub scan_gap_ranges-Stays :
    (world : World) (lookback : ℕ) (persist : Bool) (ranges : List BlockRange) (sink : Sink)
    → Stays sink
    → Leaves Stays (scan_gap_ranges world lookback persist ranges sink)
unfolding scan_gap_ranges
scan_gap_ranges-Stays world lookback persist [] sink f = f
scan_gap_ranges-Stays world lookback persist (range ∷ ranges) sink f =
    Leaves-and_then Stays (scan_gap_range world lookback persist range sink) _
      (scan_gap_range-Stays world lookback persist range sink f)
      (scan_gap_ranges-Stays world lookback persist ranges)
