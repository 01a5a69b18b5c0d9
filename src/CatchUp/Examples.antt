-- ===== src/CatchUp/Examples.antt =====
-- A session in which one log is repeated, removed and delivered again, with a callback that throws, a
-- catch-up and a gap scan after which the node has another log.
use polymarket_cpp_client.Prelude.{
  ◌≡◌, refl, true, false, List, [], ◌∷◌, none, codes, is_empty, equal_bytes, contains,
}
use polymarket_cpp_client.Hex.{nibble}
use polymarket_cpp_client.Prelude.Except.{ok}
use polymarket_cpp_client.Ranges.{BlockRange, batch_end, range_loop, evm_make_block_ranges}
use polymarket_cpp_client.Quantity.{
  digit, scan, starts_with_digit, read_digits, evm_quantity_to_uint64,
}
use polymarket_cpp_client.Cursors.{
  position_advances, last_log_advances, cursor_advances, save_cursor, rewind,
}
use polymarket_cpp_client.EventLog.{
  quantity_or_zero, evm_log_position, evm_position_at_or_before, evm_log_identity, evm_log_block,
  position_before, evm_log_before, insert_log, sort_logs,
}
use polymarket_cpp_client.Delivery.{
  emits, new_sink, lookup, erase_delivered, emplace, emit, rewind_cursor, rewind_for, emit_removal,
  emit_delivery, is_delivered, emit_claimed, emit_rewound, emit_log, erase_old, prune_delivered,
  save_in_store, save_checkpoint, save_log_checkpoint, run_call,
}
use polymarket_cpp_client.Delivery.View.{view, NoRepeat, entry_of}
use polymarket_cpp_client.Delivery.Examples.{transfer, orphaned, other}
use polymarket_cpp_client.Reconciliation.{
  EvmEventIndexerConfig, World, scan_gap_range, while_current, stop_if, dispatch_log, canonical_ids,
  is_orphan, orphans_of, dispatch_orphans, save_if, deliver_log, deliver_canonical, finish_range,
  fetch, settle_range, maximum, minimum,
}
use polymarket_cpp_client.Reconciliation.Canonical.{has_no_orphan}
use polymarket_cpp_client.CatchUp.{
  Action, calls, catches_up, restarts, act_all, scanned_before, passed_position, is_passed,
  deliver_next, deliver_scanned, scan_range, scan_all, scan_ranges, resume_block, is_exhausted,
  saved_cursor, catch_up_to, act,
}
use polymarket_cpp_client.CatchUp.Sessions.{
  act_all-view, act_all-NoRepeat, scan_gap_range-has_no_orphan,
}

abbrev settings : EvmEventIndexerConfig
settings = record { start_block = 1; batch_size = 16; reorg_lookback_blocks = 12 }

abbrev before_reorg : World
before_reorg = record {
  get_logs = λ range. ok (transfer ∷ []);
  accepts = λ log. true;
  stops_during = λ range. false;
  stops_at = λ log. false;
}

abbrev after_reorg : World
after_reorg = record before_reorg { get_logs = λ range. ok (other ∷ []) }

abbrev session : List Action
session =
    catches_up before_reorg 9 9
    ∷ calls (emits transfer true true)
    ∷ calls (emits orphaned true false)
    ∷ calls (emits orphaned true true)
    ∷ calls (emits transfer false true)
    ∷ restarts
    ∷ []

act_all-view_example :
    entry_of
      (lookup (codes "0xb:0xt:0x2") (act_all settings session (new_sink true none)).delivered)
    ≡ view (act_all settings session (new_sink true none)).trace (codes "0xb:0xt:0x2")
act_all-view_example = act_all-view settings session true none (codes "0xb:0xt:0x2")

act_all-NoRepeat_example : NoRepeat (act_all settings session (new_sink true none)).trace
act_all-NoRepeat_example = act_all-NoRepeat settings session true none

abbrev range : BlockRange
range = record { from = 1; to = 9 }

scan_gap_range-has_no_orphan_example :
    has_no_orphan range
      (other ∷ [])
      (scan_gap_range after_reorg 12 true range
        (act_all settings session (new_sink true none))).0.delivered
    ≡ true
unfolding is_empty equal_bytes contains nibble digit scan starts_with_digit read_digits
    evm_quantity_to_uint64 batch_end range_loop evm_make_block_ranges position_advances
    last_log_advances cursor_advances save_cursor rewind quantity_or_zero evm_log_position
    evm_position_at_or_before evm_log_identity evm_log_block position_before evm_log_before
    insert_log sort_logs lookup erase_delivered emplace emit rewind_cursor rewind_for emit_removal
    emit_delivery is_delivered emit_claimed emit_rewound emit_log erase_old prune_delivered
    save_in_store save_checkpoint save_log_checkpoint run_call new_sink while_current stop_if
    dispatch_log canonical_ids is_orphan orphans_of dispatch_orphans save_if deliver_log
    deliver_canonical finish_range fetch settle_range scan_gap_range maximum minimum scanned_before
    passed_position is_passed deliver_next deliver_scanned scan_range scan_all scan_ranges
    resume_block is_exhausted saved_cursor catch_up_to act act_all
scan_gap_range-has_no_orphan_example =
    scan_gap_range-has_no_orphan settings session true none after_reorg 12 true range (other ∷ [])
      refl refl
