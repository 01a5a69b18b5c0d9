-- ===== src/EventLog.antt =====
-- Logs of the chain, their position and their identity: src/evm_log_identity.hpp and
-- include/polymarket/evm_utils.hpp.
pub mod Sorting
use polymarket_cpp_client.Prelude.{
  ℕ, ltb, leb, ◌==◌, Bool, not, ◌&&◌, ◌||◌, if◌then◌else◌, List, [], ◌∷◌, ◌++◌, Bytes, is_empty,
}
use polymarket_cpp_client.Prelude.Except.{Except, ok, throw, ◌>>=◌}
use polymarket_cpp_client.Cursors.{EvmLogPosition}
use polymarket_cpp_client.Quantity.{evm_quantity_to_uint64}

pub record EvmLog : Type 0 where
  pub address : Bytes
  pub block_hash : Bytes
  pub block_number : Bytes
  pub transaction_hash : Bytes
  pub transaction_index : Bytes
  pub log_index : Bytes
  pub payload : Bytes
  pub topics : List Bytes
  pub removed : Bool

-- `text.empty() ? 0 : evm_quantity_to_uint64(text)`
unfoldable pub quantity_or_zero : Bytes → Except ℕ
quantity_or_zero text = if is_empty text then ok 0 else evm_quantity_to_uint64 text

unfoldable pub evm_log_position : EvmLog → Except EvmLogPosition
evm_log_position log = do
  transaction ← quantity_or_zero log.transaction_index
  index ← quantity_or_zero log.log_index
  ok (record { transaction_index = transaction; log_index = index; block_hash = log.block_hash })

unfoldable pub evm_position_at_or_before : EvmLogPosition → EvmLogPosition → Bool
evm_position_at_or_before left right =
    ltb left.transaction_index right.transaction_index
    || ((left.transaction_index == right.transaction_index) && leb left.log_index right.log_index)

unfoldable pub evm_log_identity : EvmLog → Bytes
evm_log_identity log =
    if is_empty log.block_hash || is_empty log.transaction_hash || is_empty log.log_index
    then []
    else log.block_hash ++ b':' ∷ log.transaction_hash ++ b':' ∷ log.log_index

unfoldable pub evm_log_block : EvmLog → Except ℕ
evm_log_block log = quantity_or_zero log.block_number

-- The comparison of two logs in the same block.
unfoldable pub position_before : EvmLog → EvmLog → Except Bool
position_before left right = do
  right_position ← evm_log_position right
  left_position ← evm_log_position left
  ok (not (evm_position_at_or_before right_position left_position))

unfoldable pub evm_log_before : EvmLog → EvmLog → Except Bool
evm_log_before left right = do
  left_block ← evm_log_block left
  right_block ← evm_log_block right
  if left_block == right_block then position_before left right else ok (ltb left_block right_block)

-- std::stable_sort, by insertion in front of equal logs. Which logs it compares first is left open by
-- the standard, and with it which malformed log is reported.
unfoldable pub insert_log :
    (EvmLog → EvmLog → Except Bool) → EvmLog → List EvmLog → Except (List EvmLog)
insert_log before log [] = ok (log ∷ [])
insert_log before log (first ∷ logs) =
    let inserted = insert_log before log logs in
    (do
      later ← before first log
      if later then (do rest ← inserted; ok (first ∷ rest)) else ok (log ∷ first ∷ logs))

unfoldable pub sort_logs : (EvmLog → EvmLog → Except Bool) → List EvmLog → Except (List EvmLog)
sort_logs before [] = ok []
sort_logs before (log ∷ logs) = do sorted ← sort_logs before logs; insert_log before log sorted
