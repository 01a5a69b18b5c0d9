-- ===== src/Cursors.antt =====
-- The indexer's cursors and the store that keeps them: src/evm_cursor_store.cpp. The store is the
-- entry of one name in the cursor file; the file's JSON and its rename are not modelled, and each
-- method holds the path's mutex, so that a method is one step.
pub mod Order
mod Examples
use polymarket_cpp_client.Prelude.{
  ℕ, suc, ◌-◌, ltb, leb, ◌==◌, Bool, true, false, not, ◌&&◌, ◌||◌, if◌then◌else◌, List, [], ◌∷◌,
  Option, none, some, Bytes, equal_bytes,
}

pub record EvmLogPosition : Type 0 where
  pub transaction_index : ℕ
  pub log_index : ℕ
  pub block_hash : Bytes

pub record EvmIndexCursor : Type 0 where
  pub block_number : ℕ
  pub block_complete : Bool
  pub last_log : Option EvmLogPosition

-- The order of two positions in the same block, of the same hash.
unfoldable pub position_advances : EvmLogPosition → EvmLogPosition → Bool
position_advances current next =
    equal_bytes next.block_hash current.block_hash
    && (ltb current.transaction_index next.transaction_index
        || ((next.transaction_index == current.transaction_index)
            && leb current.log_index next.log_index))

unfoldable pub last_log_advances : Option EvmLogPosition → Option EvmLogPosition → Bool
last_log_advances current none = false
last_log_advances none (some next) = true
last_log_advances (some current) (some next) = position_advances current next

unfoldable pub cursor_advances : EvmIndexCursor → EvmIndexCursor → Bool
cursor_advances current next =
    if not (next.block_number == current.block_number)
    then ltb current.block_number next.block_number
    else if current.block_complete
    then next.block_complete
    else if next.block_complete
    then true
    else last_log_advances current.last_log next.last_log

-- {block_number, true, std::nullopt}
abbrev pub whole_block : ℕ → EvmIndexCursor
whole_block n = record { block_number = n; block_complete = true; last_log = none }

-- `load`: the last block that is complete.
unfoldable pub load : Option EvmIndexCursor → Option ℕ
load none = none
load (some cursor) =
    if cursor.block_complete
    then some cursor.block_number
    else if cursor.block_number == 0
    then none
    else some (cursor.block_number - 1)

unfoldable pub save : Option EvmIndexCursor → ℕ → Option EvmIndexCursor
save none n = some (whole_block n)
save (some cursor) n = if ltb n cursor.block_number then some cursor else some (whole_block n)

unfoldable pub save_cursor : Option EvmIndexCursor → EvmIndexCursor → Option EvmIndexCursor
save_cursor none next = some next
save_cursor (some cursor) next =
    if not (cursor_advances cursor next) then some cursor else some next

unfoldable pub rewind : Option EvmIndexCursor → ℕ → Option EvmIndexCursor
rewind none n = none
rewind (some cursor) n =
    if ltb cursor.block_number n
    then some cursor
    else some (record { block_number = n; block_complete = false; last_log = none })

-- The calls of an indexer between two reorganisations.
pub data Saving : Type 0 where
  saves : ℕ → Saving
  saves_cursor : EvmIndexCursor → Saving

unfoldable pub save_all : Option EvmIndexCursor → List Saving → Option EvmIndexCursor
save_all entry [] = entry
save_all entry (saves n ∷ calls) = save_all (save entry n) calls
save_all entry (saves_cursor c ∷ calls) = save_all (save_cursor entry c) calls
