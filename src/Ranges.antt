-- ===== src/Ranges.antt =====
-- Splitting a span of blocks into batches: `evm_make_block_ranges` of src/evm_cursor_store.cpp.
pub mod Tiling
mod Examples
use polymarket_cpp_client.Prelude.{
  ℕ, zero, suc, ◌+◌, ◌-◌, ◌%◌, ◌^◌, ◌==◌, ltb, List, [], ◌∷◌, if◌then◌else◌,
}
use polymarket_cpp_client.Prelude.Except.{Except, ok, throw, invalid_argument}

pub record BlockRange : Type 0 where
  pub from : ℕ
  pub to : ℕ

-- `from + std::min(batch_size - 1, to_block - from)`, in uint64_t.
unfoldable pub batch_end : ℕ → ℕ → ℕ → ℕ
batch_end from to_block batch_size =
    (from + (if ltb (to_block - from) (batch_size - 1) then to_block - from else batch_size - 1))
    % 2 ^ 64

-- The loop: `for (from = from_block; from <= to_block;)`.
unfoldable pub range_loop : ℕ → ℕ → ℕ → ℕ → List BlockRange
range_loop zero from to_block batch_size = []
range_loop (suc rounds) from to_block batch_size =
    let to = batch_end from to_block batch_size in
    let rest = range_loop rounds ((to + 1) % 2 ^ 64) to_block batch_size in
    let range : BlockRange = record { from = from; to = to } in
    if ltb to_block from then [] else if to == to_block then range ∷ [] else range ∷ rest

-- A round moves `from` up by one at least, so that the blocks that are left bound the rounds.
unfoldable pub evm_make_block_ranges : ℕ → ℕ → ℕ → Except (List BlockRange)
evm_make_block_ranges from_block to_block batch_size =
    if batch_size == 0
    then throw (invalid_argument "batch_size must be positive")
    else if ltb to_block from_block
    then ok []
    else ok (range_loop (suc (to_block - from_block)) from_block to_block batch_size)
