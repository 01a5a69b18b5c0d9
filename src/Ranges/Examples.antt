-- ===== src/Ranges/Examples.antt =====
-- Ten blocks in batches of four.
use polymarket_cpp_client.Prelude.{ℕ, ◌≡◌, refl, ◌∷◌, [], List, arith}
use polymarket_cpp_client.Prelude.Except.{ok}
use polymarket_cpp_client.Ranges.{BlockRange, evm_make_block_ranges, range_loop, batch_end}
use polymarket_cpp_client.Ranges.Tiling.{Tiles, evm_make_block_ranges-Tiles}

abbrev range : ℕ → ℕ → BlockRange
range from to = record { from = from; to = to }

ten_blocks :
    evm_make_block_ranges 100 109 4 ≡ ok (range 100 103 ∷ range 104 107 ∷ range 108 109 ∷ [])
unfolding evm_make_block_ranges range_loop batch_end
ten_blocks = refl

evm_make_block_ranges-Tiles_example :
    (ranges : List BlockRange) × (evm_make_block_ranges 100 109 4 ≡ ok ranges)
    × Tiles 4 100 109 ranges
evm_make_block_ranges-Tiles_example =
    evm_make_block_ranges-Tiles 100 109 4 (omega arith) (omega arith) (omega arith)
