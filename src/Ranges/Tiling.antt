-- ===== src/Ranges/Tiling.antt =====
-- The batches are the span, cut into pieces of the batch size.
use polymarket_cpp_client.Prelude.{
  ℕ, zero, suc, ◌+◌, ◌-◌, ◌%◌, ◌^◌, ◌≤◌, ◌<◌, ◌≡◌, ◌⊎◌, inl, inr, refl, arith, ◌==◌, ltb, false,
  Bool-cases, List, [], ◌∷◌, ap,
}
use polymarket_cpp_client.Prelude.Except.{ok}
use polymarket_cpp_client.Ranges.{BlockRange, batch_end, range_loop, evm_make_block_ranges}

-- The ranges follow one another from `next` to `stop`, each of at least one block and at most
-- `batch`, and of exactly `batch` unless it is the one that ends the span.
unfoldable pub Tiles : ℕ → ℕ → ℕ → List BlockRange → Type 0
Tiles batch next stop [] = next ≡ suc stop
Tiles batch next stop (r ∷ ranges) =
    (r.from ≡ next)
    × (r.from ≤ r.to)
    × (r.to < r.from + batch)
    × ((r.to ≡ stop) ⊎ (suc r.to ≡ r.from + batch))
    × Tiles batch (suc r.to) stop ranges

record IsBatchEnd (from stop batch to : ℕ) : Type 0 where
  later : from ≤ to
  within : to ≤ stop
  short : to < from + batch
  full : (to ≡ stop) ⊎ (suc to ≡ from + batch)

batch_end-IsBatchEnd :
    (from stop batch : ℕ)
    → from ≤ stop
    → stop < 2 ^ 64
    → 0 < batch
    → IsBatchEnd from stop batch (batch_end from stop batch)
unfolding batch_end
batch_end-IsBatchEnd from stop batch le w pos_batch = record {
  later = ground arith;
  within = ground arith;
  short = ground arith;
  full = ground arith;
}

range_loop-Tiles :
    (rounds from stop batch : ℕ)
    → from ≤ stop
    → stop < 2 ^ 64
    → 0 < batch
    → stop - from < rounds
    → Tiles batch from stop (range_loop rounds from stop batch)
unfolding range_loop Tiles
range_loop-Tiles zero from stop batch le w p enough = ground arith
range_loop-Tiles (suc rounds) from stop batch le w p enough =
    let to = batch_end from stop batch in
    let e = batch_end-IsBatchEnd from stop batch le w p in
    let inside : ltb stop from ≡ false = ground arith in
    elim (Bool-cases (to == stop)) [
      | inl t ↦
          let same : to ≡ stop = ground arith in
          rw (inside, t) (refl, e.later, e.short, e.full, ap suc same)
      | inr t ↦
          let before : to < stop = ground (arith, e.within) in
          let wrap : ((to + 1) % 2 ^ 64) ≡ suc to = omega arith in
          let rest : Tiles batch (suc to) stop (range_loop rounds (suc to) stop batch) =
            range_loop-Tiles rounds (suc to) stop batch (omega arith) w p
              (omega (arith, e.later)) in
          rw (inside, t, wrap) (refl, e.later, e.short, e.full, rest)
    ]

-- For uint64 block numbers with `from_block <= to_block` and a positive batch size the call succeeds,
-- and its ranges follow one another from `from_block` to `to_block` without gap or overlap, none of
-- them empty or longer than the batch size, and all but the last exactly as long.
pub evm_make_block_ranges-Tiles :
    (from_block to_block batch_size : ℕ)
    → from_block ≤ to_block
    → to_block < 2 ^ 64
    → 0 < batch_size
    → (ranges : List BlockRange) × (evm_make_block_ranges from_block to_block batch_size
        ≡ ok ranges)
      × Tiles batch_size from_block to_block ranges
unfolding evm_make_block_ranges
evm_make_block_ranges-Tiles from_block to_block batch_size le w p =
    let some_batch : (batch_size == 0) ≡ false = ground arith in
    let some_span : ltb to_block from_block ≡ false = ground arith in
    rw (some_batch, some_span)
      (
        range_loop (suc (to_block - from_block)) from_block to_block batch_size,
        refl,
        range_loop-Tiles _ from_block to_block batch_size le w p (omega arith),
      )
