-- ===== src/MarketTime/Aligned.antt =====
-- The intervals that are listed.
use native.Mathlib.Nat
use polymarket_cpp_client.Prelude.{
  ℕ, zero, suc, ◌+◌, ◌*◌, ◌/◌, ◌%◌, ◌^◌, ◌<◌, ◌≤◌, ◌≡◌, refl, ap, ap₂, ◌∙◌, arith, ◌==◌, false,
  ◌||◌, List, [], ◌∷◌,
}
use polymarket_cpp_client.MarketTime.{timestamp_loop, aligned_market_timestamps}

-- `count` times, `interval` apart, from `start` on.
unfoldable pub every : ℕ → ℕ → ℕ → List ℕ
every zero start interval = []
every (suc count) start interval = start ∷ every count (start + interval) interval

timestamp_loop-every :
    (count current interval index : ℕ)
    → current + interval * (index + count) < 2 ^ 64
    → timestamp_loop count current interval index
      ≡ every count (current + interval * index) interval
unfolding timestamp_loop every
timestamp_loop-every zero current interval index h = refl
timestamp_loop-every (suc count) current interval index h =
    let more : interval * (index + suc count) ≡ interval * index + interval * suc count =
      grind arith in
    let next : interval * (index + 1 + count) ≡ interval * (index + suc count) =
      ap (λ (t : ℕ). interval * t) (omega arith) in
    let step : interval * (index + 1) ≡ interval * index + interval = grind arith in
    let fits : (current + interval * index) % 2 ^ 64 ≡ current + interval * index = omega arith in
    ap₂ ◌∷◌ fits (
      timestamp_loop-every count current interval (index + 1) (omega arith)
      ∙ ap (λ s. every count s interval) (omega arith))

-- Where no time exceeds uint64, the timestamps are as many as asked for, one interval apart, and begin
-- with the start of the interval that `now` falls in.
pub aligned_market_timestamps-every :
    (now interval count : ℕ)
    → 0 < interval
    → 0 < count
    → now + interval * count < 2 ^ 64
    → (start : ℕ) × (aligned_market_timestamps now interval count ≡ every count start interval)
      × (start % interval ≡ 0)
      × (start ≤ now)
      × (now < start + interval)
unfolding aligned_market_timestamps
aligned_market_timestamps-every now interval count some_interval some_count small =
    let start : ℕ = now / interval * interval in
    let split : start + now % interval ≡ now = omega (arith, Nat.div-add-mod now interval) in
    let left : now % interval < interval = Nat.mod-lt now some_interval in
    let given : ((interval == 0) || (count == 0)) ≡ false = ground arith in
    let none_first : interval * (0 + count) ≡ interval * count =
      ap (λ (t : ℕ). interval * t) (omega arith) in
    let begin : start + interval * 0 ≡ start = omega arith in
    (
      start,
      rw given (
          timestamp_loop-every count start interval 0 (omega arith)
          ∙ ap (λ s. every count s interval) begin),
      Nat.mul-mod_left (now / interval) interval,
      omega arith,
      omega arith,
    )
