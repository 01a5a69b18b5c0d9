-- ===== src/MarketTime/Examples.antt =====
-- Quarters of an hour.
use polymarket_cpp_client.Prelude.{ℕ, ◌≡◌, ◌%◌, ◌+◌, ◌≤◌, ◌<◌, refl, arith, [], ◌∷◌}
use polymarket_cpp_client.MarketTime.{
  aligned_market_timestamps, timestamp_loop, days_in_month, leap_year,
}
use polymarket_cpp_client.MarketTime.Aligned.{every, aligned_market_timestamps-every}

two_quarters : aligned_market_timestamps 2000 900 2 ≡ 1800 ∷ 2700 ∷ []
unfolding aligned_market_timestamps timestamp_loop
two_quarters = refl

leap_day : days_in_month 2024 2 ≡ 29
unfolding days_in_month leap_year
leap_day = refl

aligned_market_timestamps-every_example :
    (start : ℕ) × (aligned_market_timestamps 2000 900 2 ≡ every 2 start 900)
    × (start % 900 ≡ 0)
    × (start ≤ 2000)
    × (2000 < start + 900)
aligned_market_timestamps-every_example =
    aligned_market_timestamps-every 2000 900 2 (omega arith) (omega arith) (omega arith)
