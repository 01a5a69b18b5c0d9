-- ===== src/MarketTime.antt =====
-- Times of markets: src/market_time.cpp. An `int` year is a natural number, as after year 0.
pub mod Aligned
mod Examples
use polymarket_cpp_client.Prelude.{
  ℕ, zero, suc, ◌+◌, ◌-◌, ◌*◌, ◌/◌, ◌%◌, ◌^◌, Bool, not, ◌&&◌, ◌||◌, if◌then◌else◌, leb, ◌==◌, List,
  [], ◌∷◌, get_or,
}

unfoldable pub leap_year : ℕ → Bool
leap_year year = (year % 4 == 0) && (not (year % 100 == 0) || (year % 400 == 0))

unfoldable pub days_in_month : ℕ → ℕ → ℕ
days_in_month year month =
    if (month == 2) && leap_year year
    then 29
    else get_or (0 ∷ 31 ∷ 28 ∷ 31 ∷ 30 ∷ 31 ∷ 30 ∷ 31 ∷ 31 ∷ 30 ∷ 31 ∷ 30 ∷ 31 ∷ []) month 0

-- The loop, from `index` on for `count` rounds; a uint64_t wraps.
unfoldable pub timestamp_loop : ℕ → ℕ → ℕ → ℕ → List ℕ
timestamp_loop zero current interval index = []
timestamp_loop (suc rounds) current interval index =
    ((current + interval * index) % 2 ^ 64) ∷ timestamp_loop rounds current interval (index + 1)

-- For a count that is not negative.
unfoldable pub aligned_market_timestamps : ℕ → ℕ → ℕ → List ℕ
aligned_market_timestamps now interval count =
    if (interval == 0) || (count == 0)
    then []
    else timestamp_loop count (now / interval * interval) interval 0
