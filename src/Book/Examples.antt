-- ===== src/Book/Examples.antt =====
-- A book whose asks are neither best first nor best last.
use polymarket_cpp_client.Prelude.{ℕ, ◌≡◌, ◌≤◌, refl, true, false, List, [], ◌∷◌, arith, ltb, ◌*◌}
use mathlib.Core.List.{Perm}
use polymarket_cpp_client.Prelude.Gcd.{gcd}
use polymarket_cpp_client.Prelude.Except.{ok}
use polymarket_cpp_client.Floats.FixedPoint.{fixed_point}
use polymarket_cpp_client.Decimal.{
  decimal_to_scaled_uint64, exact_decimal_to_scaled_uint64, decimal_scale, scale_loop, rounded,
  round_down_with_ulp_correction, scaled_input_ulp, checked_uint64,
}
use polymarket_cpp_client.Amounts.{
  ValidatedOrderPrice, OrderAmounts, buy, validate_order_price, power_of_ten, power_loop,
  rounding_config_for_tick_size, calculate_market_order_amounts, amounts_for_shares,
  amount_to_micro_units, checked_multiply, exact_multiply_divide, sided, market_buy_amounts,
  buy_with_budget,
}
use polymarket_cpp_client.Depth.{
  notional_covers, add_notional, add_contribution, carry_fraction, collateral_for, shares_for,
  checked_add,
}
use polymarket_cpp_client.Book.{
  PriceLevel, Orderbook, DepthLimit, find_depth_limit, best_first, is_sorted, sort_levels,
  insert_level, better, visit_best_first, visit_levels, all_finite, book_side, accumulate, covered,
  depth_visit, level_units, exact_depth_units,
}
use polymarket_cpp_client.Book.Simulation.{
  MarketPriceEstimate, estimate_market_depth, fill_visit, fill_level, add_fill, beyond,
  partial_fill, level_fill, reduce, with_average,
}
use polymarket_cpp_client.Book.Walk.{IsBestFirst, best_first-IsBestFirst}
use polymarket_cpp_client.Book.Estimate.{used, estimate_market_depth-le}

abbrev level : ℕ → ℕ → PriceLevel fixed_point
level cents shares = record { price = cents * 10_000_000; size = shares * 1_000_000_000 }

abbrev asks : List (PriceLevel fixed_point)
asks = level 44 10 ∷ level 42 10 ∷ level 43 100 ∷ []

abbrev book : Orderbook fixed_point
book = record { bids = []; asks = asks }

sorted : best_first fixed_point buy asks ≡ level 42 10 ∷ level 43 100 ∷ level 44 10 ∷ []
unfolding best_first is_sorted sort_levels insert_level better
sorted = refl

ltb_asymm : (a b : ℕ) → ltb a b ≡ true → ltb b a ≡ false
ltb_asymm a b h = ground arith

best_first-IsBestFirst_example :
    Perm (best_first fixed_point buy asks) asks
    × IsBestFirst fixed_point buy (best_first fixed_point buy asks)
best_first-IsBestFirst_example = best_first-IsBestFirst fixed_point buy asks ltb_asymm

abbrev expected : MarketPriceEstimate fixed_point
expected = record {
  estimate_price = 430_000_000;
  average_price = 424_999_992;
  share_units = 19999958;
  collateral_units = 8499982;
  levels = 2;
  fully_fillable = true;
}

estimated : estimate_market_depth fixed_point book buy 8_500_000_000 "0.01" ≡ ok expected
unfolding estimate_market_depth find_depth_limit visit_best_first visit_levels all_finite book_side
    best_first is_sorted sort_levels insert_level better depth_visit accumulate covered level_units
    exact_depth_units notional_covers add_notional add_contribution carry_fraction
    validate_order_price rounding_config_for_tick_size power_of_ten power_loop
    exact_decimal_to_scaled_uint64 decimal_to_scaled_uint64 rounded round_down_with_ulp_correction
    decimal_scale scale_loop scaled_input_ulp checked_uint64 calculate_market_order_amounts
    amounts_for_shares amount_to_micro_units checked_multiply exact_multiply_divide sided
    market_buy_amounts buy_with_budget gcd fill_visit fill_level add_fill beyond partial_fill
    level_fill reduce with_average collateral_for shares_for checked_add
estimated = refl

estimate_market_depth-le_example :
    (limit : DepthLimit ℕ) × (p : ValidatedOrderPrice) × (order : OrderAmounts) × (find_depth_limit
        fixed_point book buy 8_500_000_000 "0.01"
      ≡ ok limit)
    × (validate_order_price fixed_point limit.limit_price "0.01" ≡ ok p)
    × (calculate_market_order_amounts fixed_point buy 8_500_000_000 p ≡ ok order)
    × (used fixed_point buy expected ≤ order.maker)
estimate_market_depth-le_example =
    estimate_market_depth-le fixed_point book buy 8_500_000_000 "0.01" expected estimated
