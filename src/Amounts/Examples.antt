-- ===== src/Amounts/Examples.antt =====
-- Orders at 42 cents on a tick of one cent.
use polymarket_cpp_client.Prelude.{◌≡◌, refl, ◌*◌, ◌≤◌, arith}
use polymarket_cpp_client.Prelude.Gcd.{gcd}
use polymarket_cpp_client.Prelude.Except.{ok}
use polymarket_cpp_client.Floats.FixedPoint.{fixed_point}
use polymarket_cpp_client.Decimal.{
  decimal_to_scaled_uint64, exact_decimal_to_scaled_uint64, decimal_scale, scale_loop, rounded,
  round_down_with_ulp_correction, scaled_input_ulp, checked_uint64,
}
use polymarket_cpp_client.Amounts.{
  ValidatedOrderPrice, OrderAmounts, buy, config, validate_order_price, power_of_ten, power_loop,
  rounding_config_for_tick_size, calculate_limit_order_amounts, calculate_market_order_amounts,
  amounts_for_shares, amount_to_micro_units, checked_multiply, exact_multiply_divide, sided,
  market_buy_amounts, buy_with_budget,
}
use polymarket_cpp_client.Amounts.Exact.{quotient, exact_multiply_divide-quotient}
use polymarket_cpp_client.Amounts.Price.{IsValidPrice, validate_order_price-IsValidPrice}
use polymarket_cpp_client.Amounts.Limit.{IsExactOrder, calculate_limit_order_amounts-IsExactOrder}
use polymarket_cpp_client.Amounts.Market.{market_buy_exact, market_buy_maximal}

abbrev cents42 : ValidatedOrderPrice
cents42 = record { units = 42; scale = 100; rounding = config 2 2 4 1 }

validated : validate_order_price fixed_point 420_000_000 "0.01" ≡ ok cents42
unfolding validate_order_price rounding_config_for_tick_size power_of_ten power_loop
    exact_decimal_to_scaled_uint64 decimal_scale scale_loop scaled_input_ulp checked_uint64
validated = refl

exact_multiply_divide-quotient_example :
    exact_multiply_divide 12_500_000 42 100 ≡ quotient 12_500_000 42 100
exact_multiply_divide-quotient_example =
    exact_multiply_divide-quotient 12_500_000 42 100 (omega arith)

valid : IsValidPrice cents42
valid = validate_order_price-IsValidPrice fixed_point 420_000_000 "0.01" cents42 validated

abbrev ten_shares : OrderAmounts
ten_shares = record { maker = 4_200_000; taker = 10_000_000 }

limit_buy : calculate_limit_order_amounts fixed_point buy 10_000_000_000 cents42 ≡ ok ten_shares
unfolding calculate_limit_order_amounts amounts_for_shares amount_to_micro_units
    decimal_to_scaled_uint64 decimal_scale scale_loop rounded round_down_with_ulp_correction
    checked_uint64 power_of_ten power_loop checked_multiply exact_multiply_divide gcd sided
limit_buy = refl

calculate_limit_order_amounts-IsExactOrder_example : IsExactOrder buy ten_shares cents42
calculate_limit_order_amounts-IsExactOrder_example =
    calculate_limit_order_amounts-IsExactOrder fixed_point buy 10_000_000_000 cents42 ten_shares
      valid limit_buy

-- A budget of 10 USDC at 42 cents: 21 micro USDC are the least step.
abbrev ten_usdc : OrderAmounts
ten_usdc = record { maker = 9_999_990; taker = 23_809_500 }

market_buy : calculate_market_order_amounts fixed_point buy 10_000_000_000 cents42 ≡ ok ten_usdc
unfolding calculate_market_order_amounts market_buy_amounts buy_with_budget amount_to_micro_units
    decimal_to_scaled_uint64 decimal_scale scale_loop rounded round_down_with_ulp_correction
    checked_uint64 power_of_ten power_loop checked_multiply exact_multiply_divide gcd
market_buy = refl

budget :
    amount_to_micro_units fixed_point 10_000_000_000 cents42.rounding.size_decimals ≡ ok 10_000_000
unfolding amount_to_micro_units decimal_to_scaled_uint64 decimal_scale scale_loop rounded
    round_down_with_ulp_correction checked_uint64 power_of_ten power_loop checked_multiply
budget = refl

market_buy_exact_example : ten_usdc.taker * 42 ≡ ten_usdc.maker * 100
market_buy_exact_example = (market_buy_exact fixed_point valid 10_000_000_000 ten_usdc market_buy).4

market_buy_maximal_example : 9_999_969 ≤ ten_usdc.maker
market_buy_maximal_example =
    market_buy_maximal fixed_point valid 10_000_000_000 ten_usdc 10_000_000 9_999_969 market_buy
      budget (omega arith) refl
