-- ===== src/Depth/Examples.antt =====
-- Levels at 42 cents.
use polymarket_cpp_client.Prelude.{◌≡◌, ◌≤◌, ◌+◌, ◌*◌, refl, arith, true, false, inl}
use polymarket_cpp_client.Prelude.Gcd.{gcd}
use polymarket_cpp_client.Prelude.Except.{ok}
use polymarket_cpp_client.Amounts.{exact_multiply_divide, checked_multiply}
use polymarket_cpp_client.Depth.{
  AccumulatedNotional, add_notional, collateral_for, shares_for, checked_add,
}
use polymarket_cpp_client.Depth.Notional.{Tracks, add_notional-Tracks}
use polymarket_cpp_client.Depth.Fill.{collateral_for-shares_for}

-- Three micro USDC and a half.
abbrev some_notional : AccumulatedNotional
some_notional = record { units = 3; fractional_units = 500_000; saturated = false }

some_notional-Tracks : Tracks some_notional 3_500_000
some_notional-Tracks = inl (refl, refl, omega arith, omega arith)

add_notional-Tracks_example :
    Tracks (add_notional some_notional 10_000_001 420_000) (3_500_000 + 10_000_001 * 420_000)
add_notional-Tracks_example =
    add_notional-Tracks some_notional 3_500_000 10_000_001 420_000 some_notional-Tracks
      (omega arith)

bought : shares_for 1_000_000 420_000 ≡ ok 2_380_952
unfolding shares_for exact_multiply_divide checked_multiply checked_add gcd
bought = refl

paid : collateral_for 2_380_952 420_000 true ≡ ok 1_000_000
unfolding collateral_for exact_multiply_divide checked_multiply checked_add gcd
paid = refl

collateral_for-shares_for_example : 1_000_000 ≤ 1_000_000
collateral_for-shares_for_example =
    collateral_for-shares_for 1_000_000 420_000 2_380_952 1_000_000 (omega arith) bought paid
