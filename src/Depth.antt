-- ===== src/Depth.antt =====
-- The arithmetic of book depth: the upper half of src/market_price.cpp. Sizes, prices and collateral
-- are uint64 counts of millionths.
pub mod Notional
pub mod Fill
mod Examples
use polymarket_cpp_client.Prelude.{
  ℕ, suc, ◌+◌, ◌-◌, ◌*◌, ◌/◌, ◌%◌, ◌^◌, Bool, true, false, not, ◌&&◌, ◌||◌, if◌then◌else◌, ltb, leb,
  ◌==◌, List, [], ◌∷◌, String,
}
use mathlib.Core.List.{reverse}
use polymarket_cpp_client.Prelude.Int.{ℤ, pos}
use polymarket_cpp_client.Prelude.Except.{
  Except, ok, throw, invalid_argument, out_of_range, runtime_error, ◌>>=◌, ◌>>◌, throw_if,
}
use polymarket_cpp_client.Floats.{Floats}
use polymarket_cpp_client.Decimal.{exact_decimal_to_scaled_uint64}
use polymarket_cpp_client.Amounts.{
  OrderSide, buy, sell, uint64_max, calculate_market_order_amounts, validate_order_price,
}

abbrev pub depth_scale : ℕ
depth_scale = 1_000_000

-- `fractional_units` counts millionths of a unit.
pub record AccumulatedNotional : Type 0 where
  pub units : ℕ
  pub fractional_units : ℕ
  pub saturated : Bool

pub record AccumulatedSize : Type 0 where
  pub size_units : ℕ
  pub size_saturated : Bool

abbrev pub no_notional : AccumulatedNotional
no_notional = record { units = 0; fractional_units = 0; saturated = false }

abbrev pub no_size : AccumulatedSize
no_size = record { size_units = 0; size_saturated = false }

unfoldable pub notional_covers : AccumulatedNotional → ℕ → Bool
notional_covers total target = total.saturated || leb target total.units

unfoldable pub size_covers : AccumulatedSize → ℕ → Bool
size_covers total target = total.size_saturated || leb target total.size_units

-- The last steps of `add_notional`: the fraction may carry one unit.
unfoldable pub carry_fraction : AccumulatedNotional → AccumulatedNotional
carry_fraction total =
    if ltb total.fractional_units depth_scale
    then total
    else if total.units == uint64_max
    then record total { fractional_units = total.fractional_units - depth_scale; saturated = true }
    else record total {
      units = total.units + 1;
      fractional_units = total.fractional_units - depth_scale;
    }

unfoldable pub add_contribution : AccumulatedNotional → ℕ → ℕ → AccumulatedNotional
add_contribution total contribution_units contribution_fraction =
    if ltb (uint64_max - total.units) contribution_units
    then record total { saturated = true }
    else carry_fraction (record total {
      units = total.units + contribution_units;
      fractional_units = total.fractional_units + contribution_fraction;
    })

unfoldable pub add_notional : AccumulatedNotional → ℕ → ℕ → AccumulatedNotional
add_notional total size_units price_units =
    let size_whole = size_units / depth_scale in
    let size_fraction = size_units % depth_scale in
    let fractional_product = size_fraction * price_units in
    let fractional_whole = fractional_product / depth_scale in
    let contribution_fraction = fractional_product % depth_scale in
    if total.saturated
    then total
    else if not (price_units == 0) && ltb ((uint64_max - fractional_whole) / price_units) size_whole
    then record total { saturated = true }
    else add_contribution total (size_whole * price_units + fractional_whole) contribution_fraction

unfoldable pub add_size : AccumulatedSize → ℕ → AccumulatedSize
add_size total units =
    if total.size_saturated
    then total
    else if ltb (uint64_max - total.size_units) units
    then record total { size_saturated = true }
    else record total { size_units = total.size_units + units }

unfoldable pub checked_add : ℕ → ℕ → Except ℕ
checked_add left right = do
  throw_if (ltb (uint64_max - left) right) (out_of_range "simulated fill exceeds uint64 range")
  ok (left + right)

-- Collateral for `share_units` at one price.
-- A level of a book has a price below depth_scale, for which no product here exceeds 2^64.
unfoldable pub collateral_for : ℕ → ℕ → Bool → Except ℕ
collateral_for share_units price_units round_up = do
  let whole = share_units / depth_scale
  let fractional_product = share_units % depth_scale * price_units
  throw_if (ltb ((uint64_max - depth_scale) / price_units) whole)
      (out_of_range "simulated fill exceeds uint64 range")
  let units = whole * price_units + fractional_product / depth_scale
  ok (if round_up && not (fractional_product % depth_scale == 0) then units + 1 else units)

-- Shares that `collateral_units` buys at one price, rounded down.
unfoldable pub shares_for : ℕ → ℕ → Except ℕ
shares_for collateral_units price_units = do
  let whole = collateral_units / price_units
  let remainder = collateral_units % price_units
  throw_if (ltb ((uint64_max - depth_scale) / depth_scale) whole)
      (out_of_range "simulated fill exceeds uint64 range")
  ok (whole * depth_scale + remainder * depth_scale / price_units)
