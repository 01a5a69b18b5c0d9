-- ===== src/Amounts.antt =====
-- The integer amounts of an order: src/order_amounts.cpp, with the types of
-- src/order_execution.hpp. Prices and sizes come as doubles; all else is in uint64.
pub mod Exact
pub mod Price
pub mod OnTick
pub mod Grain
pub mod Limit
pub mod Market
mod Examples
use text.Mathlib.Text.{◌==◌ as str_eq}
use Prim.Native.String.{◌++◌ as str_append}
use polymarket_cpp_client.Prelude.{
  ℕ, zero, suc, ◌+◌, ◌-◌, ◌*◌, ◌/◌, ◌%◌, ◌^◌, Bool, not, ◌&&◌, ◌||◌, if◌then◌else◌, ltb, leb, ◌==◌,
  String,
}
use polymarket_cpp_client.Prelude.Gcd.{gcd}
use polymarket_cpp_client.Prelude.Int.{ℤ, pos, ◌-ℤ◌, ltb_ℤ, pos_part}
use polymarket_cpp_client.Prelude.Except.{
  Except, ok, throw, invalid_argument, out_of_range, logic_error, ◌>>=◌, ◌>>◌, throw_if,
}
use polymarket_cpp_client.Floats.{Floats}
use polymarket_cpp_client.Decimal.{
  RoundingMode, half_even, down, decimal_to_scaled_uint64, exact_decimal_to_scaled_uint64,
}

pub data OrderSide : Type 0 where
  buy sell : OrderSide

pub record OrderAmounts : Type 0 where
  pub maker : ℕ
  pub taker : ℕ

pub record OrderRoundingConfig : Type 0 where
  pub price_decimals : ℤ
  pub size_decimals : ℤ
  pub amount_decimals : ℤ
  pub tick_units : ℕ

pub record ValidatedOrderPrice : Type 0 where
  pub units : ℕ
  pub scale : ℕ
  pub rounding : OrderRoundingConfig

abbrev pub uint64_max : ℕ
uint64_max = 2 ^ 64 - 1

abbrev pub token_decimals : ℤ
token_decimals = pos 6

-- `for (index = 0; index < decimals; ++index) scale *= 10;`
unfoldable pub power_loop : ℕ → ℕ → ℕ
power_loop zero scale = scale
power_loop (suc rounds) scale = power_loop rounds (scale * 10)

unfoldable pub power_of_ten : ℤ → Except ℕ
power_of_ten decimals = do
  throw_if (ltb_ℤ decimals (pos 0) || ltb_ℤ (pos 18) decimals)
      (invalid_argument "decimal scale is out of range")
  ok (power_loop (pos_part decimals) 1)

unfoldable pub checked_multiply : ℕ → ℕ → Except ℕ
checked_multiply left right = do
  throw_if (not (right == 0) && ltb (uint64_max / right) left)
      (out_of_range "order amount exceeds uint64 range")
  ok (left * right)

unfoldable pub exact_multiply_divide : ℕ → ℕ → ℕ → Except ℕ
exact_multiply_divide value numerator denominator = do
  let value_factor = gcd value denominator
  let value' = value / value_factor
  let denominator' = denominator / value_factor
  let numerator_factor = gcd numerator denominator'
  let numerator' = numerator / numerator_factor
  throw_if (not (denominator' / numerator_factor == 1))
      (logic_error "order amount cannot represent the price exactly")
  checked_multiply value' numerator'

abbrev config : ℕ → ℕ → ℕ → ℕ → OrderRoundingConfig
config price size amount tick = record {
  price_decimals = pos price;
  size_decimals = pos size;
  amount_decimals = pos amount;
  tick_units = tick;
}

unfoldable pub rounding_config_for_tick_size : String → Except OrderRoundingConfig
rounding_config_for_tick_size tick_size =
    if str_eq tick_size "0.1"
    then ok (config 1 2 3 1)
    else if str_eq tick_size "0.01"
    then ok (config 2 2 4 1)
    else if str_eq tick_size "0.005"
    then ok (config 3 2 5 5)
    else if str_eq tick_size "0.0025"
    then ok (config 4 2 6 25)
    else if str_eq tick_size "0.001"
    then ok (config 3 2 5 1)
    else if str_eq tick_size "0.0001"
    then ok (config 4 2 6 1)
    else throw (invalid_argument (str_append "unsupported tick size: " tick_size))

-- The two amounts of `shares` for `cost`.
unfoldable pub sided : OrderSide → ℕ → ℕ → OrderAmounts
sided buy shares cost = record { maker = cost; taker = shares }
sided sell shares cost = record { maker = shares; taker = cost }

-- A market BUY spends the largest part of its budget that whole price units can express.
unfoldable pub buy_with_budget : ℕ → ValidatedOrderPrice → Except OrderAmounts
buy_with_budget budget price = do
  let maker_step = price.units / gcd price.units price.scale
  let maker = budget - budget % maker_step
  throw_if (maker == 0) (invalid_argument "market BUY budget is below one exact price unit")
  taker ← exact_multiply_divide maker price.scale price.units
  ok (record { maker = maker; taker = taker })

module _ (F : Floats) where
  open F use {Double, is_finite, is_not_positive}

  unfoldable pub amount_to_micro_units : Double → ℤ → Except ℕ
  amount_to_micro_units amount decimals = do
    throw_if (not (is_finite amount) || is_not_positive amount || ltb_ℤ token_decimals decimals)
        (invalid_argument "order amount must be finite and positive")
    units ← decimal_to_scaled_uint64 F amount decimals down
    power ← power_of_ten (token_decimals -ℤ decimals)
    micro_units ← checked_multiply units power
    throw_if (micro_units == 0) (invalid_argument "order amount rounds to zero")
    ok micro_units

  unfoldable pub quantized_price :
      Double → OrderRoundingConfig → RoundingMode → Except ValidatedOrderPrice
  quantized_price price rounding mode = do
    throw_if (not (is_finite price) || is_not_positive price)
        (invalid_argument "order price must be finite and positive")
    scale ← power_of_ten rounding.price_decimals
    units ← decimal_to_scaled_uint64 F price rounding.price_decimals mode
    throw_if (units == 0 || leb scale units)
        (invalid_argument "order price is outside the market range")
    ok (record { units = units; scale = scale; rounding = rounding })

  unfoldable pub amounts_for_shares : OrderSide → Double → ValidatedOrderPrice → Except OrderAmounts
  amounts_for_shares side size price = do
    shares ← amount_to_micro_units size price.rounding.size_decimals
    cost ← exact_multiply_divide shares price.units price.scale
    ok (sided side shares cost)

  -- `scale - rounding.tick_units` wraps in uint64.
  unfoldable pub validate_order_price : Double → String → Except ValidatedOrderPrice
  validate_order_price price tick_size = do
    rounding ← rounding_config_for_tick_size tick_size
    scale ← power_of_ten rounding.price_decimals
    units ← exact_decimal_to_scaled_uint64 F price rounding.price_decimals
    throw_if
        (ltb units rounding.tick_units
          || ltb ((scale + 2 ^ 64 - rounding.tick_units) % 2 ^ 64) units)
        (invalid_argument "order price is outside the market tick range")
    throw_if (not (units % rounding.tick_units == 0))
        (invalid_argument "order price is not an exact tick multiple")
    ok (record { units = units; scale = scale; rounding = rounding })

  unfoldable pub calculate_limit_order_amounts :
      OrderSide → Double → ValidatedOrderPrice → Except OrderAmounts
  calculate_limit_order_amounts side size price = amounts_for_shares side size price

  unfoldable pub calculate_limit_order_amounts_rounded :
      OrderSide → Double → Double → OrderRoundingConfig → Except OrderAmounts
  calculate_limit_order_amounts_rounded side price size rounding = do
    quantized ← quantized_price price rounding half_even
    amounts_for_shares side size quantized

  unfoldable pub calculate_limit_order_amounts_default :
      OrderSide → Double → Double → Except OrderAmounts
  calculate_limit_order_amounts_default side price size = do
    rounding ← rounding_config_for_tick_size "0.01"
    calculate_limit_order_amounts_rounded side price size rounding

  unfoldable pub market_buy_amounts : Double → ValidatedOrderPrice → Except OrderAmounts
  market_buy_amounts amount price = do
    budget ← amount_to_micro_units amount price.rounding.size_decimals
    buy_with_budget budget price

  unfoldable pub calculate_market_order_amounts :
      OrderSide → Double → ValidatedOrderPrice → Except OrderAmounts
  calculate_market_order_amounts sell amount price = amounts_for_shares sell amount price
  calculate_market_order_amounts buy amount price = market_buy_amounts amount price

  unfoldable pub calculate_market_order_amounts_rounded :
      OrderSide → Double → Double → OrderRoundingConfig → Except OrderAmounts
  calculate_market_order_amounts_rounded side amount price rounding = do
    quantized ← quantized_price price rounding down
    calculate_market_order_amounts side amount quantized
