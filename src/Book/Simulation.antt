-- ===== src/Book/Simulation.antt =====
-- The simulated fill of `estimate_market_depth`: src/market_price.cpp.
use polymarket_cpp_client.Prelude.{
  ℕ, ◌+◌, ◌-◌, ◌%◌, ◌^◌, Bool, true, false, ◌||◌, if◌then◌else◌, ltb, ◌==◌, String,
}
use Prim.Native.Nat.{min}
use polymarket_cpp_client.Prelude.Except.{Except, ok, ◌>>=◌}
use polymarket_cpp_client.Floats.{Floats}
use polymarket_cpp_client.Amounts.{
  OrderSide, buy, sell, calculate_market_order_amounts, validate_order_price,
}
use polymarket_cpp_client.Depth.{checked_add, collateral_for, shares_for}
use polymarket_cpp_client.Book.{
  LevelUnits, PriceLevel, Orderbook, level_units, find_depth_limit, visit_best_first, book_side,
}

-- What a budget that does not pay for the whole level buys of it.
unfoldable pub partial_fill : ℕ → ℕ → Except (ℕ × ℕ × Bool)
partial_fill remaining price_units = do
  shares ← shares_for remaining price_units
  collateral ← collateral_for shares price_units true
  ok (shares, collateral, true)

-- The shares and the collateral of one level, and whether it is filled in part.
unfoldable pub level_fill : OrderSide → ℕ → LevelUnits → Except (ℕ × ℕ × Bool)
level_fill buy remaining units = do
  level_cost ← collateral_for units.level_size units.price_units true
  if ltb remaining level_cost
      then partial_fill remaining units.price_units
      else ok (units.level_size, level_cost, false)
level_fill sell remaining units = do
  let shares = min remaining units.level_size
  collateral ← collateral_for shares units.price_units false
  ok (shares, collateral, false)

-- What `remaining` falls by; the subtraction wraps in uint64.
unfoldable pub reduce : OrderSide → ℕ → ℕ → ℕ → ℕ
reduce buy remaining shares collateral = (remaining + 2 ^ 64 - collateral) % 2 ^ 64
reduce sell remaining shares collateral = (remaining + 2 ^ 64 - shares) % 2 ^ 64

module _ (F : Floats) where
  open F use {Double, below, zero_double, from_uint64, divide}

  pub record MarketPriceEstimate : Type 0 where
    pub estimate_price : Double
    pub average_price : Double
    pub share_units : ℕ
    pub collateral_units : ℕ
    pub levels : ℕ
    pub fully_fillable : Bool

  -- The estimate so far and the part of the order that is not filled yet.
  pub record FillState : Type 0 where
    pub remaining : ℕ
    pub estimate : MarketPriceEstimate

  unfoldable pub add_fill : MarketPriceEstimate → ℕ → ℕ → Except MarketPriceEstimate
  add_fill e shares collateral = if shares == 0 then ok e else (do
    total_shares ← checked_add e.share_units shares
    total_collateral ← checked_add e.collateral_units collateral
    ok (record e {
      share_units = total_shares;
      collateral_units = total_collateral;
      levels = e.levels + 1;
    }))

  -- `side == BUY ? level.price > limit.price : level.price < limit.price`
  unfoldable pub beyond : OrderSide → PriceLevel F → Double → Bool
  beyond buy level limit = below limit level.price
  beyond sell level limit = below level.price limit

  unfoldable pub fill_level : OrderSide → FillState → PriceLevel F → Except (FillState × Bool)
  fill_level side s level = do
    units ← level_units F level
    (shares, collateral, part) ← level_fill side s.remaining units
    let remaining = reduce side s.remaining shares collateral
    estimate ← add_fill s.estimate shares collateral
    ok (record { remaining = remaining; estimate = estimate }, part || remaining == 0)

  unfoldable pub fill_visit :
      OrderSide → Double → FillState → PriceLevel F → Except (FillState × Bool)
  fill_visit side limit s level =
      if beyond side level limit then ok (s, true) else fill_level side s level

  unfoldable pub with_average : MarketPriceEstimate → MarketPriceEstimate
  with_average e = if e.share_units == 0 then e else record e {
    average_price = divide (from_uint64 e.collateral_units) (from_uint64 e.share_units);
  }

  unfoldable pub estimate_market_depth :
      Orderbook F → OrderSide → Double → String → Except MarketPriceEstimate
  estimate_market_depth book side amount tick_size = do
    limit ← find_depth_limit F book side amount tick_size
    price ← validate_order_price F limit.limit_price tick_size
    order ← calculate_market_order_amounts F side amount price
    filled ←
        visit_best_first F (book_side F side book) side (fill_visit side limit.limit_price)
          (record {
            remaining = order.maker;
            estimate = record {
              estimate_price = limit.limit_price;
              average_price = zero_double;
              share_units = 0;
              collateral_units = 0;
              levels = 0;
              fully_fillable = limit.limit_fillable;
            };
          })
    ok (with_average filled.estimate)
