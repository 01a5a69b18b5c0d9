-- ===== src/Book.antt =====
-- Walks over one side of a book: the lower half of src/market_price.cpp, over the floating point of
-- `Floats`.
pub mod Walk
pub mod Simulation
pub mod Estimate
mod Examples
use polymarket_cpp_client.Prelude.{
  ℕ, Bool, true, false, not, ◌&&◌, ◌||◌, if◌then◌else◌, leb, ◌==◌, List, [], ◌∷◌, String,
}
use mathlib.Core.List.{reverse}
use polymarket_cpp_client.Prelude.Int.{ℤ, pos}
use polymarket_cpp_client.Prelude.Except.{
  Except, ok, throw, invalid_argument, runtime_error, ◌>>=◌, ◌>>◌, throw_if,
}
use polymarket_cpp_client.Floats.{Floats}
use polymarket_cpp_client.Decimal.{exact_decimal_to_scaled_uint64}
use polymarket_cpp_client.Amounts.{
  OrderSide, buy, sell, calculate_market_order_amounts, validate_order_price,
}
use polymarket_cpp_client.Depth.{
  depth_scale, AccumulatedNotional, AccumulatedSize, no_notional, no_size, notional_covers,
  size_covers, add_notional, add_size,
}

pub record LevelUnits : Type 0 where
  pub price_units : ℕ
  pub level_size : ℕ

pub data OrderType : Type 0 where
  gtc gtd fok fak : OrderType

pub record DepthLimit (D : Type 0) : Type 0 where
  pub limit_price : D
  pub limit_fillable : Bool

-- The state that one visit of a level leaves, and whether the walk stops there.
abbrev Visit : Type 0 → Type 0 → Type 0
Visit L S = S → L → Except (S × Bool)

-- Calls visit on the levels in the order given until it returns true.
unfoldable pub visit_levels : {L S : Type 0} → Visit L S → S → List L → Except S
visit_levels visit state [] = ok state
visit_levels visit state (level ∷ levels) = elim (visit state level) [
  | throw e ↦ throw e
  | ok (next, true) ↦ ok next
  | ok (next, false) ↦ visit_levels visit next levels
]

module _ (F : Floats) where
  open F use {Double, is_finite, is_negative, is_not_positive, at_least_one, below, zero_double}

  pub record PriceLevel : Type 0 where
    pub price : Double
    pub size : Double

  -- The parts of the book that the walk reads.
  pub record Orderbook : Type 0 where
    pub bids : List PriceLevel
    pub asks : List PriceLevel

  unfoldable pub exact_depth_units : Double → Except ℕ
  exact_depth_units value = exact_decimal_to_scaled_uint64 F value (pos 6)

  unfoldable pub level_units : PriceLevel → Except LevelUnits
  level_units level = do
    throw_if
        (not (is_finite level.price)
          || not (is_finite level.size)
          || is_not_positive level.price
          || at_least_one level.price
          || is_negative level.size)
        (invalid_argument "orderbook level is invalid")
    size_units ← exact_depth_units level.size
    price_units ← exact_depth_units level.price
    throw_if (price_units == 0 || leb depth_scale price_units)
        (invalid_argument "orderbook level is invalid")
    ok (record { price_units = price_units; level_size = size_units })

  unfoldable pub better : OrderSide → PriceLevel → PriceLevel → Bool
  better buy left right = below left.price right.price
  better sell left right = below right.price left.price

  unfoldable pub all_finite : List PriceLevel → Bool
  all_finite [] = true
  all_finite (level ∷ levels) = is_finite level.price && all_finite levels

  -- std::is_sorted: no level is better than the one before it.
  unfoldable pub is_sorted : OrderSide → List PriceLevel → Bool
  is_sorted side [] = true
  is_sorted side (a ∷ []) = true
  is_sorted side (a ∷ b ∷ levels) = not (better side b a) && is_sorted side (b ∷ levels)

  -- std::sort leaves the order of equal prices open; here it is insertion behind equal ones.
  unfoldable pub insert_level : OrderSide → PriceLevel → List PriceLevel → List PriceLevel
  insert_level side a [] = a ∷ []
  insert_level side a (b ∷ levels) =
      if better side b a then b ∷ insert_level side a levels else a ∷ b ∷ levels

  unfoldable pub sort_levels : OrderSide → List PriceLevel → List PriceLevel
  sort_levels side [] = []
  sort_levels side (a ∷ levels) = insert_level side a (sort_levels side levels)

  -- REST books list the best price last; OrderbookManager lists it first.
  unfoldable pub best_first : OrderSide → List PriceLevel → List PriceLevel
  best_first side levels =
      if is_sorted side levels
      then levels
      else if is_sorted side (reverse levels)
      then reverse levels
      else sort_levels side levels

  unfoldable pub visit_best_first :
      {S : Type 0} → List PriceLevel → OrderSide → Visit PriceLevel S → S → Except S
  visit_best_first levels side visit state = do
    throw_if (not (all_finite levels)) (invalid_argument "orderbook level is invalid")
    visit_levels visit state (best_first side levels)

  unfoldable pub book_side : OrderSide → Orderbook → List PriceLevel
  book_side buy book = book.asks
  book_side sell book = book.bids

  -- What `find_depth_limit` carries from level to level.
  pub record DepthState : Type 0 where
    pub notional : AccumulatedNotional
    pub available : AccumulatedSize
    pub limit : DepthLimit Double

  unfoldable pub accumulate : OrderSide → DepthState → LevelUnits → DepthState
  accumulate buy s units = record s {
    notional = add_notional s.notional units.level_size units.price_units;
  }
  accumulate sell s units = record s { available = add_size s.available units.level_size }

  unfoldable pub covered : OrderSide → DepthState → ℕ → Bool
  covered buy s target = notional_covers s.notional target
  covered sell s target = size_covers s.available target

  unfoldable pub depth_visit :
      OrderSide → Double → String → DepthState → PriceLevel → Except (DepthState × Bool)
  depth_visit side amount tick_size s level = do
    units ← level_units level
    price ← validate_order_price F level.price tick_size
    candidate ← calculate_market_order_amounts F side amount price
    let next = accumulate side s units
    let fillable = covered side next candidate.maker
    ok (
      record next { limit = record { limit_price = level.price; limit_fillable = fillable } },
      fillable,
    )

  unfoldable pub find_depth_limit :
      Orderbook → OrderSide → Double → String → Except (DepthLimit Double)
  find_depth_limit book side amount tick_size = do
    throw_if (not (is_finite amount) || is_not_positive amount)
        (invalid_argument "market order amount must be finite and positive")
    throw_if (elim (book_side side book) [ [] ↦ true | _ ∷ _ ↦ false ])
        (runtime_error "no matching orders")
    found ←
        visit_best_first (book_side side book) side (depth_visit side amount tick_size) (record {
          notional = no_notional;
          available = no_size;
          limit = record { limit_price = zero_double; limit_fillable = false };
        })
    ok found.limit

  unfoldable pub calculate_market_price :
      Orderbook → OrderSide → Double → OrderType → String → Except Double
  calculate_market_price book side amount order_type tick_size = do
    limit ← find_depth_limit book side amount tick_size
    throw_if (not limit.limit_fillable && elim order_type [ fok ↦ true | _ ↦ false ])
        (runtime_error "insufficient orderbook depth for FOK order")
    ok limit.limit_price
