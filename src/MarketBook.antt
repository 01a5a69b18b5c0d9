-- ===== src/MarketBook.antt =====
-- The book of a token that the market stream keeps: `apply_market_book_event` of
-- src/websocket_market_data.cpp, over the floating point of `Floats`. `near` is the test
-- `std::abs(x - y) < 1e-12`. std::lower_bound is the scan for the first level that is not before the
-- price, which is what it finds in a sorted side.
pub mod Change
pub mod Sorted
mod Examples
use polymarket_cpp_client.Prelude.{
  ℕ, Bool, true, false, not, ◌&&◌, ◌||◌, if◌then◌else◌, List, [], ◌∷◌, Bytes,
}
use polymarket_cpp_client.Prelude.Except.{Except, ok, throw, invalid_argument}
use polymarket_cpp_client.Floats.{Floats}
use polymarket_cpp_client.Amounts.{OrderSide, buy, sell}
use polymarket_cpp_client.Book.{PriceLevel, better, is_sorted, sort_levels}

module _ (F : Floats) (near : F.Double → F.Double → Bool) where
  open F use {is_finite, is_negative, is_not_positive, at_least_one}

  pub record MarketPriceChange : Type 0 where
    pub bid : Bool
    pub level : PriceLevel F

  pub record MarketBookEvent : Type 0 where
    pub asset_id : Bytes
    pub snapshot : Bool
    pub bids : List (PriceLevel F)
    pub asks : List (PriceLevel F)
    pub changes : List MarketPriceChange

  pub record StreamBook : Type 0 where
    pub asset_id : Bytes
    pub bids : List (PriceLevel F)
    pub asks : List (PriceLevel F)
    pub timestamp_ns : ℕ

  -- The levels that `validate_level` lets through.
  unfoldable pub is_valid_level : PriceLevel F → Bool
  is_valid_level level =
      is_finite level.price
      && is_finite level.size
      && not (is_not_positive level.price || at_least_one level.price || is_negative level.size)

  unfoldable pub all_valid : List (PriceLevel F) → Bool
  all_valid [] = true
  all_valid (level ∷ levels) = is_valid_level level && all_valid levels

  -- The change of one side: the asks are the side that a buyer walks.
  unfoldable pub apply_change : OrderSide → PriceLevel F → List (PriceLevel F) → List (PriceLevel F)
  apply_change side change [] = if is_not_positive change.size then [] else change ∷ []
  apply_change side change (level ∷ levels) =
      let rest = apply_change side change levels in
      if better F side level change
      then level ∷ rest
      else if is_not_positive change.size
      then (if near level.price change.price then levels else level ∷ levels)
      else if near level.price change.price
      then change ∷ levels
      else change ∷ level ∷ levels

  -- `if (!std::is_sorted(...)) std::sort(...)`
  unfoldable pub in_book_order : OrderSide → List (PriceLevel F) → List (PriceLevel F)
  in_book_order side levels = if is_sorted F side levels then levels else sort_levels F side levels

  unfoldable pub change_book : MarketPriceChange → StreamBook → StreamBook
  change_book change book =
      if change.bid
      then record book { bids = apply_change sell change.level book.bids }
      else record book { asks = apply_change buy change.level book.asks }

  -- The loop over the changes: a level that is not valid leaves the changes before it.
  unfoldable pub apply_changes :
      List MarketPriceChange → StreamBook → StreamBook × Except (Unit {0})
  apply_changes [] book = (book, ok tt)
  apply_changes (change ∷ changes) book =
      let rest = apply_changes changes (change_book change book) in
      if is_valid_level change.level
      then rest
      else (book, throw (invalid_argument "orderbook level is invalid"))

  unfoldable pub apply_snapshot : MarketBookEvent → StreamBook → StreamBook × Except (Unit {0})
  apply_snapshot event book =
      if all_valid event.bids && all_valid event.asks
      then (
        record book { bids = in_book_order sell event.bids; asks = in_book_order buy event.asks },
        ok tt,
      )
      else (book, throw (invalid_argument "orderbook level is invalid"))

  -- The timestamp is set when nothing was thrown.
  unfoldable pub finish_event : ℕ → StreamBook × Except (Unit {0}) → StreamBook × Except (Unit {0})
  finish_event received_ns (book, throw e) = (book, throw e)
  finish_event received_ns (book, ok tt) = (record book { timestamp_ns = received_ns }, ok tt)

  unfoldable pub apply_market_book_event :
      MarketBookEvent → ℕ → StreamBook → StreamBook × Except (Unit {0})
  apply_market_book_event event received_ns book =
      let named : StreamBook = record book { asset_id = event.asset_id } in
      finish_event received_ns
        (if event.snapshot then apply_snapshot event named else apply_changes event.changes named)

  unfoldable pub apply_events : List (MarketBookEvent × ℕ) → StreamBook → StreamBook
  apply_events [] book = book
  apply_events ((event, received_ns) ∷ events) book =
      apply_events events (apply_market_book_event event received_ns book).0

  abbrev pub new_book : StreamBook
  new_book = record { asset_id = []; bids = []; asks = []; timestamp_ns = 0 }
