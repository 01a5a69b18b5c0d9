-- ===== src/BookStream.antt =====
-- The order books of the tracked markets: src/orderbook_stream.cpp and the state of
-- src/orderbook_runtime.cpp, src/orderbook_runtime_lifecycle.cpp and src/orderbook_runtime_stream.cpp.
-- Each method is one step, and the maps are functions. The fields of a market that are only copied, the
-- messages to the server, the callbacks and the search for opportunities are left out.
pub mod Legs
pub mod Soundness
pub mod Steps
pub mod Losses
pub mod Sessions
mod Examples
use polymarket_cpp_client.Prelude.{
  ℕ, ◌+◌, ◌%◌, ◌^◌, ltb, ◌==◌, Bool, true, false, not, ◌&&◌, ◌||◌, if◌then◌else◌, List, [], ◌∷◌,
  ◌++◌, Option, none, some, Bytes, is_empty, equal_bytes, contains,
}
use polymarket_cpp_client.Prelude.Except.{Except, ok, throw}
use polymarket_cpp_client.Floats.{Floats}
use polymarket_cpp_client.Book.{PriceLevel}
use polymarket_cpp_client.MarketBook.{
  MarketBookEvent, StreamBook, apply_market_book_event, new_book,
}

module _ {ℓ} {A : Type ℓ} where
  unfoldable pub put : Bytes → A → (Bytes → Option A) → Bytes → Option A
  put key value entries at = if equal_bytes key at then some value else entries at

  unfoldable pub drop_key : Bytes → (Bytes → Option A) → Bytes → Option A
  drop_key key entries at = if equal_bytes key at then none else entries at

  abbrev pub value_or : A → Option A → A
  value_or default none = default
  value_or default (some value) = value

-- `std::max` of two times.
unfoldable pub latest_time : ℕ → ℕ → ℕ
latest_time a b = if ltb a b then b else a

unfoldable pub erase_token : Bytes → List Bytes → List Bytes
erase_token token [] = []
erase_token token (t ∷ tokens) =
    let rest = erase_token token tokens in if equal_bytes token t then tokens else t ∷ rest

module _ (F : Floats) (near : F.Double → F.Double → Bool) where
  open F use {Double, zero_double}

  pub record StreamBookTop : Type 0 where
    pub ask : Double
    pub ask_size : Double

  pub record LiveMarketState : Type 0 where
    pub condition_id : Bytes
    pub token_yes : Bytes
    pub token_no : Bytes
    pub best_ask_yes : StreamBookTop
    pub best_ask_no : StreamBookTop
    pub last_update_ns : ℕ
    pub last_update_yes_ns : ℕ
    pub last_update_no_ns : ℕ
    pub update_count : ℕ

  abbrev pub no_top : StreamBookTop
  no_top = record { ask = zero_double; ask_size = zero_double }

  unfoldable pub reset_market_leg : Bytes → LiveMarketState → LiveMarketState
  reset_market_leg token market =
      let reset =
        if equal_bytes token market.token_yes
        then record market { best_ask_yes = no_top; last_update_yes_ns = 0 }
        else if equal_bytes token market.token_no
        then record market { best_ask_no = no_top; last_update_no_ns = 0 }
        else market in
      record reset { last_update_ns = latest_time reset.last_update_yes_ns reset.last_update_no_ns }

  -- Both legs, in the order of the source.
  unfoldable pub reset_market : LiveMarketState → LiveMarketState
  reset_market market = reset_market_leg market.token_no (reset_market_leg market.token_yes market)

  -- The ask in front.
  unfoldable pub top_of : StreamBook F near → StreamBookTop
  top_of book = elim book.asks [
    | [] ↦ no_top
    | level ∷ asks ↦ record { ask = level.price; ask_size = level.size }
  ]

  pub record OrderbookRuntime : Type 0 where
    pub shutdown_started : Bool
    pub owner_active : Bool
    pub stream_active : Bool
    pub stream_generation : ℕ
    pub websocket_generation : ℕ
    pub subscribed_tokens : List Bytes
    pub token_to_condition : Bytes → Option Bytes
    pub orderbooks : Bytes → Option (StreamBook F near)
    pub snapshot_ready : Bytes → Bool
    pub markets : Bytes → Option LiveMarketState
    pub total_updates : ℕ

  unfoldable pub new_runtime : OrderbookRuntime
  new_runtime = record {
    shutdown_started = false;
    owner_active = true;
    stream_active = false;
    stream_generation = 0;
    websocket_generation = 0;
    subscribed_tokens = [];
    token_to_condition = λ token. none;
    orderbooks = λ token. none;
    snapshot_ready = λ token. false;
    markets = λ condition. none;
    total_updates = 0;
  }

  unfoldable pub mark_ready : Bytes → Bool → (Bytes → Bool) → Bytes → Bool
  mark_ready token snapshot ready at = ready at || (snapshot && equal_bytes token at)

  -- A change before the snapshot is dropped. The book is there even when the event throws.
  unfoldable pub apply_stream_book_event :
      MarketBookEvent F near
      → ℕ
      → OrderbookRuntime
      → OrderbookRuntime × Except (Option StreamBookTop)
  apply_stream_book_event event received_ns runtime =
      let book = value_or (new_book F near) (runtime.orderbooks event.asset_id) in
      let applied = apply_market_book_event F near event received_ns book in
      let stored = record runtime {
        orderbooks = put event.asset_id applied.0 runtime.orderbooks;
      } in
      if not event.snapshot && not (runtime.snapshot_ready event.asset_id)
      then (runtime, ok none)
      else elim applied.1 [
        | throw e ↦ (stored, throw e)
        | ok tt ↦ (
          record stored {
            snapshot_ready = mark_ready event.asset_id event.snapshot runtime.snapshot_ready;
          },
          ok (some (top_of applied.0)),
        )
      ]

  unfoldable pub invalidate_stream_books : OrderbookRuntime → OrderbookRuntime
  invalidate_stream_books runtime = record runtime {
    orderbooks = λ token. none;
    snapshot_ready = λ token. false;
  }

  abbrev pub reset_if_there : Option LiveMarketState → Option LiveMarketState
  reset_if_there none = none
  reset_if_there (some market) = some (reset_market market)

  unfoldable pub invalidate_cached_state : OrderbookRuntime → OrderbookRuntime
  invalidate_cached_state runtime = record (invalidate_stream_books runtime) {
    markets = λ condition. reset_if_there (runtime.markets condition);
  }

  unfoldable pub stream_is_current : ℕ → ℕ → OrderbookRuntime → Bool
  stream_is_current orderbook_generation websocket_generation runtime =
      runtime.owner_active
      && runtime.stream_active
      && (orderbook_generation == runtime.stream_generation)
      && (websocket_generation == runtime.websocket_generation)

  unfoldable pub deactivate_stream : OrderbookRuntime → OrderbookRuntime
  deactivate_stream runtime = invalidate_cached_state (
      if runtime.stream_active
      then record runtime {
        stream_active = false;
        stream_generation = runtime.stream_generation + 1;
      }
      else runtime)

  unfoldable pub invalidate_stream_state : OrderbookRuntime → OrderbookRuntime
  invalidate_stream_state runtime =
      if not runtime.owner_active || not runtime.stream_active
      then runtime
      else invalidate_cached_state
          (record runtime { stream_generation = runtime.stream_generation + 1 })

  unfoldable pub shutdown : OrderbookRuntime → OrderbookRuntime
  shutdown runtime =
      if runtime.shutdown_started
      then runtime
      else deactivate_stream (record runtime { shutdown_started = true; owner_active = false })

  -- `connected`: the connection was made in time.
  unfoldable pub connect : Bool → OrderbookRuntime → OrderbookRuntime × Bool
  connect connected runtime =
      let active = record runtime { stream_active = true } in
      if not runtime.owner_active
      then (runtime, false)
      else if connected
      then (active, true)
      else (deactivate_stream active, false)

  unfoldable pub track_token : Bytes → Bytes → OrderbookRuntime → OrderbookRuntime
  track_token condition token runtime =
      if is_empty token || contains token runtime.subscribed_tokens
      then runtime
      else record runtime {
        subscribed_tokens = runtime.subscribed_tokens ++ token ∷ [];
        token_to_condition = put token condition runtime.token_to_condition;
      }

  -- The market with no prices, then its tokens.
  unfoldable pub subscribe : LiveMarketState → OrderbookRuntime → OrderbookRuntime
  subscribe market runtime =
      let stored = record runtime {
        markets = put market.condition_id (reset_market market) runtime.markets;
      } in
      if not runtime.owner_active
      then runtime
      else track_token market.condition_id market.token_no
          (track_token market.condition_id market.token_yes stored)

  unfoldable pub reset_leg_of :
      Bytes → Bytes → (Bytes → Option LiveMarketState) → Bytes → Option LiveMarketState
  reset_leg_of condition token markets = elim (markets condition) [
    | none ↦ markets
    | some market ↦ put condition (reset_market_leg token market) markets
  ]

  unfoldable pub unsubscribe : Bytes → OrderbookRuntime → OrderbookRuntime
  unsubscribe token runtime =
      let cleared = record runtime {
        orderbooks = drop_key token runtime.orderbooks;
        snapshot_ready = λ at. runtime.snapshot_ready at && not (equal_bytes token at);
      } in
      if not runtime.owner_active
      then runtime
      else if not (contains token runtime.subscribed_tokens)
      then cleared
      else record cleared {
        subscribed_tokens = erase_token token runtime.subscribed_tokens;
        token_to_condition = drop_key token runtime.token_to_condition;
        markets =
            reset_leg_of (value_or [] (runtime.token_to_condition token)) token runtime.markets;
      }

  unfoldable pub unsubscribe_all : OrderbookRuntime → OrderbookRuntime
  unsubscribe_all runtime =
      if not runtime.owner_active then runtime else record (invalidate_stream_books runtime) {
        subscribed_tokens = [];
        token_to_condition = λ token. none;
        markets = λ condition. none;
      }

  -- The leg of the token gets the top; the market counts the update.
  unfoldable pub update_leg : Bytes → StreamBookTop → ℕ → LiveMarketState → LiveMarketState
  update_leg token top received_ns market =
      let updated =
        if equal_bytes token market.token_yes
        then record market { best_ask_yes = top; last_update_yes_ns = received_ns }
        else if equal_bytes token market.token_no
        then record market { best_ask_no = top; last_update_no_ns = received_ns }
        else market in
      record updated {
        last_update_ns = received_ns;
        update_count = (market.update_count + 1) % 2 ^ 32;
      }

  unfoldable pub update_market :
      Bytes → Bytes → StreamBookTop → ℕ → OrderbookRuntime → OrderbookRuntime
  update_market condition token top received_ns runtime = elim (runtime.markets condition) [
    | none ↦ runtime
    | some market ↦ record runtime {
      markets = put condition (update_leg token top received_ns market) runtime.markets;
      total_updates = runtime.total_updates + 1;
    }
  ]

  unfoldable pub apply_to_market :
      MarketBookEvent F near
      → ℕ
      → Bytes
      → OrderbookRuntime × Except (Option StreamBookTop)
      → OrderbookRuntime × Except (Unit {0})
  apply_to_market event received_ns condition (runtime, throw e) = (runtime, throw e)
  apply_to_market event received_ns condition (runtime, ok none) = (runtime, ok tt)
  apply_to_market event received_ns condition (runtime, ok (some top)) =
      (update_market condition event.asset_id top received_ns runtime, ok tt)

  unfoldable pub handle_orderbook_update :
      MarketBookEvent F near → ℕ → ℕ → ℕ → OrderbookRuntime → OrderbookRuntime × Except (Unit {0})
  handle_orderbook_update event received_ns generation websocket_generation runtime =
      if not (stream_is_current generation websocket_generation runtime)
      then (runtime, ok tt)
      else elim (runtime.token_to_condition event.asset_id) [
        | none ↦ (runtime, ok tt)
        | some condition ↦
            apply_to_market event received_ns condition
              (apply_stream_book_event event received_ns runtime)
      ]
