-- ===== src/BookStream/Sessions.antt =====
-- The steps of the runtime in any order.
use polymarket_cpp_client.Prelude.{
  ℕ, ◌+◌, ◌≡◌, ◌⊎◌, Bool, true, not, ◌&&◌, List, [], ◌∷◌, some, Bytes, equal_bytes,
}
use polymarket_cpp_client.Floats.{Floats}
use polymarket_cpp_client.MarketBook.{MarketBookEvent}
use polymarket_cpp_client.BookStream.{
  StreamBookTop, LiveMarketState, no_top, OrderbookRuntime, deactivate_stream,
  invalidate_stream_state, shutdown, connect, subscribe, unsubscribe, unsubscribe_all,
  handle_orderbook_update,
}
use polymarket_cpp_client.BookStream.Legs.{ready_top}
use polymarket_cpp_client.BookStream.Steps.{is_parsed}

module _ (F : Floats) (near : F.Double → F.Double → Bool) where
  pub data Step : Type 0 where
    subscribes : LiveMarketState F near → Step
    unsubscribes : Bytes → Step
    unsubscribes_all shuts_down disconnects loses_stream reconnects : Step
    connects : Bool → Step
    receives : MarketBookEvent F near → ℕ → ℕ → ℕ → Step

  unfoldable pub step : Step → OrderbookRuntime F near → OrderbookRuntime F near
  step (subscribes market) runtime = subscribe F near market runtime
  step (unsubscribes token) runtime = unsubscribe F near token runtime
  step unsubscribes_all runtime = unsubscribe_all F near runtime
  step shuts_down runtime = shutdown F near runtime
  step disconnects runtime = deactivate_stream F near runtime
  step loses_stream runtime = invalidate_stream_state F near runtime
  step reconnects runtime = record runtime {
    websocket_generation = runtime.websocket_generation + 1;
  }
  step (connects connected) runtime = (connect F near connected runtime).0
  step (receives event received_ns generation websocket_generation) runtime =
      (handle_orderbook_update F near event received_ns generation websocket_generation runtime).0

  unfoldable pub run_session : List Step → OrderbookRuntime F near → OrderbookRuntime F near
  run_session [] runtime = runtime
  run_session (s ∷ steps) runtime = run_session steps (step s runtime)

  -- The events passed the parser, and the two tokens of a market differ.
  unfoldable pub is_possible : Step → Bool
  is_possible (subscribes market) = not (equal_bytes market.token_yes market.token_no)
  is_possible (unsubscribes token) = true
  is_possible unsubscribes_all = true
  is_possible shuts_down = true
  is_possible disconnects = true
  is_possible loses_stream = true
  is_possible reconnects = true
  is_possible (connects connected) = true
  is_possible (receives event received_ns generation websocket_generation) = is_parsed F near event

  unfoldable pub all_possible : List Step → Bool
  all_possible [] = true
  all_possible (s ∷ steps) = is_possible s && all_possible steps

  -- The price of a leg is the top of the book of its token, which had its snapshot.
  unfoldable pub IsShown : OrderbookRuntime F near → Bytes → StreamBookTop F near → Type 0
  IsShown runtime token top =
      (top ≡ no_top F near)
      ⊎ (ready_top F near runtime.orderbooks runtime.snapshot_ready token ≡ some top)
