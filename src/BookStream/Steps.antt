-- ===== src/BookStream/Steps.antt =====
-- An update of a book keeps every price backed by the book of its token: `handle_orderbook_update` of
-- src/orderbook_runtime_stream.cpp.
use polymarket_cpp_client.Prelude.{
  ℕ, ◌≡◌, inl, inr, refl, arith, Bool, true, not, ◌&&◌, Bool-cases, on_if, List, [], ◌∷◌, none,
  some, Bytes,
}
use polymarket_cpp_client.Prelude.Except.{Except, ok, throw}
use polymarket_cpp_client.Floats.{Floats}
use polymarket_cpp_client.MarketBook.{
  MarketPriceChange, MarketBookEvent, StreamBook, is_valid_level, all_valid, apply_changes,
  change_book, apply_snapshot, finish_event, apply_market_book_event, new_book,
}
use polymarket_cpp_client.BookStream.{
  put, value_or, top_of, OrderbookRuntime, mark_ready, apply_stream_book_event, stream_is_current,
  apply_to_market, handle_orderbook_update,
}
use polymarket_cpp_client.BookStream.Soundness.{
  Sound, Backed-other_book, Backed-own_book, update_market-Sound,
}

module _ (F : Floats) (near : F.Double → F.Double → Bool) where
  -- Levels as the parser lets them through.
  unfoldable pub changes_valid : List (MarketPriceChange F near) → Bool
  changes_valid [] = true
  changes_valid (change ∷ changes) = is_valid_level F near change.level && changes_valid changes

  unfoldable pub is_parsed : MarketBookEvent F near → Bool
  is_parsed event =
      all_valid F near event.bids && all_valid F near event.asks && changes_valid event.changes

  apply_changes-ok :
      (changes : List (MarketPriceChange F near)) (book : StreamBook F near)
      → changes_valid changes ≡ true
      → (apply_changes F near changes book).1 ≡ ok tt
  unfolding apply_changes changes_valid
  apply_changes-ok [] book h = refl
  apply_changes-ok (change ∷ changes) book h =
      ground (arith, apply_changes-ok changes (change_book F near change book))

  finish_event-ok :
      (received_ns : ℕ) (after : StreamBook F near × Except (Unit {0}))
      → after.1 ≡ ok tt
      → (finish_event F near received_ns after).1 ≡ ok tt
  unfolding finish_event
  finish_event-ok received_ns (book, throw e) h = h
  finish_event-ok received_ns (book, ok tt) h = refl

  apply_market_book_event-ok :
      (event : MarketBookEvent F near) (received_ns : ℕ) (book : StreamBook F near)
      → is_parsed event ≡ true
      → (apply_market_book_event F near event received_ns book).1 ≡ ok tt
  unfolding apply_market_book_event apply_snapshot is_parsed
  apply_market_book_event-ok event received_ns book h =
      let named : StreamBook F near = record book { asset_id = event.asset_id } in
      let valid : (all_valid F near event.bids && all_valid F near event.asks) ≡ true =
        ground arith in
      finish_event-ok received_ns _ (
        on_if (λ (after : StreamBook F near × Except (Unit {0})). after.1 ≡ ok tt) event.snapshot
          (λ full. rw valid refl) (λ delta. apply_changes-ok event.changes named (ground arith)))

  apply_to_market-Sound :
      (event : MarketBookEvent F near) (received_ns : ℕ) (condition : Bytes)
      (runtime : OrderbookRuntime F near)
      → is_parsed event ≡ true
      → runtime.token_to_condition event.asset_id ≡ some condition
      → Sound F near runtime
      → Sound F near
          (apply_to_market F near event received_ns condition
            (apply_stream_book_event F near event received_ns runtime)).0
  unfolding apply_stream_book_event apply_to_market
  apply_to_market-Sound event received_ns condition runtime parsed routed sound =
      let token = event.asset_id in
      let applied =
        apply_market_book_event F near event received_ns
          (value_or (new_book F near) (runtime.orderbooks token)) in
      let done : applied.1 ≡ ok tt =
        apply_market_book_event-ok event received_ns
          (value_or (new_book F near) (runtime.orderbooks token)) parsed in
      elim (Bool-cases (not event.snapshot && not (runtime.snapshot_ready token))) [
        | inl early ↦ rw early sound
        | inr ready ↦
            rw (ready, done)
              (update_market-Sound F near runtime (put token applied.0 runtime.orderbooks)
                (mark_ready F near token event.snapshot runtime.snapshot_ready) condition token
                (top_of F near applied.0) received_ns routed
                (λ c at t. Backed-other_book F near runtime token applied.0 event.snapshot c at t)
                (Backed-own_book F near runtime token applied.0 event.snapshot condition ready
                  routed)
                sound)
      ]

  pub handle_orderbook_update-Sound :
      (event : MarketBookEvent F near) (received_ns generation websocket_generation : ℕ)
      (runtime : OrderbookRuntime F near)
      → is_parsed event ≡ true
      → Sound F near runtime
      → Sound F near
          (handle_orderbook_update F near event received_ns generation websocket_generation
            runtime).0
  unfolding handle_orderbook_update
  handle_orderbook_update-Sound event received_ns generation websocket_generation runtime parsed
        sound =
      let S = (λ (after : OrderbookRuntime F near × Except (Unit {0})). Sound F near after.0) in
      on_if S (not (stream_is_current F near generation websocket_generation runtime))
        (λ stale. sound)
        (λ current.
          (elim (runtime.token_to_condition event.asset_id)
              as (λ found.
                runtime.token_to_condition event.asset_id ≡ found
                → S (elim found as (λ _. OrderbookRuntime F near × Except (Unit {0})) [
                  | none ↦ (runtime, ok tt)
                  | some condition ↦
                      apply_to_market F near event received_ns condition
                        (apply_stream_book_event F near event received_ns runtime)
                ])) [
                  | none ↦ λ h. sound
                  | some condition ↦
                      λ h. apply_to_market-Sound event received_ns condition runtime parsed h sound
                ])
            refl)
