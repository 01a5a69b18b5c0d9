-- ===== src/MarketBook/Sorted.antt =====
-- The sides of a streamed book stay in book order, so that the front of the asks is the best ask.
use polymarket_cpp_client.Prelude.{
  ℕ, ◌≡◌, refl, ap, ◌∙◌, arith, Bool, true, ◌&&◌, on_if, List, [], ◌∷◌,
}
use polymarket_cpp_client.Prelude.Except.{Except, ok, throw}
use polymarket_cpp_client.Floats.{Floats}
use polymarket_cpp_client.Amounts.{OrderSide, buy, sell}
use polymarket_cpp_client.Book.{PriceLevel, all_finite, is_sorted, insert_level, sort_levels}
use polymarket_cpp_client.Book.Walk.{Asymmetric, sort_levels-is_sorted}
use polymarket_cpp_client.MarketBook.{
  MarketPriceChange, MarketBookEvent, StreamBook, is_valid_level, all_valid, apply_change,
  in_book_order, change_book, apply_changes, apply_snapshot, finish_event, apply_market_book_event,
  apply_events, new_book,
}
use polymarket_cpp_client.MarketBook.Change.{
  Transitive, apply_change-all_finite, apply_change-is_sorted,
}

module _ (F : Floats) (near : F.Double → F.Double → Bool) where
  open F use {is_finite}

  -- A book in order, of finite prices.
  record IsOrdered (side : OrderSide) (levels : List (PriceLevel F)) : Type 0 where
    finite : all_finite F levels ≡ true
    sorted : is_sorted F side levels ≡ true

  record IsOrderedBook (book : StreamBook F near) : Type 0 where
    bids : IsOrdered sell book.bids
    asks : IsOrdered buy book.asks

  apply_change-IsOrdered :
      (side : OrderSide) (change : PriceLevel F) (levels : List (PriceLevel F))
      → Asymmetric F
      → Transitive F
      → is_finite change.price ≡ true
      → IsOrdered side levels
      → IsOrdered side (apply_change F near side change levels)
  apply_change-IsOrdered side change levels asym trans fc o = record {
    finite = apply_change-all_finite F near side change levels fc o.finite;
    sorted = apply_change-is_sorted F near side change levels asym trans fc o.finite o.sorted;
  }

  insert_level-all_finite :
      (side : OrderSide) (a : PriceLevel F) (levels : List (PriceLevel F))
      → all_finite F (insert_level F side a levels) ≡ (is_finite a.price && all_finite F levels)
  unfolding insert_level all_finite
  insert_level-all_finite side a [] = refl
  insert_level-all_finite side a (b ∷ levels) =
      ground (arith, insert_level-all_finite side a levels)

  sort_levels-all_finite :
      (side : OrderSide) (levels : List (PriceLevel F))
      → all_finite F (sort_levels F side levels) ≡ all_finite F levels
  unfolding sort_levels all_finite
  sort_levels-all_finite side [] = refl
  sort_levels-all_finite side (a ∷ levels) =
      insert_level-all_finite side a (sort_levels F side levels)
      ∙ ap (λ b. is_finite a.price && b) (sort_levels-all_finite side levels)

  all_valid-all_finite :
      (levels : List (PriceLevel F)) → all_valid F near levels ≡ true → all_finite F levels ≡ true
  unfolding all_valid is_valid_level all_finite
  all_valid-all_finite [] h = refl
  all_valid-all_finite (level ∷ levels) h = ground (arith, all_valid-all_finite levels)

  in_book_order-IsOrdered :
      (side : OrderSide) (levels : List (PriceLevel F))
      → Asymmetric F
      → all_valid F near levels ≡ true
      → IsOrdered side (in_book_order F near side levels)
  unfolding in_book_order
  in_book_order-IsOrdered side levels asym valid =
      let finite : all_finite F levels ≡ true = all_valid-all_finite levels valid in
      on_if (IsOrdered side) (is_sorted F side levels)
        (λ sorted. record { finite = finite; sorted = sorted })
        (λ unsorted. record {
          finite = sort_levels-all_finite side levels ∙ finite;
          sorted = sort_levels-is_sorted F side levels asym;
        })

  change_book-IsOrderedBook :
      (change : MarketPriceChange F near) (book : StreamBook F near)
      → Asymmetric F
      → Transitive F
      → is_valid_level F near change.level ≡ true
      → IsOrderedBook book
      → IsOrderedBook (change_book F near change book)
  unfolding change_book is_valid_level
  change_book-IsOrderedBook change book asym trans valid o =
      let fc : is_finite change.level.price ≡ true = ground arith in
      on_if IsOrderedBook change.bid
        (λ bid. record {
          bids = apply_change-IsOrdered sell change.level book.bids asym trans fc o.bids;
          asks = o.asks;
        })
        (λ ask. record {
          bids = o.bids;
          asks = apply_change-IsOrdered buy change.level book.asks asym trans fc o.asks;
        })

  -- The book that an event leaves.
  LeavesOrdered : StreamBook F near × Except (Unit {0}) → Type 0
  LeavesOrdered after = IsOrderedBook after.0

  apply_changes-LeavesOrdered :
      (changes : List (MarketPriceChange F near)) (book : StreamBook F near)
      → Asymmetric F
      → Transitive F
      → IsOrderedBook book
      → LeavesOrdered (apply_changes F near changes book)
  unfolding apply_changes LeavesOrdered
  apply_changes-LeavesOrdered [] book asym trans o = o
  apply_changes-LeavesOrdered (change ∷ changes) book asym trans o =
      on_if LeavesOrdered (is_valid_level F near change.level)
        (λ valid.
          apply_changes-LeavesOrdered changes (change_book F near change book) asym trans
            (change_book-IsOrderedBook change book asym trans valid o))
        (λ invalid. o)

  apply_snapshot-LeavesOrdered :
      (event : MarketBookEvent F near) (book : StreamBook F near)
      → Asymmetric F
      → IsOrderedBook book
      → LeavesOrdered (apply_snapshot F near event book)
  unfolding apply_snapshot LeavesOrdered
  apply_snapshot-LeavesOrdered event book asym o =
      on_if LeavesOrdered (all_valid F near event.bids && all_valid F near event.asks)
        (λ valid. record {
          bids = in_book_order-IsOrdered sell event.bids asym (ground arith);
          asks = in_book_order-IsOrdered buy event.asks asym (ground arith);
        })
        (λ invalid. o)

  finish_event-LeavesOrdered :
      (received_ns : ℕ) (after : StreamBook F near × Except (Unit {0}))
      → LeavesOrdered after
      → LeavesOrdered (finish_event F near received_ns after)
  unfolding finish_event LeavesOrdered
  finish_event-LeavesOrdered received_ns (book, throw e) o = o
  finish_event-LeavesOrdered received_ns (book, ok tt) o = record { bids = o.bids; asks = o.asks }

  apply_market_book_event-LeavesOrdered :
      (event : MarketBookEvent F near) (received_ns : ℕ) (book : StreamBook F near)
      → Asymmetric F
      → Transitive F
      → IsOrderedBook book
      → LeavesOrdered (apply_market_book_event F near event received_ns book)
  unfolding apply_market_book_event
  apply_market_book_event-LeavesOrdered event received_ns book asym trans o =
      let named : StreamBook F near = record book { asset_id = event.asset_id } in
      let n : IsOrderedBook named = record { bids = o.bids; asks = o.asks } in
      finish_event-LeavesOrdered received_ns _ (
        on_if LeavesOrdered event.snapshot (λ full. apply_snapshot-LeavesOrdered event named asym n)
          (λ delta. apply_changes-LeavesOrdered event.changes named asym trans n))

  apply_events-IsOrderedBook :
      (events : List (MarketBookEvent F near × ℕ)) (book : StreamBook F near)
      → Asymmetric F
      → Transitive F
      → IsOrderedBook book
      → IsOrderedBook (apply_events F near events book)
  unfolding apply_events LeavesOrdered
  apply_events-IsOrderedBook [] book asym trans o = o
  apply_events-IsOrderedBook ((event, received_ns) ∷ events) book asym trans o =
      apply_events-IsOrderedBook events (apply_market_book_event F near event received_ns book).0
        asym trans (apply_market_book_event-LeavesOrdered event received_ns book asym trans o)

-- After any snapshots and changes, those that are refused included, the bids of a book are in descending
-- and its asks in ascending order of price, if `<` on finite doubles is a strict weak order.
pub apply_events-is_sorted :
    (F : Floats) (near : F.Double → F.Double → Bool) (events : List (MarketBookEvent F near × ℕ))
    → Asymmetric F
    → Transitive F
    → (is_sorted F sell (apply_events F near events (new_book F near)).bids ≡ true)
      × (is_sorted F buy (apply_events F near events (new_book F near)).asks ≡ true)
unfolding is_sorted all_finite
apply_events-is_sorted F near events asym trans =
    let o = apply_events-IsOrderedBook F near events (new_book F near) asym trans (record {
      bids = record { finite = refl; sorted = refl };
      asks = record { finite = refl; sorted = refl };
    }) in
    (o.bids.sorted, o.asks.sorted)
