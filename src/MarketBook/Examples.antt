-- ===== src/MarketBook/Examples.antt =====
-- A snapshot out of order, and a change of the best ask.
use polymarket_cpp_client.Prelude.{◌≡◌, ◌==◌, arith, true, false, List, [], ◌∷◌, codes, ℕ}
use polymarket_cpp_client.Amounts.{buy, sell}
use polymarket_cpp_client.Floats.FixedPoint.{fixed_point}
use polymarket_cpp_client.Book.{PriceLevel, is_sorted}
use polymarket_cpp_client.Book.Walk.{Asymmetric}
use polymarket_cpp_client.MarketBook.{MarketBookEvent, apply_events, new_book}
use polymarket_cpp_client.MarketBook.Change.{Transitive}
use polymarket_cpp_client.MarketBook.Sorted.{apply_events-is_sorted}

abbrev level : ℕ → ℕ → PriceLevel fixed_point
level price size = record { price = price; size = size }

abbrev events : List (MarketBookEvent fixed_point ◌==◌ × ℕ)
events =
    (
      record {
        asset_id = codes "t";
        snapshot = true;
        bids = level 400 1 ∷ [];
        asks = level 700 5 ∷ level 600 5 ∷ [];
        changes = [];
      },
      1,
    )
    ∷ (
      record {
        asset_id = codes "t";
        snapshot = false;
        bids = [];
        asks = [];
        changes =
            record { bid = false; level = level 600 0 }
            ∷ record { bid = false; level = level 650 2 }
            ∷ [];
      },
      2,
    )
    ∷ []

fixed_point-Asymmetric : Asymmetric fixed_point
fixed_point-Asymmetric x y h = ground arith

fixed_point-Transitive : Transitive fixed_point
fixed_point-Transitive x y z fx fy fz h k = ground arith

apply_events-is_sorted_example :
    (is_sorted fixed_point sell
        (apply_events fixed_point ◌==◌ events (new_book fixed_point ◌==◌)).bids
      ≡ true)
    × (is_sorted fixed_point buy
          (apply_events fixed_point ◌==◌ events (new_book fixed_point ◌==◌)).asks
        ≡ true)
apply_events-is_sorted_example =
    apply_events-is_sorted fixed_point ◌==◌ events fixed_point-Asymmetric fixed_point-Transitive
