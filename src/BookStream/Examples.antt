-- ===== src/BookStream/Examples.antt =====
-- A market whose yes token gets a snapshot.
use polymarket_cpp_client.Prelude.{◌==◌, true, List, [], ◌∷◌, codes}
use polymarket_cpp_client.Floats.FixedPoint.{fixed_point}
use polymarket_cpp_client.MarketBook.{MarketBookEvent}
use polymarket_cpp_client.BookStream.{LiveMarketState, no_top}
use polymarket_cpp_client.BookStream.Sessions.{Step, subscribes, connects, receives}

abbrev coin : LiveMarketState fixed_point ◌==◌
coin = record {
  condition_id = codes "c";
  token_yes = codes "y";
  token_no = codes "n";
  best_ask_yes = no_top fixed_point ◌==◌;
  best_ask_no = no_top fixed_point ◌==◌;
  last_update_ns = 0;
  last_update_yes_ns = 0;
  last_update_no_ns = 0;
  update_count = 0;
}

abbrev quote : MarketBookEvent fixed_point ◌==◌
quote = record {
  asset_id = codes "y";
  snapshot = true;
  bids = [];
  asks = record { price = 600; size = 5 } ∷ record { price = 700; size = 1 } ∷ [];
  changes = [];
}

abbrev opening : List (Step fixed_point ◌==◌)
opening = subscribes coin ∷ connects true ∷ receives quote 7 0 0 ∷ []

abbrev quoted : LiveMarketState fixed_point ◌==◌
quoted = record coin {
  best_ask_yes = record { ask = 600; ask_size = 5 };
  last_update_ns = 7;
  last_update_yes_ns = 7;
  update_count = 1;
}
