-- ===== src/TradeStatus/Examples.antt =====
-- One trade that is matched, confirmed and reported as matched again.
use polymarket_cpp_client.Prelude.{
  ℕ, ◌≡◌, ◌⊎◌, refl, ◌∷◌, [], List, Bytes, codes, Option, none, some, true, false, is_empty,
  equal_bytes,
}
use polymarket_cpp_client.Prelude.Except.{ok}
use polymarket_cpp_client.TradeStatus.{
  Trade, Tracker, create, run, record_trade, record_over, insert, evict, find, replace, latest,
  mark_recovered, is_settled_trade_status, normalized_trade_status, to_upper,
}
use polymarket_cpp_client.TradeStatus.Invariant.{IsTracker, run-IsTracker}
use polymarket_cpp_client.TradeStatus.Settled.{IsSettled, record_trade-IsSettled}
use polymarket_cpp_client.TradeStatus.Newest.{IsReported, record_trade-IsReported}

abbrev trade : Bytes → Trade ℕ
trade status = record { id = codes "t"; status = status; details = 0 }

abbrev new_tracker : Tracker ℕ
new_tracker = record { capacity = 2; trades = []; arrival_order = []; version = 0; recoveries = 0 }

abbrev events : List (Option (Trade ℕ))
events = some (trade (codes "MATCHED")) ∷ none ∷ some (trade (codes "trade_status_confirmed")) ∷ []

created : create 2 ≡ ok new_tracker
unfolding create
created = refl

run-IsTracker_example : IsTracker (run new_tracker events)
run-IsTracker_example = run-IsTracker 2 new_tracker events created

-- The same fact for the other examples.
held : IsTracker (run new_tracker events)
held = run-IsTracker 2 new_tracker events created

confirmed :
    latest (run new_tracker events) (codes "t") ≡ some (trade (codes "trade_status_confirmed"))
unfolding latest run record_trade record_over insert evict find replace mark_recovered
    is_settled_trade_status normalized_trade_status to_upper is_empty equal_bytes
confirmed = refl

settled : is_settled_trade_status (codes "trade_status_confirmed") ≡ true
unfolding is_settled_trade_status normalized_trade_status to_upper equal_bytes
settled = refl

record_trade-IsSettled_example :
    (latest (record_trade (run new_tracker events) (trade (codes "MATCHED"))) (codes "t") ≡ none)
    ⊎ IsSettled
        (latest (record_trade (run new_tracker events) (trade (codes "MATCHED"))) (codes "t"))
record_trade-IsSettled_example =
    record_trade-IsSettled (run new_tracker events) (trade (codes "MATCHED"))
      (trade (codes "trade_status_confirmed")) (codes "t") held confirmed settled

has_id : is_empty (codes "t") ≡ false
unfolding is_empty
has_id = refl

record_trade-IsReported_example :
    IsReported
      (run new_tracker events)
      (trade (codes "FAILED"))
      (record_trade (run new_tracker events) (trade (codes "FAILED")))
record_trade-IsReported_example =
    record_trade-IsReported (run new_tracker events) (trade (codes "FAILED")) held has_id
