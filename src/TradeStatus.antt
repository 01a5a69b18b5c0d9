-- ===== src/TradeStatus.antt =====
-- The latest status of each trade: src/trade_status_tracker.cpp and src/trade_status.hpp. Each method
-- holds the mutex, so that a method is one step. `D` stands for the fields that are only copied.
pub mod Invariant
pub mod Settled
pub mod Newest
mod Examples
use polymarket_cpp_client.Prelude.{
  ℕ, suc, ◌+◌, ◌-◌, ◌%◌, ◌^◌, ltb, leb, ◌==◌, Bool, true, false, not, ◌&&◌, ◌||◌, if◌then◌else◌,
  List, [], ◌∷◌, ◌++◌, map, Option, none, some, Bytes, codes, length, take, drop, equal_bytes,
  is_empty,
}
use polymarket_cpp_client.Prelude.Except.{Except, ok, throw, invalid_argument}

pub record Trade {ℓ} (D : Type ℓ) : Type ℓ where
  pub id : Bytes
  pub status : Bytes
  pub details : D

-- std::toupper in the "C" locale.
unfoldable pub to_upper : ℕ → ℕ
to_upper c = if leb b'a' c && leb c b'z' then c - 32 else c

unfoldable pub normalized_trade_status : Bytes → Bytes
normalized_trade_status status =
    let upper = map to_upper status in
    let prefix = codes "TRADE_STATUS_" in
    if equal_bytes (take (length prefix) upper) prefix then drop (length prefix) upper else upper

unfoldable pub is_settled_trade_status : Bytes → Bool
is_settled_trade_status status =
    let normalized = normalized_trade_status status in
    equal_bytes normalized (codes "CONFIRMED") || equal_bytes normalized (codes "FAILED")

unfoldable pub is_failed_trade_status : Bytes → Bool
is_failed_trade_status status = equal_bytes (normalized_trade_status status) (codes "FAILED")

-- The map is a list of trades, each under its `id`.
pub record Tracker {ℓ} (D : Type ℓ) : Type ℓ where
  pub capacity : ℕ
  pub trades : List (Trade D)
  pub arrival_order : List Bytes
  pub version : ℕ
  pub recoveries : ℕ

module _ {ℓ} {D : Type ℓ} where
  unfoldable pub create : ℕ → Except (Tracker D)
  create capacity =
      if capacity == 0
      then throw (invalid_argument "trade status tracker capacity must be positive")
      else ok (record {
        capacity = capacity;
        trades = [];
        arrival_order = [];
        version = 0;
        recoveries = 0;
      })

  unfoldable pub find : Bytes → List (Trade D) → Option (Trade D)
  find id [] = none
  find id (t ∷ ts) = if equal_bytes t.id id then some t else find id ts

  unfoldable pub erase : Bytes → List (Trade D) → List (Trade D)
  erase id [] = []
  erase id (t ∷ ts) = let rest = erase id ts in if equal_bytes t.id id then ts else t ∷ rest

  -- `existing->second = trade`, for the entry of its id.
  unfoldable pub replace : Trade D → List (Trade D) → List (Trade D)
  replace trade [] = []
  replace trade (t ∷ ts) =
      let rest = replace trade ts in if equal_bytes t.id trade.id then trade ∷ ts else t ∷ rest

  -- `if (trades_.size() > capacity_)`: the trade that arrived first goes.
  unfoldable pub evict : List Bytes → Tracker D → Tracker D
  evict [] tracker = tracker
  evict (oldest ∷ order) tracker =
      if ltb tracker.capacity (length tracker.trades)
      then record tracker { trades = erase oldest tracker.trades; arrival_order = order }
      else tracker

  unfoldable pub insert : Tracker D → Trade D → Tracker D
  insert tracker trade =
      let order = tracker.arrival_order ++ trade.id ∷ [] in
      evict order (record tracker { trades = tracker.trades ++ trade ∷ []; arrival_order = order })

  abbrev bump : Tracker D → Tracker D
  bump tracker = record tracker { version = (tracker.version + 1) % 2 ^ 64 }

  -- The branch on `existing`, of a trade whose id is not empty.
  unfoldable pub record_over : Option (Trade D) → Tracker D → Trade D → Tracker D
  record_over none tracker trade = bump (insert tracker trade)
  record_over (some existing) tracker trade =
      if is_settled_trade_status existing.status && not (is_settled_trade_status trade.status)
      then tracker
      else bump (record tracker { trades = replace trade tracker.trades })

  unfoldable pub record_trade : Tracker D → Trade D → Tracker D
  record_trade tracker trade =
      if is_empty trade.id
      then tracker
      else record_over (find trade.id tracker.trades) tracker trade

  unfoldable pub mark_recovered : Tracker D → Tracker D
  mark_recovered tracker = bump (record tracker { recoveries = (tracker.recoveries + 1) % 2 ^ 64 })

  unfoldable pub latest : Tracker D → Bytes → Option (Trade D)
  latest tracker trade_id = find trade_id tracker.trades

  -- A sequence of calls: an event, or a recovery.
  unfoldable pub run : Tracker D → List (Option (Trade D)) → Tracker D
  run tracker [] = tracker
  run tracker (some trade ∷ calls) = run (record_trade tracker trade) calls
  run tracker (none ∷ calls) = run (mark_recovered tracker) calls
