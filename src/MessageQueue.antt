-- ===== src/MessageQueue.antt =====
-- The bounded message queue between the WebSocket thread and its consumer, and the reconnect limit:
-- src/websocket_resilience.cpp. Every method holds the mutex throughout, so a method is one step; a
-- consumer that waits takes its step when `ready` holds or its timeout has passed.
pub mod Bounds
pub mod Suffix
mod Examples
use polymarket_cpp_client.Prelude.{
  ℕ, suc, ◌+◌, ◌%◌, ◌^◌, Bool, true, false, not, ◌&&◌, ◌||◌, if◌then◌else◌, ltb, leb, ◌==◌, List,
  [], ◌∷◌, ◌++◌, Option, none, some, length, Bytes,
}
use polymarket_cpp_client.Prelude.Int.{ℤ, pos, ltb_ℤ, pos_part}

pub record QueuedMessage : Type 0 where
  pub payload : Bytes
  pub generation : ℕ

pub data QueuePushResult : Type 0 where
  accepted gap closed : QueuePushResult

pub record Queue : Type 0 where
  pub messages : List QueuedMessage
  pub limit : ℕ
  pub is_closed : Bool
  pub dropped : ℕ

-- `limit == 0 ? 1 : limit`
unfoldable pub at_least_one : ℕ → ℕ
at_least_one limit = if limit == 0 then 1 else limit

unfoldable pub create : ℕ → Queue
create limit = record { messages = []; limit = at_least_one limit; is_closed = false; dropped = 0 }

unfoldable pub push : Queue → QueuedMessage → Queue × QueuePushResult
push q message =
    if q.is_closed
    then (q, closed)
    else if leb q.limit (length q.messages)
    then (record q { messages = []; dropped = (q.dropped + (length q.messages + 1)) % 2 ^ 64 }, gap)
    else (record q { messages = q.messages ++ message ∷ [] }, accepted)

-- The condition that the consumer waits for.
unfoldable pub ready : Queue → Bool
ready q = q.is_closed || elim q.messages [ [] ↦ false | _ ∷ _ ↦ true ]

unfoldable pub take_front : List QueuedMessage → Queue → Queue × Option QueuedMessage
take_front [] q = (q, none)
take_front (message ∷ rest) q = (record q { messages = rest }, some message)

-- `pop`, once the wait is over, and `pop_for`, once it is over or has timed out.
unfoldable pub pop : Queue → Queue × Option QueuedMessage
pop q = take_front q.messages q

unfoldable pub discard_pending : Queue → Queue × ℕ
discard_pending q = (
  record q { messages = []; dropped = (q.dropped + length q.messages) % 2 ^ 64 },
  length q.messages,
)

unfoldable pub record_drop : Queue → Queue
record_drop q = record q { dropped = (q.dropped + 1) % 2 ^ 64 }

unfoldable pub close : Queue → Queue
close q = record q { is_closed = true }

unfoldable pub reset : Queue → ℕ → Queue
reset q limit = record q { limit = at_least_one limit; messages = []; is_closed = false }

pub data Call : Type 0 where
  pushes : QueuedMessage → Call
  pops discards records_drop closes : Call
  resets : ℕ → Call

unfoldable pub step : Queue → Call → Queue
step q (pushes message) = (push q message).0
step q pops = (pop q).0
step q discards = (discard_pending q).0
step q records_drop = record_drop q
step q closes = close q
step q (resets limit) = reset q limit

unfoldable pub run : Queue → List Call → Queue
run q [] = q
run q (c ∷ calls) = run (step q c) calls

-- `retries` is a uint32_t, and a positive int is its own unsigned value.
unfoldable pub reconnect_limit_reached : ℕ → ℤ → Bool
reconnect_limit_reached retries max_attempts =
    ltb_ℤ (pos 0) max_attempts && leb (pos_part max_attempts) retries
