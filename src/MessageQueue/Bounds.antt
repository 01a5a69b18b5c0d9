-- ===== src/MessageQueue/Bounds.antt =====
-- The queue never holds more messages than its limit.
use polymarket_cpp_client.Prelude.{ℕ, ◌≤◌, ◌<◌, ◌^◌, List, [], ◌∷◌, length, length-append, arith}
use polymarket_cpp_client.MessageQueue.{
  Queue, QueuedMessage, Call, pushes, pops, discards, records_drop, closes, resets, create,
  at_least_one, push, take_front, pop, discard_pending, record_drop, close, reset, step, run,
}

pub record IsBounded (q : Queue) : Type 0 where
  pub some_room : 0 < q.limit
  pub within : length q.messages ≤ q.limit
  pub counter : q.dropped < 2 ^ 64

take_front-IsBounded :
    (ms : List QueuedMessage) (q : Queue)
    → IsBounded q
    → length ms ≤ q.limit
    → IsBounded (take_front ms q).0
unfolding take_front
take_front-IsBounded [] q v h = v
take_front-IsBounded (m ∷ ms) q v h = ground arith

step-IsBounded : (q : Queue) (c : Call) → IsBounded q → IsBounded (step q c)
unfolding step push pop discard_pending record_drop close reset at_least_one
step-IsBounded q (pushes m) v = ground (arith, length-append q.messages (m ∷ []))
step-IsBounded q pops v = take_front-IsBounded q.messages q v v.within
step-IsBounded q discards v = ground arith
step-IsBounded q records_drop v = ground arith
step-IsBounded q closes v = ground arith
step-IsBounded q (resets limit) v = ground arith

run-IsBounded : (q : Queue) (calls : List Call) → IsBounded q → IsBounded (run q calls)
unfolding run
run-IsBounded q [] v = v
run-IsBounded q (c ∷ calls) v = run-IsBounded (step q c) calls (step-IsBounded q c v)

-- After any sequence of calls on a new queue the limit is at least one, no more messages wait than
-- the limit allows, and the drop counter is a uint64.
pub run-create-IsBounded : (limit : ℕ) (calls : List Call) → IsBounded (run (create limit) calls)
unfolding create at_least_one
run-create-IsBounded limit calls = run-IsBounded _ calls (ground arith)
