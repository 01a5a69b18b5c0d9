-- ===== src/Lib.antt =====
-- A C++ client of the Polymarket exchange: it signs orders, reads order books and prices over REST and
-- WebSocket, and indexes events of the Polygon chain. This development models the parts that compute:
-- what an order is worth, what a book can fill, how bytes are encoded, and how the client keeps its
-- place in streams, pages and blocks.
--
-- Files and what they model, by the paths of the repository:
-- - Hex: `to_hex` and `from_hex` of src/order_signer.cpp. Text is its list of bytes throughout.
-- - Uint: 256-bit words, src/evm_uint.cpp. They use Hex.
-- - Rlp: src/evm_rlp.cpp. Rlp/Decode holds a decoder written from the RLP specification.
-- - Floats: the floating point that the code computes with, as a record of operations. It is a
--   parameter of every definition that uses it, so that nothing depends on how doubles round.
--   Floats/FixedPoint is one instance, for the examples.
-- - Decimal: src/decimal_math.cpp over Floats.
-- - Amounts: src/order_amounts.cpp, the amounts of an order, on Decimal. Its parts prove that the
--   division is exact (Exact), what a valid price is (Price, OnTick), what step the price needs (Grain), and
--   what limit and market orders get (Limit, Market).
-- - Depth and Book: src/market_price.cpp. Depth holds the running totals and the arithmetic of a fill,
--   Book the walk over one side of a book and the depth limit, Book/Simulation the simulated fill. A
--   visitor of a level is a function from a state to a state and a stop flag.
-- - MessageQueue: the bounded queue of src/websocket_resilience.cpp. A method holds the mutex
--   throughout, so a run of several threads is a sequence of calls.
-- - QueryEncoding: src/query_encoding.hpp.
-- - Ranges, Quantity, Cursors: src/evm_cursor_store.cpp, block ranges, quantities and stored cursors.
--   A store is its entry for one name.
-- - Pagination: the opaque cursor of include/polymarket/pagination.hpp, with the server's answers as a
--   list.
-- - TradeStatus: src/trade_status_tracker.cpp and src/trade_status.hpp. The map is a list of trades.
-- - EvmWords and EventData: src/evm_utils.cpp, the words of event data and what is read from them.
-- - MarketTime: the aligned intervals and the lengths of months of src/market_time.cpp.
-- - Abi: src/evm_abi.cpp, over the hash function as a parameter.
-- - Transaction: src/evm_transaction.cpp, over the hash function and the signer as parameters. It uses
--   Hex, Uint and Rlp.
-- - EventLog: logs of the chain, their position, identity and order, src/evm_log_identity.hpp.
-- - Delivery: how a log reaches the application, `emit_log` of src/evm_event_dispatch.cpp, with the
--   checkpoints and the pruning of src/evm_event_indexer.cpp and src/evm_live_handoff.cpp. The
--   application is the trace of its callbacks. Delivery/Entries is the
--   map as a list of entries, Delivery/View what the trace means.
-- - Reconciliation: the gap scan of src/evm_reorg_reconciliation.cpp. CatchUp: the catch-up of
--   src/evm_event_indexer.cpp; it shares the steps of Reconciliation. What the node answers, and which
--   callbacks throw or stop the indexer, is a parameter, World. CatchUp/Sessions runs all of them in any
--   order.
-- - LiveState: the state behind the indexer's mutex, src/evm_indexer_transport.hpp. LiveState/Steps has
--   each critical section of the indexer's files as one step, LiveState/Runs the interleavings.
-- - MarketBook: a book under the events of the market stream, src/websocket_market_data.cpp.
-- - BookStream: the books and prices of the tracked markets, src/orderbook_stream.cpp and
--   src/orderbook_runtime.cpp with its lifecycle and stream files. Maps are functions, and each method is
--   one step.
-- Prelude holds what they share: tests on numbers, lists, strings, exceptions as values, gcd.
--
-- Numbers: a uint64 is a natural number with its wrap-around or its check written out. Subtraction is
-- written where the code has made sure that it does not wrap, and modulo 2^64 where it might.
--
-- Loops are structural, or count rounds: the length of a size_t has at most 8 bytes and a uint64 at
-- most 16 hexadecimal digits; Euclid's algorithm takes at most b + 1 rounds from (a, b), the carry of a
-- decimal text at most its own value, and block ranges at most the number of blocks, since each round
-- makes the counted number smaller.
--
-- std::sort leaves the order of equal prices open; the model is insertion behind equal ones. Which logs
-- a sort compares first, and with it which malformed log is reported, is open as well.
--
-- Not modelled: JSON, HTTP, WebSocket and file I/O, hashing and signatures, which are calls of
-- libraries, and the threads behind the streams. The cursor store of the indexer does not fail in the
-- model. The search for opportunities on the order books, calendar dates, rate limits and the
-- settlement of orders are further parts of the program without a model here.
mod Prelude
pub mod Hex
pub mod Uint
pub mod Rlp
pub mod Transaction
pub mod Floats
pub mod Decimal
pub mod Amounts
pub mod Depth
pub mod Book
pub mod MarketBook
pub mod BookStream
pub mod MessageQueue
pub mod QueryEncoding
pub mod Ranges
pub mod Cursors
pub mod Pagination
pub mod TradeStatus
pub mod Quantity
pub mod EvmWords
pub mod Abi
pub mod EventData
pub mod MarketTime
pub mod EventLog
pub mod Delivery
pub mod Reconciliation
pub mod LiveState
pub mod CatchUp
