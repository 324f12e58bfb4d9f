-- ===== src/Lib.antt =====
-- A model of the event-driven trading engine: the order book, the matching of orders, and the parts
-- that carry events to them, decide on them, record them and show them.
--
-- An `Event` comes from a replay (engine/replay) through a single-producer single-consumer queue
-- (engine/queues) to the router (engine/runtime), which finds the pipeline of its symbol: a strategy
-- engine (engine/strategy) drops or forwards it, and the matching engine (engine/matching) matches
-- it against the order book (engine/orderbook). A publisher keeps what the dashboard shows
-- (dashboard/websocket), a server sends it to browsers, and a writer stores trades in a database
-- (engine/persistence). The book keeps a price level per price and side, and
-- finds orders by id in a flat hash map.
--
-- Files:
-- - Base and its children: Boolean tests, arrays as lists, sums, 64-bit words.
-- - Events: engine/events/Event.hpp; Events.Codec is about the packed `type` word.
-- - OrderMap: `FlatOrderMap` of engine/orderbook/FlatOrderMap.hpp. `probe`, `insert`, `find` and
--   `erase` keep their names; the body of a probe loop is `find_loop` or `insert_loop`; `find`
--   gives the value, `find_slot` the slot that the returned pointer names, and `store` is a write
--   through that pointer. Probe, Inv and Write are about the loops, the well-formedness of a
--   table and a rewritten slot; Lookup, Insert, Laws and Make about `find`, `insert`, `erase` with
--   `store`, and the constructor; Total about insertion in a table with tombstones.
-- - PriceLevel: `PriceLevel` of engine/orderbook/OrderBook.hpp; Laws relates its array to a list.
-- - OrderBook: `OrderBook` of engine/orderbook/OrderBook.hpp and OrderBook.cpp. `insert`, `cancel`,
--   `modify` and `reduce` return the new book and the result; `rest_order`, `unlink`, `lower_best`
--   and `shrink` are their parts. A vector of levels is its size and a function from the index.
--   Depth holds `top_bids` and `top_asks`, DepthRows what they list. Levels, Inv, Keep, Best, Reads,
--   Quotes and Ops build the
--   invariant `IsBook`: the map is well formed, each level has the quantity and the ids of the orders of
--   its side and price, and the best prices are those of the levels. Widen, Shrink and Supply say what
--   taking quantity out does to quotes, levels and the sum, Taken what `reduce` does to the orders and
--   the queue of a level; Rests is about what `insert` answers, Modify about `modify`.
-- - Matching: engine/matching/MatchingEngine.hpp and MatchingEngine.cpp. `fill_level` is the inner
--   loop, `match_loop` the outer loop, `rest_remainder` the rest of `process_new_order`. OrderId,
--   Loop, Rounds, Trades, Process, Conserve and Ghost are about the packed ids, one level, the outer
--   loop, the events put out, the whole operation, its accounting, and full levels; Served and
--   Priority are about who is served first, Growth about what one event can add to a book.
-- - SpscQueue: engine/queues/SPSCQueue.hpp, its operations and, as the relation `Step`, the atomic
--   steps of both threads; Store is about the buffer, Fifo has the invariant, Schedule the runs.
-- - ObjectPool: engine/memory/ObjectPool.hpp. A pointer is the index of its slot.
-- - Strategy: engine/strategy/Strategy.hpp, StrategyEngine.hpp and StrategyEngine.cpp.
-- - Replay: engine/replay/VectorReplayController.hpp; Drain is the loop that reads it empty.
-- - Router: engine/runtime/SymbolRouter.hpp and SymbolRouter.cpp; Isolation is about its pipelines.
-- - LatencyHistogram: benchmarks/LatencyHistogram.hpp; Buckets is about the ranges of its buckets.
-- - Text: texts as lists of character codes, with what the program uses of the C and C++ libraries for
--   them: `find`, decimal and hexadecimal output, and the unsigned fields of `sscanf`. Text.Decimal is
--   about a number that is printed and read back.
-- - FileReplay: engine/replay/SequentialReplayController.hpp and SequentialReplayController.cpp. A file
--   is the list of its lines; `read_line` is the body of the loop of `next` up to `parse_line`,
--   `next_row` the loop, `count_row` its end. Rows is about single rows, Drain about a whole file.
-- - StartupAllocator: engine/memory/StartupAllocator.hpp and StartupAllocator.cpp.
-- - StartupValidator: engine/runtime/StartupValidator.hpp and StartupValidator.cpp; `check_pool` is one
--   of the four tests of `check_pools`. Checks is about the report.
-- - AllocationGuard: engine/memory/AllocationGuard.hpp and AllocationGuard.cpp; Count is about its count.
-- - PostgresWriter: engine/persistence/PostgresWriter.hpp and PostgresWriter.cpp, built with PostgreSQL.
--   `writer_step` is a round of `writer_loop`, `handle` its switch, a `_statement` what an `exec_` function
--   sends, a `_cmd` what a public call enqueues; the relation `Steps` has every schedule of them. Order
--   has the invariant, Drain is about `flush` and the destructor, Row and Uuid about the texts.
-- - Base64 and Sha1: dashboard/websocket/base64.hpp and sha1.hpp. RoundTrip has a decoder, Padding the
--   lengths of the padded message and of the digest.
-- - WsServer: dashboard/websocket/WsServer.cpp. `handshake` is that function up to the new client,
--   `disconnect` its end, `drop_clients` the second loop of `broadcast`. Key is about the handshake,
--   Frame about `text_frame`, Clients about the set of clients.
-- - SnapshotPublisher: dashboard/websocket/Snapshot.hpp and SnapshotPublisher.hpp; Trades is about the
--   recent trades.
-- - ReplayLoop: the replay thread of dashboard/websocket/main.cpp, with engine/replay/ReplayController.hpp
--   as the record `Controller`. `observe` is the start of a round, `route` the matching, `publish` its end;
--   Engine says what an event does to the book by the number of its type, and Published sets the thread
--   against a run of the engine by these steps that publishes nothing.
-- - DashboardServer: dashboard/websocket/DashboardServer.hpp and DashboardServer.cpp. A `_json` is a
--   part of `to_json`; Reader is a reader of such documents, Fields sets it against `to_json`. `begin_run` and
--   `listen` are the parts of `run`, `check_running` and `wake_up` those of the loop of the broadcast
--   thread, `run_deferred` a round of the event loop; Life has every schedule of them, Schedule the
--   invariant, and Stop what follows a call of `stop`.
-- - DashboardMain: the rest of dashboard/websocket/main.cpp; `replay_thread` is the thread from the start
--   of its loop to its last update. Room is about files for which the book has room, and Replayed
--   about the thread over such a file.
-- - Datasets: benchmarks/datasets/gen_datasets.cpp; Quotes is about the CSV read back, Stress about the
--   orders that the stress dataset keeps to cancel, StressRows about that dataset read back.
-- - Doubles: the operations of `double` that the benchmarks and the clocks use, as a record.
-- - TimestampProvider: engine/runtime/TimestampProvider.hpp and TimestampProvider.cpp.
-- - Benchmarks: benchmarks/BenchmarkRunner.hpp and `run` of BenchmarkRunner.cpp; `warm_up` and `measure`
--   are its loops, and the names with these as a prefix the parts of a round. Rows, WarmUp, Measure
--   and Run are about the rows of a dataset, the two loops, and the whole run.
-- - BenchmarkReports: `save_json`, `save_csv` and `compare_baseline` of BenchmarkRunner.cpp; Lines is
--   about the lines of a text, RoundTrip about a report that is read as a baseline.
-- - PerformanceMetrics and BenchmarkMain: benchmarks/PerformanceMetrics.hpp and benchmarks/main.cpp.
-- - Tests: concrete books, and the theorems applied to concrete inputs.
--
-- Numbers: an integer of the source is a natural number; an operation that can wrap is written with
-- its wrap (`add64`, `sub64`), and the ranges a theorem needs are its hypotheses. A mutation is a
-- function to the new state; a null pointer or an exception is `none`.
--
-- Bounds and fuel: the probe loops, the scans for the best price and the loops over a level run on the
-- number of rounds that the source's loop bound gives. Only the outer loop of `process_new_order` has
-- no bound in the source; `match_loop` runs on fuel and returns `none` when it runs out. Each of its rounds
-- ends the loop, uses up the aggressor or removes an order, so that one round per resting order and two
-- more are enough on a book in order. `IsBook` is stated for a tick shift of 0, the value that the
-- router uses. `HasRoom` names what a new order needs of its level, since `OrderBook::insert` does not
-- look at the result of `PriceLevel::push`: a free entry of 16, and a sum that does not wrap.
--
-- Atomics are taken to be sequentially consistent: with one writer for each counter, and each counter
-- stored with release and loaded with acquire by the other thread, a schedule of steps is a run.
--
-- What the operating system, the database and the network answer is an argument: whether `mlockall`
-- or a connection succeeds, what `malloc`, `recv` and `send` return, what the clock and the files of the
-- kernel say. A `double` is an abstract type; where its arithmetic matters it comes with `Doubles`.
-- The closures that `defer` hands to the event loop of uWebSockets are taken to run one by one, in order.
--
-- Not modelled: thread affinity (engine/runtime/ThreadAffinityManager.cpp), which is calls of the
-- operating system; the records of engine/memory/PoolTypes.hpp, which the pools only store; the sockets
-- and the event loop of uWebSockets and the printer of nlohmann::json, which are libraries; the accept loop
-- of WsServer.cpp and the loop that waits for a client to leave; `print_report` and `iso_timestamp` of
-- BenchmarkRunner.cpp, which format output; and what `main` prints. The generator of the stress dataset, of
-- the C++ library, is an argument.
pub mod Base
pub mod Text
pub mod Events
pub mod OrderMap
pub mod PriceLevel
pub mod OrderBook
pub mod Matching
pub mod SpscQueue
pub mod ObjectPool
pub mod Strategy
pub mod Replay
pub mod Router
pub mod LatencyHistogram
pub mod FileReplay
pub mod StartupAllocator
pub mod StartupValidator
pub mod AllocationGuard
pub mod PostgresWriter
pub mod Base64
pub mod Sha1
pub mod WsServer
pub mod SnapshotPublisher
pub mod ReplayLoop
pub mod DashboardServer
pub mod DashboardMain
pub mod Datasets
pub mod Doubles
pub mod TimestampProvider
pub mod Benchmarks
pub mod BenchmarkReports
pub mod PerformanceMetrics
pub mod BenchmarkMain
pub mod Tests
