-- ===== src/DashboardServer.antt =====
-- dashboard/websocket/DashboardServer.hpp and DashboardServer.cpp: the text that is sent for a snapshot,
-- and the life of the server. What nlohmann::json builds and prints is a parameter; uWebSockets is the
-- queue of the closures that its event loop runs, and the listen socket.
pub mod Reader
pub mod Fields
pub mod Life
pub mod Schedule
pub mod Stop
use Prim.Native.String.{String}
use event_driven_trading_sys.Base.{
  ℕ, ◌+◌, Bool, true, false, if◌then◌else◌, List, [], ◌∷◌, ◌++◌, map, Option, none, some,
}
use event_driven_trading_sys.SnapshotPublisher.{
  PriceQty, OrderBookSnapshot, TradeEvent, ReplayStats, Metrics, PoolMetrics, StartupMetrics,
  EngineSnapshot,
}

-- The values that the source makes with nlohmann::json, and `dump`.
pub record Json (Float J : Type 0) : Type 0 where
  pub number : ℕ → J
  pub real : Float → J
  pub boolean : Bool → J
  pub text : List ℕ → J
  pub literal : String → J
  pub array : List J → J
  pub object : List (String × J) → J
  pub dump : J → List ℕ

module _ {Float J : Type 0} (json : Json Float J) where
  open json use {number, real, boolean, text, literal, array, object, dump}

  abbrev pub depth_json : PriceQty → J
  depth_json d = object (("price", number d.price) ∷ ("qty", number d.quantity) ∷ [])

  abbrev pub orderbook_json : OrderBookSnapshot → J
  orderbook_json ob = object (
      ("symbol_id", number ob.symbol_id)
      ∷ ("best_bid", number ob.best_bid)
      ∷ ("best_ask", number ob.best_ask)
      ∷ ("spread", number ob.spread)
      ∷ ("bids", array (map depth_json ob.bids))
      ∷ ("asks", array (map depth_json ob.asks))
      ∷ [])

  abbrev pub trade_json : TradeEvent → J
  trade_json t = object (
      ("ts", number t.timestamp)
      ∷ ("symbol_id", number t.symbol_id)
      ∷ ("order_id", number t.order_id)
      ∷ ("price", number t.price)
      ∷ ("qty", number t.quantity)
      ∷ ("side", number t.side)
      ∷ [])

  abbrev pub replay_json : ReplayStats → J
  replay_json r = object (
      ("source", text r.source_name)
      ∷ ("events_replayed", number r.events_replayed)
      ∷ ("last_ts", number r.last_timestamp)
      ∷ ("done", boolean r.done)
      ∷ [])

  abbrev pub metrics_json : Metrics Float → J
  metrics_json m = object (
      ("throughput_eps", real m.throughput_eps)
      ∷ ("queue_occupancy", real m.queue_occupancy)
      ∷ ("avg_latency_us", real m.avg_latency_us)
      ∷ ("signals", number m.signals)
      ∷ ("noops", number m.noops)
      ∷ [])

  abbrev pub pool_json : PoolMetrics → J
  pool_json p = object (
      ("name", text p.name)
      ∷ ("capacity", number p.capacity)
      ∷ ("used", number p.used)
      ∷ ("available", number p.available)
      ∷ ("exhaustion_count", number p.exhaustion_count)
      ∷ [])

  abbrev pub startup_json : StartupMetrics → J
  startup_json s = object (
      ("allocator_started", boolean s.allocator_started)
      ∷ ("mlockall_success", boolean s.mlockall_success)
      ∷ ("event_pool_capacity", number s.event_pool_capacity)
      ∷ ("order_pool_capacity", number s.order_pool_capacity)
      ∷ ("execution_pool_capacity", number s.execution_pool_capacity)
      ∷ ("signal_pool_capacity", number s.signal_pool_capacity)
      ∷ ("validation_passed", boolean s.validation_passed)
      ∷ [])

  unfoldable pub snapshot_json : EngineSnapshot Float → J
  snapshot_json snap = object (
      ("type", literal "snapshot")
      ∷ ("ts", number snap.snapshot_ts)
      ∷ ("orderbook", orderbook_json snap.orderbook)
      ∷ ("trades", array (map trade_json snap.recent_trades))
      ∷ ("replay", replay_json snap.replay)
      ∷ ("metrics", metrics_json snap.metrics)
      ∷ ("pools", array (map pool_json snap.pools))
      ∷ ("startup", startup_json snap.startup)
      ∷ [])

  unfoldable pub to_json : EngineSnapshot Float → List ℕ
  unfolding snapshot_json
  to_json snap = dump (snapshot_json snap)

-- What is deferred to the event loop: a text for all subscribers, or the closing of the socket.
pub data Task : Type 0 where
  publish : List ℕ → Task
  close_socket : Task

-- Where the thread of `run` and the broadcast thread are.
pub data RunPhase : Type 0 where
  not_running started serving : RunPhase

pub data Broadcast : Type 0 where
  not_started checking sleeping finished : Broadcast

-- The members, the closures that wait, and what the loop did: the texts sent and the sockets closed.
pub record DashboardServer : Type 0 where
  pub running : Bool
  pub has_loop : Bool
  pub listening : Bool
  pub phase : RunPhase
  pub broadcast : Broadcast
  pub deferred : List Task
  pub sent : List (List ℕ)
  pub closed : ℕ

abbrev pub new_server : DashboardServer
new_server = record {
  running = false;
  has_loop = false;
  listening = false;
  phase = not_running;
  broadcast = not_started;
  deferred = [];
  sent = [];
  closed = 0;
}

abbrev pub defer : Task → DashboardServer → DashboardServer
defer task s = record s { deferred = s.deferred ++ (task ∷ []) }

-- `stop`
unfoldable pub stop : DashboardServer → DashboardServer
stop s =
    if s.running
    then if s.has_loop
      then defer close_socket (record s { running = false })
      else record s { running = false }
    else s

-- `run` up to `uWS::App app`
unfoldable pub begin_run : DashboardServer → DashboardServer
begin_run s = record s { running = true; phase = started }

-- `run` up to `app.run()`, by whether the port was bound.
unfoldable pub listen : Bool → DashboardServer → DashboardServer
listen bound s = record s {
  has_loop = true;
  listening = bound;
  phase = serving;
  broadcast = checking;
}

-- The end of the broadcast thread.
abbrev pub leave : DashboardServer → DashboardServer
leave s = defer close_socket (record s { broadcast = finished })

-- The test of the broadcast loop, and what follows the sleep, with the text of the snapshot.
unfoldable pub check_running : DashboardServer → DashboardServer
check_running s = if s.running then record s { broadcast = sleeping } else leave s

unfoldable pub wake_up : List ℕ → DashboardServer → DashboardServer
wake_up json s =
    if s.running then defer (publish json) (record s { broadcast = checking }) else leave s

-- A closure on the event loop.
unfoldable pub perform : Task → DashboardServer → DashboardServer
perform (publish json) s = record s { sent = s.sent ++ (json ∷ []) }
perform close_socket s =
    if s.listening then record s { listening = false; closed = s.closed + 1 } else s

abbrev pub next_task : List Task → DashboardServer → DashboardServer
unfolding perform
next_task [] s = s
next_task (task ∷ tasks) s = perform task (record s { deferred = tasks })

-- The first closure that waits.
unfoldable pub run_deferred : DashboardServer → DashboardServer
unfolding perform
run_deferred s = next_task s.deferred s
