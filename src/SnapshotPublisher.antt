-- ===== src/SnapshotPublisher.antt =====
-- dashboard/websocket/Snapshot.hpp and SnapshotPublisher.hpp: the state that the dashboard shows, and the
-- calls that update it. Each call holds the lock, so it is one step. `Float` stands for `double`.
pub mod Trades
use event_driven_trading_sys.Base.{
  ℕ, zero, suc, Bool, true, false, ltb, if◌then◌else◌, List, [], ◌∷◌, ◌++◌, map, Option, none, some,
  length,
}
use event_driven_trading_sys.Text.{codes}
use event_driven_trading_sys.Events.{Event, event_side, side_code}
use event_driven_trading_sys.OrderBook.{OrderBook, has_bid, has_ask, spread}
use event_driven_trading_sys.OrderBook.Depth.{DepthEntry, top_bids, top_asks}
use event_driven_trading_sys.ObjectPool.{ObjectPool, used, available}
use event_driven_trading_sys.Strategy.{StrategyEngine}
use event_driven_trading_sys.StartupAllocator.{StartupAllocator, StartupReport}

pub record PriceQty : Type 0 where
  pub price : ℕ
  pub quantity : ℕ

pub record OrderBookSnapshot : Type 0 where
  pub symbol_id : ℕ
  pub best_bid : ℕ
  pub best_ask : ℕ
  pub spread : ℕ
  pub bids : List PriceQty
  pub asks : List PriceQty

pub record TradeEvent : Type 0 where
  pub timestamp : ℕ
  pub symbol_id : ℕ
  pub order_id : ℕ
  pub price : ℕ
  pub quantity : ℕ
  pub side : ℕ

pub record ReplayStats : Type 0 where
  pub events_replayed : ℕ
  pub last_timestamp : ℕ
  pub done : Bool
  pub source_name : List ℕ

pub record Metrics (Float : Type 0) : Type 0 where
  pub throughput_eps : Float
  pub queue_occupancy : Float
  pub avg_latency_us : Float
  pub signals : ℕ
  pub noops : ℕ

pub record PoolMetrics : Type 0 where
  pub name : List ℕ
  pub capacity : ℕ
  pub used : ℕ
  pub available : ℕ
  pub exhaustion_count : ℕ

pub record StartupMetrics : Type 0 where
  pub allocator_started : Bool
  pub mlockall_success : Bool
  pub event_pool_capacity : ℕ
  pub order_pool_capacity : ℕ
  pub execution_pool_capacity : ℕ
  pub signal_pool_capacity : ℕ
  pub validation_passed : Bool

pub record EngineSnapshot (Float : Type 0) : Type 0 where
  pub orderbook : OrderBookSnapshot
  pub recent_trades : List TradeEvent
  pub replay : ReplayStats
  pub metrics : Metrics Float
  pub pools : List PoolMetrics
  pub startup : StartupMetrics
  pub snapshot_ts : ℕ

abbrev pub max_trades : ℕ
max_trades = 50

-- `0` where there is no quote.
abbrev pub or_zero : Bool → ℕ → ℕ
or_zero b price = if b then price else 0

abbrev pub depth_row : DepthEntry → PriceQty
depth_row d = record { price = d.price; quantity = d.quantity }

abbrev pub trade_of : Event → TradeEvent
unfolding event_side
trade_of e = record {
  timestamp = e.timestamp;
  symbol_id = e.symbol_id;
  order_id = e.order_id;
  price = e.price;
  quantity = e.quantity;
  side = side_code (event_side e);
}

-- `while (size > MAX_TRADES) pop_front()`
unfoldable pub trim : List TradeEvent → List TradeEvent
trim [] = []
trim (t ∷ ts) = if ltb max_trades (length (t ∷ ts)) then trim ts else t ∷ ts

abbrev pub pool_row : List ℕ → ObjectPool → PoolMetrics
unfolding used available
pool_row name pool = record {
  name = name;
  capacity = pool.capacity;
  used = used pool;
  available = available pool;
  exhaustion_count = pool.exhaustion_count;
}

-- A pool that does not exist is left out.
abbrev pub add_pool : List ℕ → Option ObjectPool → List PoolMetrics → List PoolMetrics
add_pool name none pools = pools
add_pool name (some pool) pools = pools ++ (pool_row name pool ∷ [])

unfoldable pub pool_rows : StartupAllocator → List PoolMetrics
pool_rows alloc = add_pool (codes "signal") alloc.signal_pool (
    add_pool (codes "execution") alloc.exec_pool
      (add_pool (codes "order") alloc.order_pool (add_pool (codes "event") alloc.event_pool [])))

module _ {Float : Type 0} where
  -- The default values, with `0.0`.
  abbrev pub new_snapshot : Float → EngineSnapshot Float
  new_snapshot zero_float = record {
    orderbook = record {
      symbol_id = 0;
      best_bid = 0;
      best_ask = 0;
      spread = 0;
      bids = [];
      asks = [];
    };
    recent_trades = [];
    replay = record { events_replayed = 0; last_timestamp = 0; done = false; source_name = [] };
    metrics = record {
      throughput_eps = zero_float;
      queue_occupancy = zero_float;
      avg_latency_us = zero_float;
      signals = 0;
      noops = 0;
    };
    pools = [];
    startup = record {
      allocator_started = false;
      mlockall_success = false;
      event_pool_capacity = 0;
      order_pool_capacity = 0;
      execution_pool_capacity = 0;
      signal_pool_capacity = 0;
      validation_passed = false;
    };
    snapshot_ts = 0;
  }

  unfoldable pub update_orderbook : OrderBook → EngineSnapshot Float → EngineSnapshot Float
  unfolding has_bid has_ask spread top_bids top_asks
  update_orderbook book snap = record snap {
    orderbook = record {
      symbol_id = book.symbol_id;
      best_bid = or_zero (has_bid book) book.best_bid;
      best_ask = or_zero (has_ask book) book.best_ask;
      spread = spread book;
      bids = map depth_row (top_bids book 10);
      asks = map depth_row (top_asks book 10);
    };
  }

  unfoldable pub push_trade : Event → EngineSnapshot Float → EngineSnapshot Float
  unfolding trim
  push_trade e snap = record snap { recent_trades = trim (snap.recent_trades ++ (trade_of e ∷ [])) }

  -- What the controller answers to `events_replayed`, `done` and `source_name`.
  unfoldable pub update_replay : ℕ → Bool → List ℕ → EngineSnapshot Float → EngineSnapshot Float
  update_replay events_replayed done source_name snap = record snap {
    replay = record snap.replay {
      events_replayed = events_replayed;
      done = done;
      source_name = source_name;
    };
  }

  unfoldable pub update_replay_timestamp : ℕ → EngineSnapshot Float → EngineSnapshot Float
  update_replay_timestamp ts snap = record snap {
    replay = record snap.replay { last_timestamp = ts };
  }

  unfoldable pub update_metrics :
      StrategyEngine → Float → Float → Float → EngineSnapshot Float → EngineSnapshot Float
  update_metrics se queue_occupancy throughput_eps avg_latency_us snap = record snap {
    metrics = record {
      throughput_eps = throughput_eps;
      queue_occupancy = queue_occupancy;
      avg_latency_us = avg_latency_us;
      signals = se.signal_count;
      noops = se.noop_count;
    };
  }

  unfoldable pub update_startup :
      StartupAllocator → StartupReport → Bool → EngineSnapshot Float → EngineSnapshot Float
  update_startup alloc report validation_passed snap = record snap {
    startup = record {
      allocator_started = alloc.started;
      mlockall_success = report.mlockall_success;
      event_pool_capacity = report.event_pool_capacity;
      order_pool_capacity = report.order_pool_capacity;
      execution_pool_capacity = report.execution_pool_capacity;
      signal_pool_capacity = report.signal_pool_capacity;
      validation_passed = validation_passed;
    };
  }

  unfoldable pub update_pools : StartupAllocator → EngineSnapshot Float → EngineSnapshot Float
  unfolding pool_rows
  update_pools alloc snap = if alloc.started then record snap { pools = pool_rows alloc } else snap

  -- With what the clock reads, in milliseconds.
  unfoldable pub get_snapshot :
      ℕ → EngineSnapshot Float → EngineSnapshot Float × EngineSnapshot Float
  get_snapshot now snap = let snap' = record snap { snapshot_ts = now } in (snap', snap')
