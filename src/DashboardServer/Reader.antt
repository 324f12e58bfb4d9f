-- ===== src/DashboardServer/Reader.antt =====
-- A client of dashboard/websocket/DashboardServer.cpp: it reads a snapshot field by field, by the names
-- that the front end uses.
use Prim.Native.String.{String}
use text.Mathlib.Text.{◌==◌ as str_eq}
use event_driven_trading_sys.Base.{ℕ, ◌≡◌, Bool, if◌then◌else◌, List, [], ◌∷◌, Option, none, some}
use event_driven_trading_sys.SnapshotPublisher.{
  PriceQty, OrderBookSnapshot, TradeEvent, ReplayStats, Metrics, PoolMetrics, StartupMetrics,
  EngineSnapshot,
}
use event_driven_trading_sys.DashboardServer.{Json}

-- The value under a key of an object.
abbrev pub value_of {ℓ} : {J : Type ℓ} → String → List (String × J) → Option J
value_of k [] = none
value_of k ((j, v) ∷ m) = if str_eq j k then some v else value_of k m

infixl 5 ◌>>=◌
abbrev pub ◌>>=◌ {ℓ κ} : {A : Type ℓ} {B : Type κ} → Option A → (A → Option B) → Option B
none >>= f = none
some a >>= f = f a

-- A reader of JSON: what it takes the values apart into.
pub record Reader (Float J : Type 0) : Type 0 where
  pub parse : List ℕ → Option J
  pub as_number : J → Option ℕ
  pub as_real : J → Option Float
  pub as_boolean : J → Option Bool
  pub as_text : J → Option (List ℕ)
  pub as_array : J → Option (List J)
  pub get : J → String → Option J

-- It reads back the values that the library makes.
pub record Reads {Float J : Type 0} (json : Json Float J) (r : Reader Float J) : Type 0 where
  pub number : (n : ℕ) → r.as_number (json.number n) ≡ some n
  pub real : (x : Float) → r.as_real (json.real x) ≡ some x
  pub boolean : (b : Bool) → r.as_boolean (json.boolean b) ≡ some b
  pub text : (s : List ℕ) → r.as_text (json.text s) ≡ some s
  pub array : (xs : List J) → r.as_array (json.array xs) ≡ some xs
  pub object : (m : List (String × J)) (k : String) → r.get (json.object m) k ≡ value_of k m

abbrev pub read_all {ℓ κ} : {A : Type ℓ} {B : Type κ} → (A → Option B) → List A → Option (List B)
read_all f [] = some []
read_all f (x ∷ xs) = do y ← f x; ys ← read_all f xs; some (y ∷ ys)

module _ {Float J : Type 0} (r : Reader Float J) where
  unfoldable pub number_at : String → J → Option ℕ
  number_at k j = do v ← r.get j k; r.as_number v

  unfoldable pub real_at : String → J → Option Float
  real_at k j = do v ← r.get j k; r.as_real v

  unfoldable pub boolean_at : String → J → Option Bool
  boolean_at k j = do v ← r.get j k; r.as_boolean v

  unfoldable pub text_at : String → J → Option (List ℕ)
  text_at k j = do v ← r.get j k; r.as_text v

  unfoldable pub array_at : {A : Type 0} → (J → Option A) → String → J → Option (List A)
  array_at f k j = do v ← r.get j k; xs ← r.as_array v; read_all f xs

  unfoldable pub read_depth : J → Option PriceQty
  unfolding number_at
  read_depth j = do
    price ← number_at "price" j
    quantity ← number_at "qty" j
    some (record { price = price; quantity = quantity })

  unfoldable pub read_orderbook : J → Option OrderBookSnapshot
  unfolding number_at array_at read_depth
  read_orderbook j = do
    symbol_id ← number_at "symbol_id" j
    best_bid ← number_at "best_bid" j
    best_ask ← number_at "best_ask" j
    spread ← number_at "spread" j
    bids ← array_at read_depth "bids" j
    asks ← array_at read_depth "asks" j
    some (record {
      symbol_id = symbol_id;
      best_bid = best_bid;
      best_ask = best_ask;
      spread = spread;
      bids = bids;
      asks = asks;
    })

  unfoldable pub read_trade : J → Option TradeEvent
  unfolding number_at
  read_trade j = do
    timestamp ← number_at "ts" j
    symbol_id ← number_at "symbol_id" j
    order_id ← number_at "order_id" j
    price ← number_at "price" j
    quantity ← number_at "qty" j
    side ← number_at "side" j
    some (record {
      timestamp = timestamp;
      symbol_id = symbol_id;
      order_id = order_id;
      price = price;
      quantity = quantity;
      side = side;
    })

  unfoldable pub read_replay : J → Option ReplayStats
  unfolding number_at boolean_at text_at
  read_replay j = do
    source_name ← text_at "source" j
    events_replayed ← number_at "events_replayed" j
    last_timestamp ← number_at "last_ts" j
    done ← boolean_at "done" j
    some (record {
      events_replayed = events_replayed;
      last_timestamp = last_timestamp;
      done = done;
      source_name = source_name;
    })

  unfoldable pub read_metrics : J → Option (Metrics Float)
  unfolding number_at real_at
  read_metrics j = do
    throughput_eps ← real_at "throughput_eps" j
    queue_occupancy ← real_at "queue_occupancy" j
    avg_latency_us ← real_at "avg_latency_us" j
    signals ← number_at "signals" j
    noops ← number_at "noops" j
    some (record {
      throughput_eps = throughput_eps;
      queue_occupancy = queue_occupancy;
      avg_latency_us = avg_latency_us;
      signals = signals;
      noops = noops;
    })

  unfoldable pub read_pool : J → Option PoolMetrics
  unfolding number_at text_at
  read_pool j = do
    name ← text_at "name" j
    capacity ← number_at "capacity" j
    used ← number_at "used" j
    available ← number_at "available" j
    exhaustion_count ← number_at "exhaustion_count" j
    some (record {
      name = name;
      capacity = capacity;
      used = used;
      available = available;
      exhaustion_count = exhaustion_count;
    })

  unfoldable pub read_startup : J → Option StartupMetrics
  unfolding number_at boolean_at
  read_startup j = do
    allocator_started ← boolean_at "allocator_started" j
    mlockall_success ← boolean_at "mlockall_success" j
    event_pool_capacity ← number_at "event_pool_capacity" j
    order_pool_capacity ← number_at "order_pool_capacity" j
    execution_pool_capacity ← number_at "execution_pool_capacity" j
    signal_pool_capacity ← number_at "signal_pool_capacity" j
    validation_passed ← boolean_at "validation_passed" j
    some (record {
      allocator_started = allocator_started;
      mlockall_success = mlockall_success;
      event_pool_capacity = event_pool_capacity;
      order_pool_capacity = order_pool_capacity;
      execution_pool_capacity = execution_pool_capacity;
      signal_pool_capacity = signal_pool_capacity;
      validation_passed = validation_passed;
    })

  unfoldable pub read_parts : J → Option (EngineSnapshot Float)
  unfolding number_at array_at read_trade read_pool
  read_parts j = do
    snapshot_ts ← number_at "ts" j
    ob ← r.get j "orderbook"
    orderbook ← read_orderbook ob
    recent_trades ← array_at read_trade "trades" j
    re ← r.get j "replay"
    replay ← read_replay re
    me ← r.get j "metrics"
    metrics ← read_metrics me
    pools ← array_at read_pool "pools" j
    st ← r.get j "startup"
    startup ← read_startup st
    some (record {
      orderbook = orderbook;
      recent_trades = recent_trades;
      replay = replay;
      metrics = metrics;
      pools = pools;
      startup = startup;
      snapshot_ts = snapshot_ts;
    })

  -- A whole message.
  unfoldable pub read_snapshot : List ℕ → Option (EngineSnapshot Float)
  read_snapshot message = do j ← r.parse message; read_parts j
