-- ===== src/DashboardServer/Fields.antt =====
-- What a client reads from the text of a snapshot (dashboard/websocket/DashboardServer.cpp).
use event_driven_trading_sys.Base.{◌≡◌, refl, ◌∙◌, ap, List, [], ◌∷◌, map, Option, some}
use event_driven_trading_sys.SnapshotPublisher.{
  PriceQty, OrderBookSnapshot, TradeEvent, ReplayStats, Metrics, PoolMetrics, StartupMetrics,
  EngineSnapshot,
}
use event_driven_trading_sys.DashboardServer.{
  Json, depth_json, orderbook_json, trade_json, replay_json, metrics_json, pool_json, startup_json,
  snapshot_json, to_json,
}
use event_driven_trading_sys.DashboardServer.Reader.{
  ◌>>=◌, Reader, Reads, read_all, array_at, read_depth, read_orderbook, read_trade, read_replay,
  read_metrics, read_pool, read_startup, read_parts, read_snapshot,
}

module _ {Float J : Type 0} (json : Json Float J) (r : Reader Float J) (w : Reads json r) where
  read_depth-json : (d : PriceQty) → read_depth r (depth_json json d) ≡ some d
  unfolding read_depth
  read_depth-json d = simp (w.object, w.number)

  read_all-map :
      {A : Type 0} (f : J → Option A) (g : A → J)
      → ((a : A) → f (g a) ≡ some a)
      → (items : List A) → read_all f (map g items) ≡ some items
  read_all-map f g h [] = refl
  read_all-map f g h (a ∷ items) = rw (h a, read_all-map f g h items) refl

  read_orderbook-json :
      (ob : OrderBookSnapshot) → read_orderbook r (orderbook_json json ob) ≡ some ob
  unfolding read_orderbook array_at
  read_orderbook-json ob = simp (
    w.object,
    w.number,
    w.array,
    read_all-map (read_depth r) (depth_json json) read_depth-json ob.bids,
    read_all-map (read_depth r) (depth_json json) read_depth-json ob.asks,
  )

  read_trade-json : (t : TradeEvent) → read_trade r (trade_json json t) ≡ some t
  unfolding read_trade
  read_trade-json t = simp (w.object, w.number)

  read_replay-json : (s : ReplayStats) → read_replay r (replay_json json s) ≡ some s
  unfolding read_replay
  read_replay-json s = simp (w.object, w.number, w.boolean, w.text)

  read_metrics-json : (m : Metrics Float) → read_metrics r (metrics_json json m) ≡ some m
  unfolding read_metrics
  read_metrics-json m = simp (w.object, w.number, w.real)

  read_pool-json : (p : PoolMetrics) → read_pool r (pool_json json p) ≡ some p
  unfolding read_pool
  read_pool-json p = simp (w.object, w.number, w.text)

  read_startup-json : (s : StartupMetrics) → read_startup r (startup_json json s) ≡ some s
  unfolding read_startup
  read_startup-json s = simp (w.object, w.number, w.boolean)

  read_parts-json :
      (snap : EngineSnapshot Float) → read_parts r (snapshot_json json snap) ≡ some snap
  unfolding read_parts array_at snapshot_json
  read_parts-json snap = simp (
    w.object,
    w.number,
    w.array,
    read_orderbook-json,
    read_replay-json,
    read_metrics-json,
    read_startup-json,
    read_all-map (read_trade r) (trade_json json) read_trade-json snap.recent_trades,
    read_all-map (read_pool r) (pool_json json) read_pool-json snap.pools,
  )

  -- A reader of JSON that takes apart what was put together, and that parses the text of this
  -- snapshot, gets every field of the snapshot back from what `to_json` gives.
  pub read_snapshot-to_json :
      (snap : EngineSnapshot Float)
      → r.parse (json.dump (snapshot_json json snap)) ≡ some (snapshot_json json snap)
      → read_snapshot r (to_json json snap) ≡ some snap
  unfolding read_snapshot to_json
  read_snapshot-to_json snap e = ap (λ o. o >>= read_parts r) e ∙ read_parts-json snap
