-- ===== src/ReplayLoop/Published.antt =====
-- What the replay thread of dashboard/websocket/main.cpp has published, against a run of the engine
-- alone.
use mathlib.Core.List.{append_assoc, map-append}
use event_driven_trading_sys.Base.{
  ℕ, zero, suc, ◌≤◌, ◌≡◌, refl, sym, subst, ◌∙◌, ap, inl, inr, Bool, ◌==◌, if◌then◌else◌,
  Bool-cases, List, [], ◌∷◌, ◌++◌, map, Option, none, some, length,
}
use event_driven_trading_sys.Events.{Event, event_type, trade_execution}
use event_driven_trading_sys.OrderBook.{OrderBook}
use event_driven_trading_sys.Strategy
use event_driven_trading_sys.Strategy.{StrategyEngine, StrategySignal, signal, noop}
use event_driven_trading_sys.SnapshotPublisher.{
  EngineSnapshot, TradeEvent, trade_of, max_trades, push_trade, update_replay,
  update_replay_timestamp, update_orderbook, update_metrics,
}
use event_driven_trading_sys.SnapshotPublisher.Trades.{
  last, length-last, last-last_append, push_trades, recent_trades-push_trades,
}
use event_driven_trading_sys.ReplayLoop.Engine.{engine_step, route-engine_step}
use event_driven_trading_sys.ReplayLoop.{
  Controller, Dashboard, route, push_executions, replay_loop, handle_routed, gate, handle_next,
  observe, publish,
}

-- The trade executions among the events put out.
abbrev pub executions : List Event → List Event
executions [] = []
executions (e ∷ es) = if event_type e == trade_execution then e ∷ executions es else executions es

push_executions-push_trades :
    {Float : Type 0} (es : List Event) (snap : EngineSnapshot Float)
    → push_executions es snap ≡ push_trades (executions es) snap
unfolding push_executions
push_executions-push_trades [] snap = refl
push_executions-push_trades (e ∷ es) snap = elim (Bool-cases (event_type e == trade_execution)) [
  | inl h ↦ rw h (push_executions-push_trades es (push_trade e snap))
  | inr h ↦ rw h (push_executions-push_trades es snap)
]

abbrev pub prepend : List Event → Option (OrderBook × List Event) → Option (OrderBook × List Event)
prepend es none = none
prepend es (some (book, rest)) = some (book, executions es ++ rest)

module _ {C : Type 0} (source : Controller C) (stop : ℕ → Bool) (fuel : ℕ) where
  open source use {next}

  abbrev pub after_route :
      (OrderBook → Option (OrderBook × List Event))
      → Option (OrderBook × List Event)
      → Option (OrderBook × List Event)
  after_route rest none = none
  after_route rest (some (book, events)) = prepend events (rest book)

  abbrev pub after_signal :
      (StrategyEngine → OrderBook → Option (OrderBook × List Event))
      → OrderBook
      → Event
      → StrategyEngine × StrategySignal
      → Option (OrderBook × List Event)
  after_signal rest book event (strategy, noop) = rest strategy book
  after_signal rest book event (strategy, signal) =
      after_route (rest strategy) (engine_step fuel book event)

  abbrev pub after_next :
      (C → StrategyEngine → OrderBook → Option (OrderBook × List Event))
      → StrategyEngine
      → OrderBook
      → C × Option Event
      → Option (OrderBook × List Event)
  after_next rest strategy book (rc, none) = some (book, [])
  after_next rest strategy book (rc, some event) =
      after_signal (rest rc) book event (Strategy.process strategy event)

  -- The engine alone, with nothing published: the book at the end, and the trades of the whole run.
  abbrev pub engine_run : ℕ → C → StrategyEngine → OrderBook → Option (OrderBook × List Event)
  engine_run zero rc strategy book = none
  engine_run (suc n) rc strategy book =
      let round = after_next (engine_run n) strategy book (next rc) in
      if stop n then some (book, []) else round

-- The book and the recent trades of the dashboard.
abbrev pub shown :
    {C Float : Type 0} → Option (Dashboard C Float) → Option (OrderBook × List TradeEvent)
shown none = none
shown (some d) = some (d.book, d.snap.recent_trades)

-- The book of a run, and the last of some older trades and those of the run.
abbrev pub expected :
    List TradeEvent → Option (OrderBook × List Event) → Option (OrderBook × List TradeEvent)
expected old none = none
expected old (some (book, es)) = some (book, last max_trades (old ++ map trade_of es))

expected-prepend :
    (old : List TradeEvent) (es : List Event) (r : Option (OrderBook × List Event))
    → expected (last max_trades (old ++ map trade_of (executions es))) r
      ≡ expected old (prepend es r)
expected-prepend old es none = refl
expected-prepend old es (some (book, rest)) =
    ap (λ ts. some (book, ts))
      (last-last_append max_trades (old ++ map trade_of (executions es)) (map trade_of rest)
        ∙ ap (last max_trades) (
            append_assoc old (map trade_of (executions es)) (map trade_of rest)
            ∙ ap (λ ts. old ++ ts) (sym (map-append trade_of (executions es) rest))))

module _ {C Float : Type 0} (source : Controller C) (no_occupancy : Float)
    (measure : ℕ → Float × Float) (stop : ℕ → Bool) (fuel : ℕ) where
  recent_trades-publish :
      (d : Dashboard C Float) (book : OrderBook) (es : List Event)
      → length d.snap.recent_trades ≤ max_trades
      → (publish source no_occupancy measure stop fuel d book es).snap.recent_trades
        ≡ last max_trades (d.snap.recent_trades ++ map trade_of (executions es))
  unfolding update_orderbook update_metrics
  recent_trades-publish d book es h =
      ap (λ s. s.recent_trades) (push_executions-push_trades es d.snap)
      ∙ recent_trades-push_trades (executions es) d.snap h

  -- A short history is its own last part.
  last_old :
      (d : Dashboard C Float)
      → length d.snap.recent_trades ≤ max_trades
      → d.snap.recent_trades ≡ last max_trades (d.snap.recent_trades ++ [])
  last_old d h = recent_trades-push_trades [] d.snap h

  -- The parts of a round, for any rest of the loop that shows what the engine alone does.
  module _ (R : Dashboard C Float → Option (Dashboard C Float))
      (S : C → StrategyEngine → OrderBook → Option (OrderBook × List Event))
      (ih : (d : Dashboard C Float)
        → length d.snap.recent_trades ≤ max_trades
        → shown (R d) ≡ expected d.snap.recent_trades (S d.rc d.strategy d.book)) where
    shown-handle_routed :
        (r : Option (OrderBook × List Event)) (d : Dashboard C Float)
        → length d.snap.recent_trades ≤ max_trades
        → shown (handle_routed source no_occupancy measure stop fuel R d r)
          ≡ expected d.snap.recent_trades (after_route source stop fuel (S d.rc d.strategy) r)
    shown-handle_routed none d h = refl
    shown-handle_routed (some (book, es)) d h =
        let e = recent_trades-publish d book es h in
        let short =
          subst (λ ts. length ts ≤ max_trades) (sym e)
            (length-last max_trades (d.snap.recent_trades ++ map trade_of (executions es))) in
        ih (publish source no_occupancy measure stop fuel d book es) short
        ∙ ap (λ ts. expected ts (S d.rc d.strategy book)) e
        ∙ expected-prepend d.snap.recent_trades es (S d.rc d.strategy book)

    shown-gate :
        (p : StrategyEngine × StrategySignal) (event : Event) (d : Dashboard C Float)
        → length d.snap.recent_trades ≤ max_trades
        → shown (gate source no_occupancy measure stop fuel R d event p)
          ≡ expected d.snap.recent_trades (after_signal source stop fuel (S d.rc) d.book event p)
    shown-gate (strategy, noop) event d h = ih (record d { strategy = strategy }) h
    shown-gate (strategy, signal) event d h =
        shown-handle_routed (route fuel d.book event) (record d { strategy = strategy }) h
        ∙ ap (λ r. expected d.snap.recent_trades (after_route source stop fuel (S d.rc strategy) r))
            (route-engine_step fuel d.book event)

    shown-handle_next :
        (x : C × Option Event) (d : Dashboard C Float)
        → length d.snap.recent_trades ≤ max_trades
        → shown (handle_next source no_occupancy measure stop fuel R d x)
          ≡ expected d.snap.recent_trades (after_next source stop fuel S d.strategy d.book x)
    unfolding update_replay update_replay_timestamp
    shown-handle_next (rc, none) d h = ap (λ ts. some (d.book, ts)) (last_old d h)
    shown-handle_next (rc, some event) d h =
        shown-gate (Strategy.process d.strategy event) event
          (observe source no_occupancy measure stop fuel rc event d) h

  -- For any replay source, at whatever rounds it is stopped and from at most 50 recent trades, the
  -- replay loop with all that it publishes returns exactly when a run of the strategy and the
  -- matching engine alone does, with the same book; and the recent trades shown are the last 50 of
  -- the old ones followed by all executions of that run, in order.
  pub shown-replay_loop :
      (n : ℕ) (d : Dashboard C Float)
      → length d.snap.recent_trades ≤ max_trades
      → shown (replay_loop source no_occupancy measure stop fuel n d)
        ≡ expected d.snap.recent_trades (engine_run source stop fuel n d.rc d.strategy d.book)
  unfolding replay_loop
  shown-replay_loop zero d h = refl
  shown-replay_loop (suc n) d h = elim (Bool-cases (stop n)) [
    | inl e ↦ rw e (ap (λ ts. some (d.book, ts)) (last_old d h))
    | inr e ↦ rw e (
        shown-handle_next (replay_loop source no_occupancy measure stop fuel n)
          (engine_run source stop fuel n) (shown-replay_loop n) (source.next d.rc) d h)
  ]
