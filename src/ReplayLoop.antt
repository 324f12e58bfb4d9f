-- ===== src/ReplayLoop.antt =====
-- dashboard/websocket/main.cpp: the thread that replays events through the strategy and the matching
-- engine and publishes what the dashboard shows. The replay source is any controller; whether a signal
-- has asked to stop, and the throughput and latency that the clock gives, are arguments.
pub mod Engine
pub mod Published
use event_driven_trading_sys.Base.{
  ℕ, zero, suc, ◌+◌, Bool, true, false, ◌==◌, if◌then◌else◌, List, [], ◌∷◌, Option, none, some,
}
use event_driven_trading_sys.Events.{
  Event, event_type, new_order, cancel_order, modify_order, trade_execution, bid, ask,
  make_new_order, make_cancel_order,
}
use event_driven_trading_sys.OrderBook.{OrderBook}
use event_driven_trading_sys.Matching.{
  MatchOutput, process_new_order, process_cancel, process_modify,
}
use event_driven_trading_sys.Strategy
use event_driven_trading_sys.Strategy.{StrategyEngine, StrategySignal, signal, noop}
use event_driven_trading_sys.SnapshotPublisher.{
  EngineSnapshot, push_trade, update_replay, update_replay_timestamp, update_orderbook,
  update_metrics,
}

-- The built-in events.
unfoldable pub make_demo_events : List Event
unfolding make_new_order make_cancel_order
make_demo_events =
    make_new_order 1_000 1 101 10_060 100 ask
    ∷ make_new_order 1_001 1 102 10_070 200 ask
    ∷ make_new_order 1_002 1 103 10_080 150 ask
    ∷ make_new_order 1_003 1 201 10_050 100 bid
    ∷ make_new_order 1_004 1 202 10_040 250 bid
    ∷ make_new_order 2_000 1 301 10_060 50 bid
    ∷ make_new_order 2_001 1 302 10_065 200 bid
    ∷ make_new_order 3_000 1 401 10_050 100 ask
    ∷ make_cancel_order 4_000 1 103
    ∷ []

-- engine/replay/ReplayController.hpp: what the loop asks of a replay source.
pub record Controller (C : Type 0) : Type 0 where
  pub next : C → C × Option Event
  pub done : C → Bool
  pub events_replayed : C → ℕ
  pub source_name : C → List ℕ

pub record Dashboard (C Float : Type 0) : Type 0 where
  pub rc : C
  pub book : OrderBook
  pub strategy : StrategyEngine
  pub snap : EngineSnapshot Float
  pub processed : ℕ

abbrev pub matched : Option (MatchOutput × OrderBook) → Option (OrderBook × List Event)
matched none = none
matched (some (out, book)) = some (book, out.events)

-- The matching engine's part of a round: the book, and the events put out. `none` means that the fuel
-- of the matching loop ran out.
unfoldable pub route : ℕ → OrderBook → Event → Option (OrderBook × List Event)
route fuel book event =
    let etype = event_type event in
    if etype == new_order
    then matched (process_new_order fuel book event)
    else if etype == cancel_order
    then some ((process_cancel book event).0, [])
    else if etype == modify_order
    then some ((process_modify book event).0, [])
    else some (book, [])

module _ {Float : Type 0} where
  -- The loop over `out.event_span()`.
  unfoldable pub push_executions : List Event → EngineSnapshot Float → EngineSnapshot Float
  push_executions [] snap = snap
  push_executions (e ∷ es) snap =
      push_executions es (if event_type e == trade_execution then push_trade e snap else snap)

module _ {C Float : Type 0} (source : Controller C) (no_occupancy : Float)
    (measure : ℕ → Float × Float) (stop : ℕ → Bool) (fuel : ℕ) where
  open source use {next, done, events_replayed, source_name}

  abbrev pub report_replay : Dashboard C Float → Dashboard C Float
  report_replay d = record d {
    snap = update_replay (events_replayed d.rc) (done d.rc) (source_name d.rc) d.snap;
  }

  -- The start of a round, with the controller behind the event.
  abbrev pub observe : C → Event → Dashboard C Float → Dashboard C Float
  observe rc event d =
      let d' = report_replay (record d { rc = rc }) in
      record d' { snap = update_replay_timestamp event.timestamp d'.snap }

  -- The end of a round, with the new book and the events put out.
  abbrev pub publish : Dashboard C Float → OrderBook → List Event → Dashboard C Float
  publish d book events =
      let processed = d.processed + 1 in
      let (throughput, latency) = measure processed in
      let snap = update_orderbook book (push_executions events d.snap) in
      record d {
        book = book;
        processed = processed;
        snap = update_metrics d.strategy no_occupancy throughput latency snap;
      }

  abbrev pub handle_routed :
      (Dashboard C Float → Option (Dashboard C Float))
      → Dashboard C Float
      → Option (OrderBook × List Event)
      → Option (Dashboard C Float)
  handle_routed rest d none = none
  handle_routed rest d (some (book, events)) = rest (publish d book events)

  -- `noop` is `continue`.
  abbrev pub handle_signal :
      (Dashboard C Float → Option (Dashboard C Float))
      → Dashboard C Float
      → Event
      → StrategySignal
      → Option (Dashboard C Float)
  handle_signal rest d event noop = rest d
  handle_signal rest d event signal = handle_routed rest d (route fuel d.book event)

  abbrev pub gate :
      (Dashboard C Float → Option (Dashboard C Float))
      → Dashboard C Float
      → Event
      → StrategyEngine × StrategySignal
      → Option (Dashboard C Float)
  gate rest d event (strategy, sig) =
      handle_signal rest (record d { strategy = strategy }) event sig

  abbrev pub handle_next :
      (Dashboard C Float → Option (Dashboard C Float))
      → Dashboard C Float
      → C × Option Event
      → Option (Dashboard C Float)
  handle_next rest d (rc, none) = some (record d { rc = rc })
  handle_next rest d (rc, some event) =
      gate rest (observe rc event d) event (Strategy.process d.strategy event)

  -- The loop, with the rounds left: `none` when they run out.
  unfoldable pub replay_loop : ℕ → Dashboard C Float → Option (Dashboard C Float)
  unfolding route
  replay_loop zero d = none
  replay_loop (suc n) d =
      let round = handle_next (replay_loop n) d (next d.rc) in if stop n then some d else round
