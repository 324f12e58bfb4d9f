-- ===== src/DashboardMain.antt =====
-- dashboard/websocket/main.cpp around its replay thread: the choice of the replay source, the signal
-- handler, and the thread from its start to its last update.
pub mod Room
pub mod Replayed
use event_driven_trading_sys.Base.{ℕ, Bool, true, List, Option, none, some, if◌then◌else◌}
use event_driven_trading_sys.Text.{codes}
use event_driven_trading_sys.Events.{Event}
use event_driven_trading_sys.Strategy.{pass_through}
use event_driven_trading_sys.Replay
use event_driven_trading_sys.Replay.{VectorReplay}
use event_driven_trading_sys.FileReplay
use event_driven_trading_sys.FileReplay.{FileReplay}
use event_driven_trading_sys.OrderBook.{make_book}
use event_driven_trading_sys.SnapshotPublisher.{new_snapshot}
use event_driven_trading_sys.ReplayLoop.{
  Controller, Dashboard, make_demo_events, replay_loop, report_replay,
}
use event_driven_trading_sys.DashboardServer.{DashboardServer, stop}

-- What `rc` points to, with the path of the file.
pub data Source : Type 0 where
  demo : VectorReplay → Source
  csv : List ℕ → FileReplay → Source

abbrev demo_step : VectorReplay × Option Event → Source × Option Event
demo_step (c, e) = (demo c, e)

abbrev pub csv_step : List ℕ → FileReplay × Option Event → Source × Option Event
csv_step path (c, e) = (csv path c, e)

abbrev pub next : Source → Source × Option Event
next (demo c) = demo_step (Replay.next c)
next (csv path c) = csv_step path (FileReplay.next c)

abbrev pub done : Source → Bool
done (demo c) = Replay.done c
done (csv path c) = c.done

abbrev pub events_replayed : Source → ℕ
events_replayed (demo c) = c.events_replayed
events_replayed (csv path c) = c.events_replayed

abbrev pub source_name : Source → List ℕ
source_name (demo c) = codes "demo"
source_name (csv path c) = path

-- The virtual calls through `rc`.
abbrev pub source : Controller Source
source = record {
  next = next;
  done = done;
  events_replayed = events_replayed;
  source_name = source_name;
}

abbrev opened : List ℕ → Option FileReplay → Option Source
opened path none = none
opened path (some c) = some (csv path c)

-- By the argument, if there is one: its path, and the lines of that file if it can be opened. `none` is
-- the exit with a failure.
unfoldable pub choose_source : Option (List ℕ × Option (List (List ℕ))) → Option Source
choose_source none = some (demo (Replay.make_replay make_demo_events))
choose_source (some (path, contents)) = opened path (FileReplay.make_replay contents)

-- `g_stop` and the server, if `g_server` points to one.
pub record Signals : Type 0 where
  pub stop_asked : Bool
  pub has_server : Bool
  pub server : DashboardServer

unfoldable pub on_signal : Signals → Signals
unfolding stop
on_signal s = record s {
  stop_asked = true;
  server = if s.has_server then stop s.server else s.server;
}

module _ {Float : Type 0} (zero_float : Float) (measure : ℕ → Float × Float) (stop : ℕ → Bool)
    (fuel : ℕ) where
  -- The objects of `main`, at the start of the thread.
  abbrev pub start_dashboard : Source → Dashboard Source Float
  start_dashboard rc = record {
    rc = rc;
    book = make_book 1 65_536 0;
    strategy = record { strategy = pass_through; signal_count = 0; noop_count = 0 };
    snap = new_snapshot zero_float;
    processed = 0;
  }

  abbrev pub reported : Option (Dashboard Source Float) → Option (Dashboard Source Float)
  reported none = none
  reported (some d) = some (report_replay source zero_float measure stop fuel d)

  -- The thread, with the rounds of its loop.
  unfoldable pub replay_thread : ℕ → Source → Option (Dashboard Source Float)
  unfolding replay_loop
  replay_thread n rc =
      reported (replay_loop source zero_float measure stop fuel n (start_dashboard rc))
