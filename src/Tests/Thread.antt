-- ===== src/Tests/Thread.antt =====
-- The theorem about the replay thread of dashboard/websocket/main.cpp at a concrete file, and tests of
-- what stands around the thread.
use event_driven_trading_sys.Base.{
  ℕ, ◌≤◌, ◌<◌, u64_mod, ◌∷◌, sym, subst, ◌≡◌, refl, arith, true, false, [], none, some, length,
}
use event_driven_trading_sys.Text.{codes}
use event_driven_trading_sys.Events.{make_new_order, encode_type}
use event_driven_trading_sys.FileReplay
use event_driven_trading_sys.FileReplay.{read_line, parse_line}
use event_driven_trading_sys.FileReplay.Drain.{rows}
use event_driven_trading_sys.ReplayLoop.{Dashboard}
use event_driven_trading_sys.DashboardServer.{begin_run, listen, check_running, wake_up, stop}
use event_driven_trading_sys.DashboardMain.{Source, choose_source, replay_thread, on_signal}
use event_driven_trading_sys.PriceLevel.{max_orders}
use event_driven_trading_sys.OrderBook.Ops.{IsBook}
use event_driven_trading_sys.DashboardMain.Room.{
  AllPositive, arrivals, quantities, engine_all, first_book,
}
use event_driven_trading_sys.DashboardMain.Replayed.{no_signal, replay_thread-shows}
use event_driven_trading_sys.Tests.Server.{awake}
use event_driven_trading_sys.Tests.Bench.{one_row, sale, one_row-rows, one_order}

one_price : (p : ℕ) → arrivals p (rows one_row) ≤ max_orders
one_price p = subst (λ es. arrivals p es ≤ max_orders) (sym one_row-rows) (few p)
  where
    few : (p : ℕ) → arrivals p (sale ∷ []) ≤ max_orders
    few p = ground arith

all_positive : AllPositive (rows one_row)
unfolding make_new_order encode_type
all_positive = subst AllPositive (sym one_row-rows) (tt, tt)

one_quantity : quantities (rows one_row) < u64_mod
unfolding make_new_order
one_quantity = subst (λ es. quantities es < u64_mod) (sym one_row-rows) (omega arith)

abbrev no_measure : ℕ → ℕ × ℕ
no_measure n = (0, 0)

replay_thread-shows_example :
    (rc : Source) × (d : Dashboard Source ℕ) × (choose_source (some (codes "day.csv", some one_row))
      ≡ some rc)
    × (replay_thread 0 no_measure no_signal 3 2 rc ≡ some d)
    × (engine_all 3 (rows one_row) first_book ≡ some d.book)
    × IsBook d.book
    × (d.snap.replay.done ≡ true)
    × (d.snap.replay.events_replayed ≡ length (rows one_row))
    × (d.snap.replay.source_name ≡ codes "day.csv")
replay_thread-shows_example =
    replay_thread-shows 0 no_measure 3 2 (codes "day.csv") one_row all_positive one_price
      one_quantity (omega (arith, one_order)) (omega (arith, one_order)) (omega (arith, one_order))

missing_file : choose_source (some (codes "day.csv", none)) ≡ none
unfolding choose_source FileReplay.make_replay
missing_file = refl

-- A signal in the middle of a run asks the replay thread and the server to stop.
signal_stops :
    let s = on_signal (record { stop_asked = false; has_server = true; server = awake }) in
    (s.stop_asked ≡ true) × (s.server.running ≡ false)
unfolding on_signal begin_run listen check_running wake_up stop
signal_stops = (refl, refl)
